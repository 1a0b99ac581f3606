-- ===== src/Server/Tests.antt =====
-- A short session of a client.
use fast.Prelude.{
  Bool, List, Option, [], arith, codes, false, length, ltb, none, refl, some, true, ℕ, ◌++◌, ◌+◌,
  ◌∷◌, ◌≡◌,
}
use fast.Time.{TimeStr, time_zero}
use fast.Server.{
  Connection, server_connection_close, server_connection_create, server_connection_wait_for_binary,
}
use fast.Server.Write.{server_connection_message}
use fast.Server.Write.Order.{write_all, write_all-blocks}
use fast.Server.Timer.{Timer, server_check_timers}
use fast.Server.Timer.Check.{check_timers-fires}
use fast.Server.Cycle.{Visit, walks}
use fast.Server.Cycle.Ends.{Rounds, walks-Ends}
use fast.Server.Read.{Event, Hooks, binary, disconnected, line, server_connection_read}
use fast.Server.Read.Lines.{is_text}
use fast.Server.Read.Delivery.{read_all, read_all-lines_of}

abbrev client : Connection
client = record (server_connection_create (some 4) (codes "localhost") 5555) { is_connected = true }

abbrev quiet_hooks : Hooks
quiet_hooks = record { line_read = λ c w. c; data_read = none; binary_read = none }

-- A client that asks for three bytes at each line.
abbrev binary_hooks : Hooks
binary_hooks = record {
  line_read = λ c w. server_connection_wait_for_binary c 3;
  data_read = none;
  binary_read = some (λ c b. c);
}

abbrev events_of : Option Connection × List Event → List Event
events_of (c, es) = es

read-lines :
    events_of (server_connection_read quiet_hooks client ((codes "get" ++ (0 ∷ codes "st")) ∷ []))
    ≡ line (codes "get") ∷ []
unfolding server_connection_read server_connection_create server_connection_wait_for_binary
    server_connection_close
read-lines = refl

read-binary :
    events_of
      (server_connection_read binary_hooks client ((codes "put" ++ (0 ∷ codes "abcd")) ∷ []))
    ≡ line (codes "put") ∷ binary (codes "abc") ∷ []
unfolding server_connection_read server_connection_create server_connection_wait_for_binary
    server_connection_close
read-binary = refl

read-end_of_stream :
    events_of (server_connection_read quiet_hooks (record client { read_buffer = codes "exit" }) [])
    ≡ line (codes "exit") ∷ disconnected ∷ []
unfolding server_connection_read server_connection_create server_connection_wait_for_binary
    server_connection_close
read-end_of_stream = refl

read-close :
    events_of (
      server_connection_read
        (record quiet_hooks { line_read = λ c w. server_connection_close c })
        client
        ((codes "exit" ++ (0 ∷ codes "more")) ∷ []))
    ≡ line (codes "exit") ∷ disconnected ∷ []
unfolding server_connection_read server_connection_create server_connection_wait_for_binary
    server_connection_close
read-close = refl

read_all-lines_of_example :
    (d : Connection) × (read_all quiet_hooks client (codes "ge" ∷ (116 ∷ 0 ∷ 115 ∷ []) ∷ [])
      ≡ (some d, line (codes "get") ∷ []))
    × (d.read_buffer ≡ codes "s")
    × (is_text d ≡ true)
unfolding server_connection_create
read_all-lines_of_example =
    read_all-lines_of quiet_hooks (λ c w. (refl, refl)) refl client
      (codes "ge" ∷ (116 ∷ 0 ∷ 115 ∷ []) ∷ []) refl tt
      ((omega arith, omega arith), ((omega arith, omega arith), tt))

message-sent :
    server_connection_message (2 ∷ 2 ∷ []) (some client) (codes "done")
    ≡ (some (record client { write_buffer = 0 ∷ [] }), codes "done")
unfolding server_connection_message server_connection_create
message-sent = refl

write_all-blocks_example :
    (write_all client ((2 ∷ [], codes "one") ∷ (1 ∷ 9 ∷ [], codes "two") ∷ [])).1
      ++ (write_all client ((2 ∷ [], codes "one") ∷ (1 ∷ 9 ∷ [], codes "two") ∷ [])).0.write_buffer
    ≡ codes "onetwo"
unfolding server_connection_create
write_all-blocks_example =
    write_all-blocks client ((2 ∷ [], codes "one") ∷ (1 ∷ 9 ∷ [], codes "two") ∷ []) refl

abbrev later : TimeStr
later = record time_zero { hour = 1 }

abbrev timer : ℕ → TimeStr → Timer ℕ
timer n t = record { type_code = n; interval = 5; time = t; callback = some n; callback_data = n }

-- A moment is over when its hour is.
abbrev due_hour : TimeStr → TimeStr → Bool
due_hour t now = ltb t.hour now.hour

abbrev again : Timer ℕ → List (Timer ℕ)
again t = timer t.type_code later ∷ []

check_timers-fires_example :
    server_check_timers due_hour again
      (timer 1 time_zero ∷ timer 2 later ∷ timer 3 time_zero ∷ [])
      later
    ≡ (
      timer 3 later ∷ timer 1 later ∷ timer 2 later ∷ [],
      timer 1 time_zero ∷ timer 3 time_zero ∷ [],
    )
check_timers-fires_example =
    check_timers-fires due_hour again (timer 1 time_zero ∷ timer 2 later ∷ timer 3 time_zero ∷ [])
      later

-- A client that hangs up, and one that is quiet.
abbrev visitors : List Visit
visitors =
    (
      record { id = 1; connection = client },
      record {
        in_wset = false;
        in_eset = false;
        in_rset = true;
        optval = 0;
        room = [];
        chunks = [];
      },
    )
    ∷ (
      record { id = 2; connection = client },
      record {
        in_wset = false;
        in_eset = false;
        in_rset = false;
        optval = 0;
        room = [];
        chunks = [];
      },
    )
    ∷ []

walks-Ends_example :
    (us : List Visit) × (timers closed : List ℕ) × (walks (λ c. c) quiet_hooks 3 visitors
      ≡ some (us, timers, closed))
    × Rounds (λ c. c) quiet_hooks visitors us closed
    × (length us + length closed ≡ 2)
walks-Ends_example = walks-Ends (λ c. c) quiet_hooks 3 visitors (omega arith)
