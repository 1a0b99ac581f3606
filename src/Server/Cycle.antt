-- ===== src/Server/Cycle.antt =====
-- server.c: the list of connections of a server, and `server_cycle`. A connection is named by its
-- address, `id`. `select` and the calls on sockets answer through `Ready`: for each connection
-- whether it is in the sets after `select`, the value that `getsockopt` gives, what `send` takes and
-- what `read` returns.
pub mod Ends
use fast.Prelude.{
  Bool, Bytes, List, Option, [], false, if◌then◌else◌, length, map, none, not, some, suc, true,
  zero, ℕ, ◌&&◌, ◌++◌, ◌+◌, ◌==◌, ◌>>=◌, ◌||◌, ◌∷◌,
}
use fast.Server.{Connection, is_socket, server_connection_create}
use fast.Server.Write.{server_connection_write}
use fast.Server.Read.{Event, Hooks, add_restart_timer, server_connection_read}

pub record Entry : Type 0 where
  pub id : ℕ
  pub connection : Connection

-- What the kernel says about a connection. `optval` is 0 when `connect` has succeeded.
pub record Ready : Type 0 where
  pub in_wset : Bool
  pub in_eset : Bool
  pub in_rset : Bool
  pub optval : ℕ
  pub room : List ℕ
  pub chunks : List Bytes

-- `server_str`: its connections and the timers that restart them, by the connection's address.
pub record Server : Type 0 where
  pub socket : Option ℕ
  pub connections : List Entry
  pub restarts : List ℕ

-- `add_to_list` puts a connection in front.
pub server_add_connection : Server → ℕ → Option ℕ → Bytes → ℕ → Server
unfolding server_connection_create
server_add_connection s id sock host port = record s {
  connections =
      record {
        id = id;
        connection = record (server_connection_create sock host port) { is_connected = false };
      }
      ∷ s.connections;
}

pub server_accept : Server → ℕ → ℕ → Bytes → ℕ → Server
unfolding server_connection_create
server_accept s id sock host port = record s {
  connections =
      record {
        id = id;
        connection = record (server_connection_create (some sock) host port) {
          is_connected = true;
        };
      }
      ∷ s.connections;
}

-- `server_restart_connection`: `sock` is what `create_socket` gives.
pub server_restart_connection : Connection → Option ℕ → Connection
server_restart_connection c sock = record c { socket = sock }

-- `restart_connection_callback`, at the connection of that address; none is a connection that has
-- been freed.
pub restart_connection_callback : List Entry → ℕ → Option ℕ → Option (List Entry)
unfolding server_restart_connection
restart_connection_callback [] id sock = none
restart_connection_callback (e ∷ es) id sock =
    if e.id == id
    then some (
        record e {
          connection =
              server_restart_connection (record e.connection { is_waiting_for_restart = false })
                sock;
        }
        ∷ es)
    else elim (restart_connection_callback es id sock) [ none ↦ none | some fs ↦ some (e ∷ fs) ]

pub server_has_connection : Server → ℕ → Bool
server_has_connection s id = has_id s.connections id
  where
    has_id : List Entry → ℕ → Bool
    has_id [] id = false
    has_id (e ∷ es) id = let rest = has_id es id in if e.id == id then true else rest

-- The first walk: a lost connection that is active gets a timer and waits for it. The result is
-- the connections and the new timers, newest first.
pub prepare : List Entry → List Entry × List ℕ
prepare [] = ([], [])
prepare (e ∷ es) =
    let (rest, timers) = prepare es in
    let c = e.connection in
    if not (is_socket c.socket) && (c.is_active && not c.is_waiting_for_restart)
    then (
      record e { connection = record c { is_waiting_for_restart = true } } ∷ rest,
      timers ++ (e.id ∷ []),
    )
    else (e ∷ rest, timers)

-- "Finalization of async connect() call", or a write. The hook of a new connection is run on it.
pub handle_write : (Connection → Connection) → Connection → Ready → Connection
unfolding server_connection_write
handle_write connected_hook c r =
    if not (is_socket c.socket) || not (r.in_wset || r.in_eset)
    then c
    else if not c.is_connected
    then (if r.optval == 0
        then record (connected_hook c) { is_connected = true }
        else record c { socket = none })
    else (server_connection_write r.room c).0

abbrev pub adds_timer : List Event → Bool
adds_timer [] = false
adds_timer (add_restart_timer ∷ es) = true
adds_timer (e ∷ es) = adds_timer es

-- What the read makes of the connection, which is none when it is closed, and whether it gets a
-- timer for its restart.
pub handle_read : Hooks → Connection → Ready → Option Connection × Bool
unfolding server_connection_read
handle_read hooks c r =
    if is_socket c.socket && r.in_rset
    then (let (o, events) = server_connection_read hooks c r.chunks in (o, adds_timer events))
    else (some c, false)

-- `select` answers for the sets it was given only.
abbrev pub masked : Connection → Ready → Ready
masked c r = record r {
  in_rset = r.in_rset && (is_socket c.socket && c.is_connected);
  in_wset =
      r.in_wset && (is_socket c.socket && (not (length c.write_buffer == 0) || not c.is_connected));
  in_eset = r.in_eset && (is_socket c.socket && not c.is_connected);
}

-- A connection with what the kernel still says about it.
abbrev pub Visit : Type 0
Visit = Entry × Ready

-- What a walk over the connections does: whether it begins anew, the connections that are left,
-- the timers that it adds, in order, and the connections that it closes.
pub record Walk : Type 0 where
  pub again : Bool
  pub visits : List Visit
  pub timers : List ℕ
  pub closed : List ℕ

-- A connection that stays is behind the walk.
abbrev pub keep_visit : Visit → Bool → Walk → Walk
keep_visit (e, r) waits w = record w {
  visits = (e, r) ∷ w.visits;
  timers = (if waits then e.id ∷ w.timers else w.timers);
}

-- One connection on the walk, and whether it gets a timer; none is one that is closed.
pub visit : (Connection → Connection) → Hooks → Visit → Option Visit × Bool
unfolding handle_write handle_read
visit connected_hook hooks (e, r) =
    let c = handle_write connected_hook e.connection r in
    let cleared = record r { in_wset = false; in_rset = false } in
    let (o, waits) = handle_read hooks c r in
    (elim o [ none ↦ none | some d ↦ some (record e { connection = d }, cleared) ], waits)

-- The walk of `foreach` after `select`. When a connection is closed, "foreach() magic" goes on from
-- `prev->next`, the connection behind it, and steps over that one; when there is none behind it, it
-- goes on from the head of the list, with the first connection.
pub walk : (Connection → Connection) → Hooks → List Visit → Walk
walk connected_hook hooks [] = record { again = false; visits = []; timers = []; closed = [] }
walk connected_hook hooks ((e, r) ∷ []) = elim (visit connected_hook hooks (e, r)).0 [
  | some u ↦
      keep_visit u (visit connected_hook hooks (e, r)).1
        (record { again = false; visits = []; timers = []; closed = [] })
  | none ↦ record { again = true; visits = []; timers = []; closed = e.id ∷ [] }
]
walk connected_hook hooks ((e, r) ∷ (f ∷ rest)) = elim (visit connected_hook hooks (e, r)).0 [
  | some u ↦
      keep_visit u (visit connected_hook hooks (e, r)).1 (walk connected_hook hooks (f ∷ rest))
  | none ↦
      (let w = walk connected_hook hooks rest in
        record w { visits = f ∷ w.visits; closed = e.id ∷ w.closed })
]

-- The loop over walks, with fuel for each; none is a loop that the fuel does not end.
pub walks :
    (Connection → Connection) → Hooks → ℕ → List Visit → Option (List Visit × List ℕ × List ℕ)
unfolding walk
walks connected_hook hooks zero vs = none
walks connected_hook hooks (suc fuel) vs =
    let w = walk connected_hook hooks vs in
    elim w.again [
      | false ↦ some (w.visits, w.timers, w.closed)
      | true ↦ elim (walks connected_hook hooks fuel w.visits) [
        | none ↦ none
        | some (us, timers, closed) ↦ some (us, w.timers ++ timers, w.closed ++ closed)
      ]
    ]

-- The restart timers that have expired run their callbacks, `sock` being what `create_socket` gives
-- to each; none is a callback at a connection that has been freed.
pub run_restarts : (ℕ → Bool) → (ℕ → Option ℕ) → List ℕ → List Entry → Option (List ℕ × List Entry)
unfolding restart_connection_callback
run_restarts due sock [] es = some ([], es)
run_restarts due sock (t ∷ ts) es = elim (due t) [
  | false ↦ (do (left, fs) ← run_restarts due sock ts es; some (t ∷ left, fs))
  | true ↦ (do fs ← restart_connection_callback es t (sock t); run_restarts due sock ts fs)
]

abbrev pub reversed : List ℕ → List ℕ
reversed [] = []
reversed (t ∷ ts) = reversed ts ++ (t ∷ [])

-- What `accept` gives, if there is a new connection: its address, socket, host and port.
pub record Incoming : Type 0 where
  pub id : ℕ
  pub sock : ℕ
  pub host : Bytes
  pub port : ℕ

-- One cycle. `select` is what the kernel says of each connection, or none when it returns 0 or an
-- error; the fuel is one more than there are connections.
pub server_cycle :
    (Connection → Connection)
    → Hooks
    → Option (Entry → Ready)
    → Option Incoming
    → (ℕ → Bool)
    → (ℕ → Option ℕ)
    → Server
    → Option Server
unfolding prepare walks run_restarts server_accept
server_cycle connected_hook hooks select incoming due sock s =
    let (es, added) = prepare s.connections in
    let s1 : Server = record s { connections = es; restarts = added ++ s.restarts } in
    (do
      s2 ← elim select [
        | none ↦ some s1
        | some says ↦ (do
          (us, timers, closed) ←
              walks connected_hook hooks (length es + 1)
                (map (λ e. (e, masked e.connection (says e))) es)
          (let s' : Server = record s1 {
            connections = map (λ v. v.0) us;
            restarts = reversed timers ++ s1.restarts;
          } in
              some (elim incoming [
                | none ↦ s'
                | some i ↦
                    if is_socket s'.socket then server_accept s' i.id i.sock i.host i.port else s'
              ])))
      ]
      (left, fs) ← run_restarts due sock s2.restarts s2.connections
      some (record s2 { connections = fs; restarts = left }))
