-- ===== src/Server/Read.antt =====
-- server.c: `server_connection_read`. `chunks` is what the calls of `read` return in turn, where
-- nothing stands for the end of the stream and for an error. The hooks of the client may change
-- the connection, but not its read buffer, whose state is the loop's own.
pub mod Lines
pub mod Delivery
use fast.Prelude.{
  Bool, Bytes, List, Option, [], drop, false, if◌then◌else◌, leb, length, ltb, map, none, not, some,
  suc, take, true, zero, ℕ, ◌&&◌, ◌++◌, ◌+◌, ◌==◌, ◌||◌, ◌∷◌,
}
use fast.Server.{Connection, server_connection_cleanup}

abbrev pub max_chunk_size : ℕ
max_chunk_size = 1024

-- The read loop: the buffer after it, and `bytes_read`.
pub read_chunks : Bytes → List Bytes → Bytes × ℕ
read_chunks buffer [] = (buffer, 0)
read_chunks buffer (b ∷ chunks) =
    let (whole, more) = read_chunks (buffer ++ b) chunks in
    if length b == 0
    then (buffer, 0)
    else if ltb (length b) max_chunk_size
    then (buffer ++ b, length b)
    else (whole, length b + more)

-- What the server does about a connection.
pub data Event : Type 0 where
  line : Bytes → Event
  binary : Bytes → Event
  add_restart_timer : Event
  disconnected : Event

-- The hooks of the server and of the connection; `data_read` gives the number of bytes processed.
pub record Hooks : Type 0 where
  pub line_read : Connection → Bytes → Connection
  pub data_read : Option (Bytes → ℕ)
  pub binary_read : Option (Connection → Bytes → Connection)

abbrev pub is_terminator : ℕ → Bool
is_terminator b = (b == 0) || ((b == 13) || (b == 10))

-- The loop that finds lines. `w` is the bytes from `start` up to `pos`; an empty line is skipped.
-- The result is the connection, the lines given to the hook, and the bytes behind `end`.
unfoldable pub lines_loop :
    (Connection → Bytes → Connection) → Connection → Bytes → Bytes → Connection × List Bytes × Bytes
lines_loop hook c w [] = (c, [], w)
lines_loop hook c w (b ∷ bs) = elim (c.is_binary || c.is_finished) [
  | true ↦ (c, [], w ++ (b ∷ bs))
  | false ↦ elim (is_terminator b) [
    | false ↦ lines_loop hook c (w ++ (b ∷ [])) bs
    | true ↦
        let (d, ls, rest) = lines_loop hook (if length w == 0 then c else hook c w) [] bs in
        (d, (if length w == 0 then ls else w ∷ ls), rest)
  ]
]

-- "Call the hook repeatedly until no data is processed", with fuel for each byte.
pub data_loop : ℕ → (Bytes → ℕ) → Bytes → ℕ → ℕ
data_loop zero hook buffer processed = processed
data_loop (suc fuel) hook buffer processed =
    elim (ltb processed (length buffer) && not (hook (drop processed buffer) == 0)) [
      | true ↦ data_loop fuel hook buffer (processed + hook (drop processed buffer))
      | false ↦ processed
    ]

-- the bytes of the buffer up to its first NUL
abbrev pub c_string : Bytes → Bytes
c_string [] = []
c_string (b ∷ bs) = if b == 0 then [] else b ∷ c_string bs

-- `server_connection_restart`
pub server_connection_restart : Connection → Connection × List Event
server_connection_restart c =
    (record (server_connection_cleanup c) { is_waiting_for_restart = true }, add_restart_timer ∷ [])

-- `none` is a connection that `server_close_connection` has freed.
abbrev pub server_close_connection : Option Connection × List Event
server_close_connection = (none, disconnected ∷ [])

-- "End-of-stream", with what is in the buffer
pub end_of_stream : Hooks → Connection → Option Connection × List Event
unfolding server_connection_restart
end_of_stream hooks c =
    let text = not (length c.read_buffer == 0) && not c.is_binary in
    let d = if text then hooks.line_read c (c_string c.read_buffer) else c in
    let before = if text then line (c_string c.read_buffer) ∷ [] else [] in
    if d.is_active && not d.is_waiting_for_restart
    then (let (e, es) = server_connection_restart d in (some e, before ++ es))
    else (none, before ++ server_close_connection.1)

-- "Binary mode of connection": the hook is called before the length is read again.
pub read_binary : Hooks → Connection → Connection × List Event
read_binary hooks c =
    if c.is_binary && leb c.binary_length (length c.read_buffer)
    then (let block = take c.binary_length c.read_buffer in
        let d : Connection = elim hooks.binary_read [ none ↦ c | some hook ↦ hook c block ] in
        (
          record d {
            read_buffer = drop d.binary_length c.read_buffer;
            is_binary = false;
            binary_length = 0;
          },
          elim hooks.binary_read [ none ↦ [] | some hook ↦ binary block ∷ [] ],
        ))
    else (c, [])

-- the data hook, or else the lines in text mode
pub read_text : Hooks → Connection → Connection × List Event
unfolding lines_loop data_loop
read_text hooks c = elim hooks.data_read [
  | some hook ↦ (
    record c {
      read_buffer = drop (data_loop (length c.read_buffer) hook c.read_buffer 0) c.read_buffer;
    },
    [],
  )
  | none ↦
      if c.is_binary
      then (c, [])
      else (let (d, ls, rest) = lines_loop hooks.line_read c [] c.read_buffer in
          (record d { read_buffer = rest }, map line ls))
]

unfoldable pub server_connection_read :
    Hooks → Connection → List Bytes → Option Connection × List Event
unfolding read_chunks end_of_stream read_binary read_text
server_connection_read hooks c chunks =
    let (buffer, bytes_read) = read_chunks c.read_buffer chunks in
    let c0 = record c { read_buffer = buffer } in
    if bytes_read == 0
    then end_of_stream hooks c0
    else (let (c1, es) = read_text hooks c0 in
        let (c2, fs) = read_binary hooks c1 in
        if c2.is_finished
        then (none, es ++ (fs ++ server_close_connection.1))
        else (some c2, es ++ fs))
