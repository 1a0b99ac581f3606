-- ===== src/Server/Write.antt =====
-- server.c: what is written to a connection. `room` is how many bytes each call of `send` takes at
-- most; a call that takes none, or fails, ends the loop, and so does the end of the list.
pub mod Order
use fast.Prelude.{
  Bytes, List, Option, [], drop, if◌then◌else◌, length, none, not, some, take, ℕ, ◌++◌, ◌==◌, ◌||◌,
  ◌∷◌,
}
use fast.Server.{Connection, is_socket}

-- The loop `while(connection->write_length)`: what is left in the buffer, and what was sent.
pub send_loop : List ℕ → Bytes → Bytes × Bytes
send_loop [] buffer = (buffer, [])
send_loop (n ∷ room) buffer =
    let (rest, sent) = send_loop room (drop n buffer) in
    if (length buffer == 0) || (n == 0) then (buffer, []) else (rest, take n buffer ++ sent)

-- The connection after the call, and the bytes that went out.
unfoldable pub server_connection_write : List ℕ → Connection → Connection × Bytes
unfolding send_loop
server_connection_write room c =
    if (length c.write_buffer == 0) || (not (is_socket c.socket) || not c.is_connected)
    then (c, [])
    else (let (rest, sent) = send_loop room c.write_buffer in
        (record c { write_buffer = rest }, sent))

pub server_connection_write_block : List ℕ → Connection → Bytes → Connection × Bytes
unfolding server_connection_write
server_connection_write_block room c buffer =
    if (length buffer == 0) || not (is_socket c.socket)
    then (c, [])
    else server_connection_write room (record c { write_buffer = c.write_buffer ++ buffer })

-- `text` is the formatted message; a message to NULL is dropped.
unfoldable pub server_connection_message :
    List ℕ → Option Connection → Bytes → Option Connection × Bytes
unfolding server_connection_write_block
server_connection_message room none text = (none, [])
server_connection_message room (some c) text =
    let (d, sent) = server_connection_write_block room c (text ++ (0 ∷ [])) in (some d, sent)

pub server_connection_message_nozero :
    List ℕ → Option Connection → Bytes → Option Connection × Bytes
unfolding server_connection_write_block
server_connection_message_nozero room none text = (none, [])
server_connection_message_nozero room (some c) text =
    let (d, sent) = server_connection_write_block room c text in (some d, sent)

-- Each connection is given the text with its NUL.
pub server_broadcast_message : List ℕ → List Connection → Bytes → List Connection × List Bytes
unfolding server_connection_write_block
server_broadcast_message room [] text = ([], [])
server_broadcast_message room (c ∷ cs) text =
    let (d, sent) = server_connection_write_block room c (text ++ (0 ∷ [])) in
    let (ds, others) = server_broadcast_message room cs text in (d ∷ ds, sent ∷ others)
