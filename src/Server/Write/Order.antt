-- ===== src/Server/Write/Order.antt =====
-- Nothing that is written to a connection is lost, doubled or reordered.
use fast.Prelude.{
  Bytes, List, [], ap, append-nil, append_assoc, arith, drop, eq_nil_of_length, if◌then◌else◌, refl,
  take, take-append-drop, true, ℕ, ◌++◌, ◌∷◌, ◌≡◌,
}
use fast.Server.{Connection, is_socket}
use fast.Server.Write.{send_loop, server_connection_write_block}

send_loop-append : (room : List ℕ) (b : Bytes) → (send_loop room b).1 ++ (send_loop room b).0 ≡ b
unfolding send_loop
send_loop-append [] b = refl
send_loop-append (n ∷ room) b = ground (
  arith,
  send_loop-append room (drop n b),
  append_assoc (take n b) (send_loop room (drop n b)).1 (send_loop room (drop n b)).0,
  take-append-drop n b,
)

-- What one call sends, and what it leaves, is what was there with the block behind it; without a
-- socket the block is dropped. The rest of the connection stays as it is.
pub write_block-append :
    (room : List ℕ) (c : Connection) (buffer : Bytes)
    → let (d, sent) = server_connection_write_block room c buffer in
      (sent ++ d.write_buffer ≡ c.write_buffer ++ (if is_socket c.socket then buffer else []))
      × (d ≡ record c { write_buffer = d.write_buffer })
unfolding server_connection_write_block
write_block-append room c buffer = ground (
  arith,
  send_loop-append room (c.write_buffer ++ buffer),
  eq_nil_of_length buffer,
  append-nil c.write_buffer,
)

-- The calls of a client in turn, each with what the kernel takes.
abbrev pub Writes : Type 0
Writes = List (List ℕ × Bytes)

pub write_all : Connection → Writes → Connection × Bytes
write_all c [] = (c, [])
write_all c ((room, b) ∷ bs) =
    let (d, sent) = server_connection_write_block room c b in
    let (e, more) = write_all d bs in (e, sent ++ more)

abbrev pub blocks : Writes → Bytes
blocks [] = []
blocks ((room, b) ∷ bs) = b ++ blocks bs

-- Whatever the kernel takes of each call, the bytes that leave a connection with a socket, with
-- those that still wait, are the blocks that were written to it, in order.
pub write_all-blocks :
    (c : Connection) (bs : Writes)
    → is_socket c.socket ≡ true
    → let (d, sent) = write_all c bs in sent ++ d.write_buffer ≡ c.write_buffer ++ blocks bs
unfolding write_all
write_all-blocks c [] h = rw append-nil
write_all-blocks c ((room, b) ∷ bs) h =
    let (d, sent) = server_connection_write_block room c b in
    let (step, same) = write_block-append room c b in
    let (e, more) = write_all d bs in
    let open_socket : is_socket d.socket ≡ true = ground (arith, ap (λ x. x.socket) same) in
    ground (
      arith,
      step,
      write_all-blocks d bs open_socket,
      append_assoc sent more e.write_buffer,
      append_assoc sent d.write_buffer (blocks bs),
      append_assoc c.write_buffer b (blocks bs),
    )
