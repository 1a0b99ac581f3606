-- ===== src/Server/Read/Delivery.antt =====
-- What the client of a text connection is given, however the stream comes in.
use mathlib.Core.List.{map-append}
use fast.Prelude.{
  All, Bool-cases, Bytes, List, Option, [], ap, append-nil, append_assoc, arith, if◌then◌else◌, inl,
  inr, length, map, none, refl, some, true, ◌++◌, ◌<◌, ◌==◌, ◌∷◌, ◌≡◌,
}
use fast.Server.{Connection}
use fast.Server.Read.{
  Event, Hooks, is_terminator, line, lines_loop, max_chunk_size, read_binary, read_chunks,
  read_text, server_connection_read,
}
use fast.Server.Read.Lines.{
  IsQuiet, Unterminated, Unterminated-rest, called, called-is_text, is_text, lines_loop-cut,
  lines_loop-is_text, lines_loop-other, lines_loop-terminator,
}

-- The non-empty lines of a text whose current line begins with `w`, and what follows the last.
abbrev pub lines_of : Bytes → Bytes → List Bytes × Bytes
lines_of w [] = ([], w)
lines_of w (b ∷ bs) =
    let (ls, rest) = lines_of [] bs in
    let more = lines_of (w ++ (b ∷ [])) bs in
    if is_terminator b then ((if length w == 0 then ls else w ∷ ls), rest) else more

-- Reads that each bring something and fill no chunk.
abbrev pub IsShort : Bytes → Type 0
IsShort r = (0 < length r) × (length r < max_chunk_size)

abbrev pub joined : List Bytes → Bytes
joined [] = []
joined (r ∷ rs) = r ++ joined rs

-- `server_connection_read` for each read in turn, while the connection is there.
pub read_all : Hooks → Connection → List Bytes → Option Connection × List Event
read_all hooks c [] = (some c, [])
read_all hooks c (r ∷ rs) =
    let (o, es) = server_connection_read hooks c (r ∷ []) in
    elim o [ none ↦ (none, es) | some d ↦ (let (p, fs) = read_all hooks d rs in (p, es ++ fs)) ]

module _ (hooks : Hooks) (quiet : IsQuiet hooks.line_read) (no_data : hooks.data_read ≡ none) where
  lines_loop-lines_of :
      (c : Connection) (w bs : Bytes)
      → is_text c ≡ true
      → ((lines_loop hooks.line_read c w bs).1, (lines_loop hooks.line_read c w bs).2)
        ≡ lines_of w bs
  unfolding lines_loop
  lines_loop-lines_of c w [] h = refl
  lines_loop-lines_of c w (b ∷ bs) h = elim (Bool-cases (is_terminator b)) [
    | inl k ↦ ground (
      arith,
      lines_loop-terminator hooks.line_read quiet c w b bs h k,
      lines_loop-lines_of (called hooks.line_read quiet c w) [] bs
          (called-is_text hooks.line_read quiet c w h),
    )
    | inr k ↦ ground (
      arith,
      lines_loop-other hooks.line_read quiet c w b bs h k,
      lines_loop-lines_of c (w ++ (b ∷ [])) bs h,
    )
  ]

  chunks-IsShort :
      (buffer r : Bytes) → IsShort r → read_chunks buffer (r ∷ []) ≡ (buffer ++ r, length r)
  unfolding read_chunks
  chunks-IsShort buffer r short = ground arith

  text-is_text :
      (c : Connection)
      → is_text c ≡ true
      → let (d, ls, rest) = lines_loop hooks.line_read c [] c.read_buffer in
        read_text hooks c ≡ (record d { read_buffer = rest }, map line ls)
  unfolding read_text
  text-is_text c h = ground (arith, no_data)

  binary-is_text : (c : Connection) → is_text c ≡ true → read_binary hooks c ≡ (c, [])
  unfolding read_binary
  binary-is_text c h = ground arith

  -- the connection after the lines of its buffer and `r`
  after_read : Connection → Bytes → Connection
  after_read c r =
      let (d, ls, rest) =
        lines_loop hooks.line_read (record c { read_buffer = c.read_buffer ++ r }) []
          (c.read_buffer ++ r) in
      record d { read_buffer = rest }

  after_read-is_text :
      (c : Connection) (r : Bytes) → is_text c ≡ true → is_text (after_read c r) ≡ true
  unfolding after_read
  after_read-is_text c r h =
      lines_loop-is_text hooks.line_read quiet (record c { read_buffer = c.read_buffer ++ r }) []
        (c.read_buffer ++ r) h

  read-IsShort :
      (c : Connection) (r : Bytes)
      → is_text c ≡ true
      → IsShort r
      → server_connection_read hooks c (r ∷ [])
        ≡ (some (after_read c r), map line (lines_of [] (c.read_buffer ++ r)).0)
  unfolding server_connection_read after_read
  read-IsShort c r h short =
      let c0 : Connection = record c { read_buffer = c.read_buffer ++ r } in
      ground (
        arith,
        chunks-IsShort c.read_buffer r short,
        text-is_text c0 h,
        binary-is_text (after_read c r) (after_read-is_text c r h),
        after_read-is_text c r h,
        lines_loop-lines_of c0 [] (c.read_buffer ++ r) h,
        append-nil (map line (lines_of [] (c.read_buffer ++ r)).0),
      )

  buffer-after_read :
      (c : Connection) (r : Bytes)
      → is_text c ≡ true
      → (after_read c r).read_buffer ≡ (lines_of [] (c.read_buffer ++ r)).1
  unfolding after_read
  buffer-after_read c r h =
      ap (λ p. p.1)
        (lines_loop-lines_of (record c { read_buffer = c.read_buffer ++ r }) [] (c.read_buffer ++ r)
          h)

  lines_of-cut :
      (c : Connection) (xs ys : Bytes)
      → is_text c ≡ true
      → lines_of [] (xs ++ ys) ≡ (
        (lines_of [] xs).0 ++ (lines_of [] ((lines_of [] xs).1 ++ ys)).0,
        (lines_of [] ((lines_of [] xs).1 ++ ys)).1,
      )
  lines_of-cut c xs ys h =
      let hook = hooks.line_read in
      let d = (lines_loop hook c [] xs).0 in
      let rest = (lines_of [] xs).1 in
      ground (
        arith,
        lines_loop-lines_of c [] (xs ++ ys) h,
        lines_loop-lines_of c [] xs h,
        lines_loop-lines_of d [] (rest ++ ys) (lines_loop-is_text hook quiet c [] xs h),
        lines_loop-cut hook quiet c xs ys h,
      )

  lines_of-Unterminated : (w r : Bytes) → Unterminated r → lines_of w r ≡ ([], w ++ r)
  lines_of-Unterminated w [] u = rw append-nil
  lines_of-Unterminated w (b ∷ r) u =
      ground (arith, u.0, lines_of-Unterminated (w ++ (b ∷ [])) r u.1, append_assoc w (b ∷ []) r)

  after_read-Unterminated :
      (c : Connection) (r : Bytes) → is_text c ≡ true → Unterminated (after_read c r).read_buffer
  unfolding after_read
  after_read-Unterminated c r h =
      Unterminated-rest hooks.line_read quiet (record c { read_buffer = c.read_buffer ++ r }) []
        (c.read_buffer ++ r) h tt

  -- On a text connection whose hook neither asks for binary data nor closes it, the lines that the
  -- hook is given, over any number of reads that bring something and fill no chunk, are the
  -- non-empty lines of the whole stream, in order; the bytes behind the last are kept for later.
  pub read_all-lines_of :
      (c : Connection) (rs : List Bytes)
      → is_text c ≡ true
      → Unterminated c.read_buffer
      → All IsShort rs
      → (d : Connection) × (read_all hooks c rs
          ≡ (some d, map line (lines_of [] (c.read_buffer ++ joined rs)).0))
        × (d.read_buffer ≡ (lines_of [] (c.read_buffer ++ joined rs)).1)
        × (is_text d ≡ true)
  unfolding read_all
  read_all-lines_of c [] h u short =
      let own = lines_of-Unterminated [] c.read_buffer u in
      (
        c,
        ground (arith, own, append-nil c.read_buffer),
        ground (arith, own, append-nil c.read_buffer),
        h,
      )
  read_all-lines_of c (r ∷ rs) h u short =
      let e = after_read c r in
      let (d, run, kept, text) =
        read_all-lines_of e rs (after_read-is_text c r h) (after_read-Unterminated c r h) short.1 in
      let cut = lines_of-cut c (c.read_buffer ++ r) (joined rs) h in
      let assoc = append_assoc c.read_buffer r (joined rs) in
      let buffer = buffer-after_read c r h in
      (
        d,
        ground (
          arith,
          run,
          read-IsShort c r h short.0,
          cut,
          assoc,
          buffer,
          map-append line (lines_of [] (c.read_buffer ++ r)).0
              (lines_of [] (e.read_buffer ++ joined rs)).0,
        ),
        ground (arith, kept, cut, assoc, buffer),
        text,
      )
