-- ===== src/Server/Read/Lines.antt =====
-- The lines of a text do not depend on how the stream was cut into reads.
use fast.Prelude.{
  All, All-snoc, Bool, Bool-cases, Bytes, List, [], append-nil, append_assoc, arith, false,
  if◌then◌else◌, inl, inr, length, not, refl, true, ℕ, ◌++◌, ◌==◌, ◌||◌, ◌∷◌, ◌≡◌,
}
use fast.Server.{Connection}
use fast.Server.Read.{is_terminator, lines_loop}

-- A hook that neither asks for binary data nor closes the connection.
abbrev pub IsQuiet : (Connection → Bytes → Connection) → Type 0
IsQuiet hook =
    (c : Connection) (w : Bytes)
    → ((hook c w).is_binary ≡ c.is_binary) × ((hook c w).is_finished ≡ c.is_finished)

abbrev pub is_text : Connection → Bool
is_text c = not (c.is_binary || c.is_finished)

abbrev pub Unterminated : Bytes → Type 0
Unterminated w = All (λ b. is_terminator b ≡ false) w

module _ (hook : Connection → Bytes → Connection) (quiet : IsQuiet hook) where
  pub called : Connection → Bytes → Connection
  called c w = if length w == 0 then c else hook c w

  pub called-is_text : (c : Connection) (w : Bytes) → is_text c ≡ true → is_text (called c w) ≡ true
  unfolding called
  called-is_text c w h = grind (arith, quiet c w)

  text_step : (c : Connection) → is_text c ≡ true → (c.is_binary || c.is_finished) ≡ false
  text_step c h = ground arith

  pub lines_loop-terminator :
      (c : Connection) (w : Bytes) (b : ℕ) (bs : Bytes)
      → is_text c ≡ true
      → is_terminator b ≡ true
      → lines_loop hook c w (b ∷ bs) ≡ (
          let (d, ls, rest) = lines_loop hook (called c w) [] bs in
          (d, (if length w == 0 then ls else w ∷ ls), rest))
  unfolding lines_loop called
  lines_loop-terminator c w b bs h k = ground (arith, text_step c h)

  pub lines_loop-other :
      (c : Connection) (w : Bytes) (b : ℕ) (bs : Bytes)
      → is_text c ≡ true
      → is_terminator b ≡ false
      → lines_loop hook c w (b ∷ bs) ≡ lines_loop hook c (w ++ (b ∷ [])) bs
  unfolding lines_loop
  lines_loop-other c w b bs h k = ground (arith, text_step c h)

  pub lines_loop-is_text :
      (c : Connection) (w bs : Bytes) → is_text c ≡ true → is_text (lines_loop hook c w bs).0 ≡ true
  unfolding lines_loop
  lines_loop-is_text c w [] h = h
  lines_loop-is_text c w (b ∷ bs) h = elim (Bool-cases (is_terminator b)) [
    | inl k ↦
        rw (lines_loop-terminator c w b bs h k)
          (lines_loop-is_text (called c w) [] bs (called-is_text c w h))
    | inr k ↦ rw (lines_loop-other c w b bs h k) (lines_loop-is_text c (w ++ (b ∷ [])) bs h)
  ]

  resumed : Connection × List Bytes × Bytes → Bytes → Connection × List Bytes × Bytes
  resumed (d, ls, rest) ys = let (e, ms, end) = lines_loop hook d rest ys in (e, ls ++ ms, end)

  lines_loop-append :
      (c : Connection) (w xs ys : Bytes)
      → is_text c ≡ true
      → lines_loop hook c w (xs ++ ys) ≡ resumed (lines_loop hook c w xs) ys
  unfolding resumed lines_loop
  lines_loop-append c w [] ys h = refl
  lines_loop-append c w (b ∷ xs) ys h = elim (Bool-cases (is_terminator b)) [
    | inl k ↦ ground (
      arith,
      lines_loop-append (called c w) [] xs ys (called-is_text c w h),
      lines_loop-terminator c w b xs h k,
      lines_loop-terminator c w b (xs ++ ys) h k,
    )
    | inr k ↦ ground (
      arith,
      lines_loop-append c (w ++ (b ∷ [])) xs ys h,
      lines_loop-other c w b xs h k,
      lines_loop-other c w b (xs ++ ys) h k,
    )
  ]

  pub Unterminated-rest :
      (c : Connection) (w bs : Bytes)
      → is_text c ≡ true
      → Unterminated w
      → Unterminated (lines_loop hook c w bs).2
  unfolding lines_loop
  Unterminated-rest c w [] h u = u
  Unterminated-rest c w (b ∷ bs) h u = elim (Bool-cases (is_terminator b)) [
    | inl k ↦
        rw (lines_loop-terminator c w b bs h k)
          (Unterminated-rest (called c w) [] bs (called-is_text c w h) tt)
    | inr k ↦
        rw (lines_loop-other c w b bs h k) (
          Unterminated-rest c (w ++ (b ∷ [])) bs h
            (All-snoc (λ b. is_terminator b ≡ false) w b u k))
  ]

  lines_loop-Unterminated :
      (c : Connection) (w r ys : Bytes)
      → is_text c ≡ true
      → Unterminated r
      → lines_loop hook c w (r ++ ys) ≡ lines_loop hook c (w ++ r) ys
  lines_loop-Unterminated c w [] ys h u = rw append-nil
  lines_loop-Unterminated c w (b ∷ r) ys h u = ground (
    arith,
    lines_loop-other c w b (r ++ ys) h u.0,
    lines_loop-Unterminated c (w ++ (b ∷ [])) r ys h u.1,
    append_assoc w (b ∷ []) r,
  )

  -- On a text connection the lines and the rest of a stream are the same however it is cut in two:
  -- what the first read left is in front of what the second brings.
  pub lines_loop-cut :
      (c : Connection) (xs ys : Bytes)
      → is_text c ≡ true
      → let (d, ls, rest) = lines_loop hook c [] xs in
        let (e, ms, end) = lines_loop hook d [] (rest ++ ys) in
        lines_loop hook c [] (xs ++ ys) ≡ (e, ls ++ ms, end)
  unfolding resumed
  lines_loop-cut c xs ys h = rw (
    lines_loop-append c [] xs ys h,
    lines_loop-Unterminated (lines_loop hook c [] xs).0 [] (lines_loop hook c [] xs).2 ys
        (lines_loop-is_text c [] xs h) (Unterminated-rest c [] xs h tt),
  )
