-- ===== src/Image/Geometry/Cells.antt =====
-- What a loop over columns and rows writes.
use fast.Prelude.{
  Bool-cases, List, Option, [], arith, bind-some, get_elem?, get_or, set, some, ◌∷◌, get_or-set_ne,
  get_or-set_self, if◌then◌else◌, inl, inr, length, length-set, ltb, refl, suc, zero, ℕ, ◌&&◌, ◌*◌,
  ◌<◌, ◌==◌, ◌∙◌, ◌≡◌, ◌≢◌, ◌≤◌,
}
use fast.Image.Geometry.{fill_column, fill_columns, index}

index-lt-index : (width x y u v : ℕ) → x < width → y < v → index width x y < index width u v
index-lt-index width x y u v h k = grind arith

index_inj :
    (width x y u v : ℕ)
    → x < width
    → u < width
    → index width x y ≡ index width u v
    → (x ≡ u) × (y ≡ v)
index_inj width x y u v h k e =
    ground (arith, index-lt-index width x y u v h, index-lt-index width u v x y k)

pub index-lt : (width height x y : ℕ) → x < width → y < height → index width x y < width * height
index-lt width height x y h k = grind arith

-- What the loops write when every read is inside: `f` at each place.
module _ {A : Type 0} where
  pub written_column : (ℕ → ℕ → A → A) → A → ℕ → ℕ → ℕ → List A → List A
  written_column f zero_pixel width x zero d = d
  written_column f zero_pixel width x (suc n) d =
      let e = written_column f zero_pixel width x n d in
      set e (index width x n) (f x n (get_or e (index width x n) zero_pixel))

  pub written_columns : (ℕ → ℕ → A → A) → A → ℕ → ℕ → ℕ → List A → List A
  unfolding written_column
  written_columns f zero_pixel width height zero d = d
  written_columns f zero_pixel width height (suc n) d =
      written_column f zero_pixel width n height (written_columns f zero_pixel width height n d)

  pub get_elem?-get_or :
      (d : List A) (i : ℕ) (z : A) → i < length d → get_elem? d i ≡ some (get_or d i z)
  get_elem?-get_or [] i z h = absurd (omega arith)
  get_elem?-get_or (x ∷ d) zero z h = refl
  get_elem?-get_or (x ∷ d) (suc i) z h = get_elem?-get_or d i z (omega arith)

module _ {A : Type 0} (f : ℕ → ℕ → A → A) (zero_pixel : A) (width : ℕ) where
  length-written_column :
      (x n : ℕ) (d : List A) → length (written_column f zero_pixel width x n d) ≡ length d
  unfolding written_column
  length-written_column x zero d = refl
  length-written_column x (suc n) d =
      length-set (written_column f zero_pixel width x n d) (index width x n) _
      ∙ length-written_column x n d

  pub length-written_columns :
      (height n : ℕ) (d : List A)
      → length (written_columns f zero_pixel width height n d) ≡ length d
  unfolding written_columns
  length-written_columns height zero d = refl
  length-written_columns height (suc n) d =
      length-written_column n height (written_columns f zero_pixel width height n d)
      ∙ length-written_columns height n d

  -- In column `x` the rows below `n` are written, once each, and nothing else is.
  written_column-get_or :
      (x n u v : ℕ) (d : List A)
      → x < width
      → u < width
      → index width u v < length d
      → get_or (written_column f zero_pixel width x n d) (index width u v) zero_pixel ≡ (
          if (x == u) && ltb v n
          then f u v (get_or d (index width u v) zero_pixel)
          else get_or d (index width u v) zero_pixel)
  unfolding written_column
  written_column-get_or x zero u v d h k inside = ground arith
  written_column-get_or x (suc n) u v d h k inside =
      let e = written_column f zero_pixel width x n d in
      let old = get_or e (index width x n) zero_pixel in
      let before = written_column-get_or x n u v d h k inside in
      elim (Bool-cases ((x == u) && (v == n))) [
        | inl here ↦
            let same_x : x ≡ u = ground (arith, here) in
            let same_y : n ≡ v = ground (arith, here) in
            ground (
              arith,
              here,
              same_x,
              same_y,
              before,
              length-written_column x n d,
              get_or-set_self e (index width u v) (f x n old) zero_pixel,
            )
        | inr there ↦
            let apart : index width x n ≢ index width u v =
              λ i. absurd (ground (arith, there, index_inj width x n u v h k i)) in
            ground (
              arith,
              there,
              before,
              get_or-set_ne e (index width x n) (index width u v) (f x n old) zero_pixel apart,
            )
      ]

  written_columns-get_or :
      (height n u v : ℕ) (d : List A)
      → n ≤ width
      → u < width
      → v < height
      → index width u v < length d
      → get_or (written_columns f zero_pixel width height n d) (index width u v) zero_pixel ≡ (
          if ltb u n
          then f u v (get_or d (index width u v) zero_pixel)
          else get_or d (index width u v) zero_pixel)
  unfolding written_columns
  written_columns-get_or height zero u v d h k below inside = ground arith
  written_columns-get_or height (suc n) u v d h k below inside =
      let e = written_columns f zero_pixel width height n d in
      ground (
        arith,
        length-written_columns height n d,
        written_columns-get_or height n u v d (omega arith) k below inside,
        written_column-get_or n height u v e (omega arith) k,
      )

  -- On an array with its size, each cell is written once.
  pub written_columns-cell :
      (height u v : ℕ) (d : List A)
      → u < width
      → v < height
      → length d ≡ width * height
      → get_or (written_columns f zero_pixel width height width d) (index width u v) zero_pixel
        ≡ f u v (get_or d (index width u v) zero_pixel)
  written_columns-cell height u v d h k size = ground (
    arith,
    index-lt width height u v h k,
    written_columns-get_or height width u v d (omega arith) h k,
  )

  -- A loop whose code has a result at each place, on an array with its size, has one.
  module _ (code : ℕ → ℕ → A → Option A) (height : ℕ)
      (total : (i j : ℕ) (a : A) → i < width → j < height → code i j a ≡ some (f i j a)) where
    fill_column-some :
        (x n : ℕ) (d : List A)
        → x < width
        → n ≤ height
        → length d ≡ width * height
        → fill_column code width x n d ≡ some (written_column f zero_pixel width x n d)
    unfolding fill_column written_column
    fill_column-some x zero d h k size = refl
    fill_column-some x (suc n) d h k size =
        let e = written_column f zero_pixel width x n d in
        let i = index width x n in
        bind-some _ (fill_column-some x n d h (omega arith) size) (
          bind-some _
            (get_elem?-get_or e i zero_pixel (
              omega
                (arith, length-written_column x n d, index-lt width height x n h (omega arith))))
            (bind-some _ (total x n (get_or e i zero_pixel) h (omega arith)) refl))

    pub fill_columns-some :
        (n : ℕ) (d : List A)
        → n ≤ width
        → length d ≡ width * height
        → fill_columns code width height n d ≡ some (written_columns f zero_pixel width height n d)
    unfolding fill_columns written_columns
    fill_columns-some zero d h size = refl
    fill_columns-some (suc n) d h size = bind-some _ (fill_columns-some n d (omega arith) size) (
        fill_column-some n height (written_columns f zero_pixel width height n d) (omega arith)
          (omega arith) (length-written_columns height n d ∙ size))
