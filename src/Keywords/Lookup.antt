-- ===== src/Keywords/Lookup.antt =====
-- What is found under a key, before and after one is added.
use fast.Prelude.{
  Bool-cases, Bytes, List, Option, [], ap, arith, get_elem?, if◌then◌else◌, inl, inr, length,
  length-append, ltb, none, refl, some, str_eq, str_eq_refl, str_eq→eq, suc, take, take_of_le, true,
  zero, ℕ, ◌++◌, ◌-◌, ◌<◌, ◌∷◌, ◌≡◌,
}
use fast.Keywords.{
  Fitsio, Keyword, filled, image_keyword_add_type, image_keyword_find, image_keyword_get_string,
  key_string, overwrite,
}

module _ (io : Fitsio) where
  -- the first keyword of that key
  lookup : List Keyword → Bytes → Option Keyword
  lookup [] key = none
  lookup (kw ∷ kws) key =
      let rest = lookup kws key in if str_eq (key_string io kw) key then some kw else rest

  found_at : List Keyword → Option ℕ → Option Keyword
  found_at kws none = none
  found_at kws (some i) = get_elem? kws i

  unquoted_of : Option Keyword → Option Bytes
  unquoted_of none = none
  unquoted_of (some kw) = some kw.unquoted

  found_at-find :
      (kws : List Keyword) (key : Bytes)
      → found_at kws (image_keyword_find io kws key) ≡ lookup kws key
  unfolding found_at lookup image_keyword_find
  found_at-find [] key = refl
  found_at-find (kw ∷ kws) key = ground (arith, found_at-find kws key)

  get_string-lookup :
      (kws : List Keyword) (key : Bytes)
      → image_keyword_get_string io kws key ≡ unquoted_of (lookup kws key)
  unfolding image_keyword_get_string unquoted_of found_at
  get_string-lookup kws key = ground (arith, found_at-find kws key)

  lookup-append :
      (kws : List Keyword) (kw : Keyword) (key : Bytes)
      → lookup (kws ++ (kw ∷ [])) key ≡ elim (lookup kws key) [
        | none ↦ if str_eq (key_string io kw) key then some kw else none
        | some found ↦ some found
      ]
  unfolding lookup
  lookup-append [] kw key = refl
  lookup-append (k ∷ kws) kw key = ground (arith, lookup-append kws kw key)

  lookup-find-none :
      (kws : List Keyword) (key : Bytes)
      → image_keyword_find io kws key ≡ none
      → lookup kws key ≡ none
  unfolding found_at
  lookup-find-none kws key h = ground (arith, found_at-find kws key, h)

  key-short :
      (kw : Keyword) (key : Bytes)
      → length key < io.flen_keyword
      → str_eq (key_string io kw) key ≡ true
      → kw.key ≡ key
  key-short kw key short h = elim (Bool-cases (ltb (length kw.key) io.flen_keyword)) [
    | inl k ↦ ground (arith, k, str_eq→eq (key_string io kw) key h)
    | inr k ↦ absurd (
        ground (arith, k, short, str_eq→eq (key_string io kw) key h, length-append kw.key kw.value))
  ]

  key_string-filled :
      (key : Bytes) (value comment : Option Bytes) (code : ℕ)
      → length key < io.flen_keyword
      → key_string io (filled io key value comment code) ≡ key
  unfolding filled
  key_string-filled key value comment code short = ground arith

  lookup-overwrite :
      (kws : List Keyword) (i : ℕ) (key other : Bytes) (value comment : Option Bytes) (code : ℕ)
      → length key < io.flen_keyword
      → image_keyword_find io kws key ≡ some i
      → lookup (overwrite io kws i value comment code) other
        ≡ (if str_eq key other then some (filled io key value comment code) else lookup kws other)
  unfolding image_keyword_find overwrite lookup
  lookup-overwrite [] i key other value comment code short h = ground (arith, h)
  lookup-overwrite (kw ∷ kws) zero key other value comment code short h =
      elim (Bool-cases (str_eq (key_string io kw) key)) [
        | inl k ↦
            let same : kw.key ≡ key = key-short kw key short k in
            ground (
              arith,
              ap (λ x. filled io x value comment code) same,
              key_string-filled key value comment code short,
              str_eq→eq (key_string io kw) key k,
            )
        | inr k ↦ absurd (ground (arith, k, h))
      ]
  lookup-overwrite (kw ∷ kws) (suc i) key other value comment code short h =
      elim (Bool-cases (str_eq (key_string io kw) key)) [
        | inl k ↦ absurd (ground (arith, k, h))
        | inr k ↦ ground (
          arith,
          lookup-overwrite kws i key other value comment code short (ground (arith, k, h)),
          str_eq→eq (key_string io kw) other,
          str_eq→eq key other,
          str_eq_refl key,
        )
      ]

  -- the keywords after one is added, given where its key was found
  added : List Keyword → Bytes → Option Bytes → Option Bytes → ℕ → Option ℕ → List Keyword
  added kws key value comment code none =
      kws ++ (filled io (take io.flen_keyword key) value comment code ∷ [])
  added kws key value comment code (some i) = overwrite io kws i value comment code

  lookup-added :
      (kws : List Keyword) (key other : Bytes) (value comment : Option Bytes) (code : ℕ)
      (at : Option ℕ)
      → length key < io.flen_keyword
      → image_keyword_find io kws key ≡ at
      → lookup (added kws key value comment code at) other
        ≡ (if str_eq key other then some (filled io key value comment code) else lookup kws other)
  unfolding added
  lookup-added kws key other value comment code none short h =
      let whole : take io.flen_keyword key ≡ key = take_of_le io.flen_keyword key (omega arith) in
      ground (
        arith,
        ap (λ x. filled io x value comment code) whole,
        key_string-filled key value comment code short,
        lookup-append kws (filled io key value comment code) other,
        lookup-find-none kws key h,
        str_eq→eq key other,
      )
  lookup-added kws key other value comment code (some i) short h =
      lookup-overwrite kws i key other value comment code short h

  add_type-added :
      (kws : List Keyword) (key value : Bytes) (comment : Option Bytes) (code : ℕ)
      → image_keyword_add_type io kws key (some value) comment code
        ≡ some (added kws key (some value) comment code (image_keyword_find io kws key))
  unfolding image_keyword_add_type added
  add_type-added kws key value comment code = ground arith

  unquoted-filled :
      (key value : Bytes) (comment : Option Bytes) (code : ℕ)
      → (filled io key (some value) comment code).unquoted
        ≡ io.ffc2s (take (io.flen_value - 1) value)
  unfolding filled
  unquoted-filled key value comment code = refl

  -- Under a key that fits its array, what is added is found, unquoted and cut to the array of a
  -- value; what is found under any other key stays the same.
  pub get_string-add_type :
      (kws : List Keyword) (key value other : Bytes) (comment : Option Bytes) (code : ℕ)
      → length key < io.flen_keyword
      → (after : List Keyword) × (image_keyword_add_type io kws key (some value) comment code
          ≡ some after)
        × (image_keyword_get_string io after other ≡ (
            if str_eq key other
            then some (io.ffc2s (take (io.flen_value - 1) value))
            else image_keyword_get_string io kws other))
  unfolding unquoted_of
  get_string-add_type kws key value other comment code short =
      let after = added kws key (some value) comment code (image_keyword_find io kws key) in
      (
        after,
        add_type-added kws key value comment code,
        ground (
          arith,
          get_string-lookup after other,
          get_string-lookup kws other,
          lookup-added kws key other (some value) comment code (image_keyword_find io kws key) short
              refl,
          unquoted-filled key value comment code,
        ),
      )

  pub add_type-some :
      (kws : List Keyword) (key value : Bytes) (comment : Option Bytes) (code : ℕ)
      → (after : List Keyword) × (image_keyword_add_type io kws key (some value) comment code
          ≡ some after)
  add_type-some kws key value comment code = (
    added kws key (some value) comment code (image_keyword_find io kws key),
    add_type-added kws key value comment code,
  )
