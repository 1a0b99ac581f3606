-- ===== src/Keywords.antt =====
-- image_keywords.c: the FITS keywords of an image. A string is its bytes without the NUL.
--
-- `Fitsio` is what the library gives: the sizes of fitsio.h, `ffc2s`, which removes the quotes of a
-- value, and how many bytes `strtol` and `strtod` read of a string, 0 where they find no number.
pub mod Lookup
mod Tests
use fast.Prelude.{
  Bytes, List, Option, [], codes, false, get_elem?, if◌then◌else◌, length, ltb, none, not, some,
  str_eq, suc, take, true, zero, ℕ, ◌&&◌, ◌++◌, ◌-◌, ◌==◌, ◌^◌, ◌||◌, ◌∷◌,
}
use fast.Prelude.Format.{decimal}
use fast.Prelude.Int.{negsuc, pos, ℤ}
use fast.Time.{TimeStr}
use fast.Time.Text.{time_str_get_date_time}
use fast.Command.{dquote, scan}
use fast.Command.Render.{add_to_string}

pub record Fitsio : Type 0 where
  pub flen_keyword : ℕ
  pub flen_value : ℕ
  pub flen_comment : ℕ
  pub ffc2s : Bytes → Bytes
  pub strtol_end : Bytes → ℕ
  pub strtod_end : Bytes → ℕ

-- `image_keyword_str`: each field up to its NUL or to the end of its array.
pub record Keyword : Type 0 where
  pub key : Bytes
  pub value : Bytes
  pub unquoted : Bytes
  pub comment : Bytes
  pub type_code : ℕ

abbrev pub type_int : ℕ
type_int = 73

abbrev pub type_float : ℕ
type_float = 70

abbrev pub type_string : ℕ
type_string = 67

abbrev pub decimal_ℤ : ℤ → Bytes
decimal_ℤ (pos n) = decimal 20 n
decimal_ℤ (negsuc n) = codes "-" ++ decimal 20 (suc n)

-- the 64 bits of an unsigned number, read as a signed one
abbrev pub signed_64 : ℕ → ℤ
signed_64 n = if ltb n (2 ^ 63) then pos n else negsuc (2 ^ 64 - suc n)

-- `" => "`
abbrev pub codes_arrow : Bytes
codes_arrow = dquote ∷ codes " => " ++ (dquote ∷ [])

module _ (io : Fitsio) where
  -- What `strcmp` and `%s` read at `kw->key`: `strncpy` leaves a long key without a NUL, and its
  -- array lies in front of that of the value.
  abbrev pub key_string : Keyword → Bytes
  key_string kw = if ltb (length kw.key) io.flen_keyword then kw.key else kw.key ++ kw.value

  -- Where the keyword is; none for NULL.
  pub image_keyword_find : List Keyword → Bytes → Option ℕ
  image_keyword_find [] key = none
  image_keyword_find (kw ∷ kws) key =
      let rest = image_keyword_find kws key in
      if str_eq (key_string kw) key
      then some 0
      else elim rest [ none ↦ none | some i ↦ some (suc i) ]

  -- "Try to guess type"
  pub guess_type : Bytes → ℕ
  guess_type value =
      if not ((io.strtol_end value == 0) || not (io.strtol_end value == length value))
      then type_int
      else if not ((io.strtod_end value == 0) || not (io.strtod_end value == length value))
      then type_float
      else type_string

  -- The bytes that `strncpy` writes to an array of `n`; NULL makes it empty.
  abbrev pub copied : ℕ → Option Bytes → Bytes
  copied n none = []
  copied n (some s) = take n s

  -- The fields of a keyword with that key: its value ends in front of the last byte of its array.
  pub filled : Bytes → Option Bytes → Option Bytes → ℕ → Keyword
  unfolding guess_type
  filled key value comment type_code =
      let v = copied (io.flen_value - 1) value in
      record {
        key = key;
        value = v;
        unquoted = io.ffc2s v;
        comment = copied io.flen_comment comment;
        type_code =
            (if type_code == 0
              then guess_type (elim value [ none ↦ [] | some s ↦ s ])
              else type_code);
      }

  -- The keyword at `i` is written over, its key kept.
  pub overwrite : List Keyword → ℕ → Option Bytes → Option Bytes → ℕ → List Keyword
  unfolding filled
  overwrite [] i value comment type_code = []
  overwrite (kw ∷ kws) zero value comment type_code = filled kw.key value comment type_code ∷ kws
  overwrite (kw ∷ kws) (suc i) value comment type_code =
      kw ∷ overwrite kws i value comment type_code

  -- The keywords after the call. A type of 0 is guessed, for which the value must be given: `strtol`
  -- of NULL has no result.
  unfoldable pub image_keyword_add_type :
      List Keyword → Bytes → Option Bytes → Option Bytes → ℕ → Option (List Keyword)
  unfolding image_keyword_find filled overwrite
  image_keyword_add_type kws key value comment type_code =
      if (type_code == 0) && elim value [ none ↦ true | some s ↦ false ]
      then none
      else some (elim (image_keyword_find kws key) [
        | none ↦ kws ++ (filled (take io.flen_keyword key) value comment type_code ∷ [])
        | some i ↦ overwrite kws i value comment type_code
      ])

  pub image_keyword_get_string : List Keyword → Bytes → Option Bytes
  unfolding image_keyword_find
  image_keyword_get_string kws key = elim (image_keyword_find kws key) [
    | none ↦ none
    | some i ↦ elim (get_elem? kws i) [ none ↦ none | some kw ↦ some kw.unquoted ]
  ]

  unfoldable pub image_keyword_add :
      List Keyword → Bytes → Option Bytes → Option Bytes → Option (List Keyword)
  unfolding image_keyword_add_type
  image_keyword_add kws key value comment = image_keyword_add_type kws key value comment 0

  -- `%d`
  unfoldable pub image_keyword_add_int :
      List Keyword → Bytes → ℤ → Option Bytes → Option (List Keyword)
  unfolding image_keyword_add_type
  image_keyword_add_int kws key value comment =
      image_keyword_add_type kws key (some (decimal_ℤ value)) comment type_int

  -- `%lld` of a `u_int64_t`
  pub image_keyword_add_int64 : List Keyword → Bytes → ℕ → Option Bytes → Option (List Keyword)
  unfolding image_keyword_add_type
  image_keyword_add_int64 kws key value comment =
      image_keyword_add_type kws key (some (decimal_ℤ (signed_64 value))) comment type_int

  -- `print` is `%.12g`.
  unfoldable pub image_keyword_add_double :
      {Double : Type 0}
      → (Double → Bytes)
      → List Keyword
      → Bytes
      → Double
      → Option Bytes
      → Option (List Keyword)
  unfolding image_keyword_add_type
  image_keyword_add_double print kws key value comment =
      image_keyword_add_type kws key (some (print value)) comment type_float

  -- `scan` is what `sscanf` reads with `%lf`, if it reads a number.
  unfoldable pub image_keyword_get_double :
      {Double : Type 0} → (Bytes → Option Double) → Double → List Keyword → Bytes → Double
  unfolding image_keyword_get_string
  image_keyword_get_double scan zero_double kws key = elim (image_keyword_get_string kws key) [
    | none ↦ zero_double
    | some text ↦ elim (scan text) [ none ↦ zero_double | some value ↦ value ]
  ]

  -- the text of a time
  pub image_keyword_add_time : List Keyword → Bytes → TimeStr → Option Bytes → Option (List Keyword)
  unfolding image_keyword_add_type
  image_keyword_add_time kws key value comment =
      image_keyword_add_type kws key (some (time_str_get_date_time value)) comment type_string

  -- The loop of `image_keywords_as_hstore`
  pub hstore_loop : Option Bytes → List Keyword → Option Bytes
  unfolding add_to_string
  hstore_loop s [] = s
  hstore_loop s (kw ∷ kws) =
      let s1 : Option Bytes = elim s [
        | none ↦ none
        | some a ↦ add_to_string (some a) (codes ", ")
      ] in
      hstore_loop
        (add_to_string s1
          (dquote ∷ key_string kw ++ (codes_arrow ++ (kw.unquoted ++ (dquote ∷ [])))))
        kws

  -- For an image without coordinates. `null` is what the C library prints for `%s` at NULL.
  pub image_keywords_as_hstore : Bytes → List Keyword → Bytes
  unfolding hstore_loop
  image_keywords_as_hstore null kws =
      codes "'" ++ (elim (hstore_loop none kws) [ none ↦ null | some s ↦ s ] ++ codes "'::hstore")
