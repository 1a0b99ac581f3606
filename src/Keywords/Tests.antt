-- ===== src/Keywords/Tests.antt =====
-- The keywords of a small frame.
use fast.Prelude.{Bytes, List, Option, [], arith, codes, none, refl, some, ◌-◌, ◌^◌, ◌∷◌, ◌≡◌}
use fast.Prelude.Int.{pos}
use fast.Prelude.Format.{decimal}
use fast.Keywords.{
  Fitsio, Keyword, image_keyword_add, image_keyword_add_int, image_keyword_add_int64,
  image_keyword_add_type, image_keyword_get_string, image_keywords_as_hstore,
}
use fast.Keywords.Lookup.{get_string-add_type}

-- `ffc2s` for a value without quotes, and no numbers.
abbrev fitsio : Fitsio
fitsio = record {
  flen_keyword = 8;
  flen_value = 6;
  flen_comment = 10;
  ffc2s = λ v. v;
  strtol_end = λ v. 0;
  strtod_end = λ v. 0;
}

abbrev found : Option (List Keyword) → Bytes → Option Bytes
found none key = none
found (some kws) key = image_keyword_get_string fitsio kws key

add_int-found :
    found (image_keyword_add_int fitsio [] (codes "GAIN") (pos 12) none) (codes "GAIN")
    ≡ some (codes "12")
unfolding image_keyword_add_int decimal image_keyword_get_string
add_int-found = refl

-- A number from 2^63 on is printed with a sign.
add_int64-found :
    found
      (image_keyword_add_int64
        (record {
          flen_keyword = 8;
          flen_value = 70;
          flen_comment = 10;
          ffc2s = λ v. v;
          strtol_end = λ v. 0;
          strtod_end = λ v. 0;
        })
        []
        (codes "UUID")
        (2 ^ 64 - 2)
        none)
      (codes "UUID")
    ≡ some (codes "-2")
unfolding image_keyword_add_int64 decimal image_keyword_get_string
add_int64-found = refl

add-guess :
    found (image_keyword_add fitsio [] (codes "OBJ") (some (codes "m31")) none) (codes "OBJ")
    ≡ some (codes "m31")
unfolding image_keyword_add image_keyword_get_string
add-guess = refl

as_hstore-none : image_keywords_as_hstore fitsio (codes "(null)") [] ≡ codes "'(null)'::hstore"
unfolding image_keywords_as_hstore
as_hstore-none = refl

abbrev kept : List Keyword
kept =
    record {
      key = codes "OBJ";
      value = codes "m31";
      unquoted = codes "m31";
      comment = [];
      type_code = 67;
    }
    ∷ []

get_string-add_type_example :
    (after : List Keyword) × (image_keyword_add_type fitsio kept
        (codes "OBJ")
        (some (codes "ngc7331"))
        none
        67
      ≡ some after)
    × (image_keyword_get_string fitsio after (codes "OBJ") ≡ some (codes "ngc73"))
get_string-add_type_example =
    get_string-add_type fitsio kept (codes "OBJ") (codes "ngc7331") (codes "OBJ") none 67
      (omega arith)
