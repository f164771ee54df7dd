-- ===== src/Odm/Keys.antt =====
-- HashedKey of odm/db_model.go.
use go_api_boot.Base.{
  ◌*◌, ◌≤◌, Str, codes, List, [], ◌∷◌, Result, ok, ◌≡◌, refl, ◌∙◌, arith, length, take, length-take,
}
use go_api_boot.Strings.{join}
use go_api_boot.Odm.{hashed_key, encode_to_string}

length-encode_to_string : (s : Str) → length (encode_to_string s) ≡ 2 * length s
unfolding encode_to_string
length-encode_to_string [] = refl
length-encode_to_string (c ∷ s) = omega (arith, length-encode_to_string s)

-- The key of one or more fields, if their hash is returned and has at least six bytes, is returned
-- and 12 characters long.
pub hashed_key-length :
    (blake2s : Str → Result Str Str) (f : Str) (fields : List Str) {sum : Str}
    → blake2s (join (f ∷ fields) (codes ">")) ≡ ok sum
    → 6 ≤ length sum
    → (key : Str) × (hashed_key blake2s (f ∷ fields) ≡ ok key) × (length key ≡ 12)
unfolding hashed_key
hashed_key-length blake2s f fields {sum} e h = (
  take 12 (encode_to_string sum),
  rw (hashed_key, e) refl,
  length-take 12 (encode_to_string sum) ∙ omega (arith, length-encode_to_string sum),
)
