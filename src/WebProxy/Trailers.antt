-- ===== src/WebProxy/Trailers.antt =====
-- extractTrailingHeaders and the trailer frame of server/web_proxy_response.go.
pub mod Frame
use go_api_boot.Base.{
  ℕ, ◌/◌, ◌%◌, ◌^◌, Str, codes, List, [], ◌∷◌, ◌++◌, map, Bool, true, false, ◌||◌, ltb,
  if◌then◌else◌, ◌==◌, nat_eq, length,
}
use go_api_boot.Strings.{to_lower}
use go_api_boot.Http.{Header, is_field_name}
use go_api_boot.Headers.{copy_header, header_keys, skip_keys, replace_in_keys, key_case}

-- http2.TrailerPrefix
abbrev pub trailer_prefix : Str
trailer_prefix = codes "Trailer:"

unfoldable pub extract_trailing_headers : Header → Header → Header
unfolding copy_header header_keys skip_keys replace_in_keys key_case to_lower
extract_trailing_headers src flushed = copy_header [] src (
    skip_keys (codes "trailer" ∷ header_keys flushed)
    ∷ replace_in_keys trailer_prefix []
    ∷ key_case to_lower
    ∷ [])

-- The order of strings by code units.
unfoldable pub str_lt : Str → Str → Bool
str_lt s [] = false
str_lt [] (d ∷ t) = true
str_lt (c ∷ s) (d ∷ t) = if c == d then str_lt s t else ltb c d

unfoldable pub sort_insert : Str × List Str → Header → Header
unfolding str_lt
sort_insert kv [] = kv ∷ []
sort_insert kv (x ∷ h) = if str_lt x.0 kv.0 then x ∷ sort_insert kv h else kv ∷ x ∷ h

unfoldable pub sort_keys : Header → Header
unfolding sort_insert
sort_keys [] = []
sort_keys (kv ∷ h) = sort_insert kv (sort_keys h)

-- textproto.TrimString's blanks
blank : ℕ → Bool
blank c = c == 32 || c == 9 || c == 10 || c == 13

unfoldable pub trim_blank_left : Str → Str
unfolding blank
trim_blank_left [] = []
trim_blank_left (c ∷ s) = if blank c then trim_blank_left s else c ∷ s

push_blank : ℕ → Str → Str
unfolding blank
push_blank c [] = if blank c then [] else c ∷ []
push_blank c (d ∷ s) = c ∷ d ∷ s

unfoldable pub trim_blank_right : Str → Str
unfolding push_blank
trim_blank_right [] = []
trim_blank_right (c ∷ s) = push_blank c (trim_blank_right s)

-- A value on one line: line breaks become blanks, and the ends are trimmed.
unfoldable pub one_line : Str → Str
unfolding trim_blank_left trim_blank_right
one_line v = trim_blank_left (trim_blank_right (map (λ c. if c == 10 || c == 13 then 32 else c) v))

unfoldable pub write_values : Str → List Str → Str
unfolding one_line
write_values k [] = []
write_values k (v ∷ vv) = k ++ (codes ": " ++ (one_line v ++ (13 ∷ 10 ∷ write_values k vv)))

unfoldable pub write_sorted : Header → Str
unfolding write_values is_field_name
write_sorted [] = []
write_sorted ((k, vv) ∷ h) =
    let rest = write_sorted h in if is_field_name k then write_values k vv ++ rest else rest

-- header.Write(buffer)
unfoldable pub write_headers : Header → Str
unfolding write_sorted sort_keys
write_headers h = write_sorted (sort_keys h)

-- binary.BigEndian.PutUint32(b, uint32(n))
unfoldable pub big_endian : ℕ → Str
big_endian n =
    let w = n % 2 ^ 32 in (w / 2 ^ 24) ∷ (w / 2 ^ 16 % 256) ∷ (w / 2 ^ 8 % 256) ∷ (w % 256) ∷ []

-- The header of the trailer frame, with the most significant bit of the flags set.
unfoldable pub trailer_header : Str → Str
unfolding big_endian
trailer_header payload = (2 ^ 7) ∷ big_endian (length payload)
