-- ===== src/Tests/HeadersRuns.antt =====
-- server/headers.go at small headers.
use go_api_boot.Strings.{to_lower, replace}
use go_api_boot.Base.{some, map, str_beq, Str, codes, List, [], ◌∷◌, ◌≡◌, refl, str_eq}
use go_api_boot.Base.Dict.{lookup}
use mathlib.Core.List.{Permᴰ}
use go_api_boot.Http.{Header, canonical_header_key}
use go_api_boot.Headers.{
  CopyOption, no_options, apply_options, copy_header, skip_keys, replace_in_vals, key_case,
  is_skipped, apply_replacers,
}
use go_api_boot.Headers.Order.{rewritten, last_of, DistinctKeys, copy_header-perm}
use go_api_boot.Headers.Skip.{names}
use go_api_boot.Headers.Choices.{
  Choice, skipping, in_vals, casing, option_of, kept, named, all_renamed, renamed,
  lookup-copy_header_choices,
}

abbrev entry : Str → Str → Str × List Str
entry k v = (k, v ∷ [])

abbrev source : Header
source =
    entry (codes "Trailer") (codes "X")
    ∷ entry (codes "content-type") (codes "application/grpc+proto")
    ∷ entry (codes "x-a") (codes "1")
    ∷ []

abbrev moved : Header
moved =
    entry (codes "content-type") (codes "application/grpc+proto")
    ∷ entry (codes "Trailer") (codes "X")
    ∷ entry (codes "x-a") (codes "1")
    ∷ []

abbrev options : List CopyOption
options =
    skip_keys (codes "trailer" ∷ [])
    ∷ replace_in_vals (codes "Content-Type") (codes "application/grpc")
        (codes "application/grpc-web")
    ∷ key_case canonical_header_key
    ∷ []

copied :
    copy_header [] source options
    ≡ entry (codes "Content-Type") (codes "application/grpc-web+proto")
      ∷ entry (codes "X-A") (codes "1")
      ∷ []
unfolding copy_header skip_keys replace_in_vals key_case canonical_header_key
copied = refl

abbrev choices : List Choice
choices =
    skipping (codes "trailer" ∷ [])
    ∷ in_vals (codes "Content-Type") (codes "application/grpc") (codes "application/grpc-web")
    ∷ casing canonical_header_key
    ∷ []

lookup-copy_header_choices_example :
    lookup (codes "Content-Type") (copy_header [] source (map option_of choices))
    ≡ some (codes "application/grpc-web+proto" ∷ [])
unfolding last_of kept named names all_renamed renamed canonical_header_key lookup str_beq to_lower
    replace
lookup-copy_header_choices_example =
    lookup-copy_header_choices [] source choices (codes "Content-Type")

source-distinct : DistinctKeys (rewritten (apply_options options no_options) source)
unfolding rewritten apply_options is_skipped apply_replacers skip_keys replace_in_vals key_case
    canonical_header_key
source-distinct = ((cc, tt), (tt, tt))

copy_header-perm_example :
    lookup (codes "X-A") (copy_header [] source options)
    ≡ lookup (codes "X-A") (copy_header [] moved options)
copy_header-perm_example =
    copy_header-perm [] {src = source} {src' = moved} options (codes "X-A") (Permᴰ.swap refl refl)
      source-distinct
