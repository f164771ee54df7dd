-- ===== src/Headers.antt =====
-- server/headers.go: copying headers with options. A Go map is an association list whose order is
-- the order of iteration, which Go chooses anew for each loop.
pub mod Order
pub mod Skip
pub mod Choices
use go_api_boot.Base.{
  Str, List, [], ◌∷◌, ◌++◌, map, Bool, true, false, Option, none, some, ◌==◌, str_eq, str_beq,
  if◌then◌else◌,
}
use go_api_boot.Base.Dict
use go_api_boot.Base.Dict.{Dict, lookup, insert}
use go_api_boot.Strings.{to_lower, equal_fold, contains, replace}
use go_api_boot.Http.{Header}

-- The new key and values, if the replacer applies.
abbrev pub Replacer : Type 0
Replacer = Str → List Str → Option (Str × List Str)

pub record CopyOptions : Type 0 where
  pub skip_keys : Dict Str Bool
  pub replacers : List Replacer

abbrev pub CopyOption : Type 0
CopyOption = CopyOptions → CopyOptions

-- options := new(copyOptions)
abbrev pub no_options : CopyOptions
no_options = record { skip_keys = []; replacers = [] }

unfoldable pub skip_all : List Str → Dict Str Bool → Dict Str Bool
unfolding to_lower insert str_beq
skip_all [] m = m
skip_all (k ∷ ks) m = skip_all ks (insert (to_lower k) true m)

-- skipKeys(keys...)
unfoldable pub skip_keys : List Str → CopyOption
unfolding skip_all
skip_keys ks opts = record opts { skip_keys = skip_all ks opts.skip_keys }

unfoldable pub add_replacer : Replacer → CopyOption
add_replacer r opts = record opts { replacers = opts.replacers ++ r ∷ [] }

unfoldable pub vals_replacer : Str → Str → Str → Replacer
unfolding equal_fold replace
vals_replacer key old new k vv =
    if equal_fold k key then some (k, map (λ v. replace v old new) vv) else none

-- replaceInVals(key, old, new)
unfoldable pub replace_in_vals : Str → Str → Str → CopyOption
unfolding add_replacer vals_replacer
replace_in_vals key old new = add_replacer (vals_replacer key old new)

unfoldable pub keys_replacer : Str → Str → Replacer
unfolding contains replace
keys_replacer old new k vv = if contains k old then some (replace k old new, vv) else none

-- replaceInKeys(old, new)
unfoldable pub replace_in_keys : Str → Str → CopyOption
unfolding add_replacer keys_replacer
replace_in_keys old new = add_replacer (keys_replacer old new)

-- keyCase(fn)
unfoldable pub key_case : (Str → Str) → CopyOption
unfolding add_replacer
key_case fn = add_replacer (λ k vv. some (fn k, vv))

-- keyTrim(fn, cut)
unfoldable pub key_trim : (Str → Str → Str) → Str → CopyOption
unfolding add_replacer
key_trim fn cut = add_replacer (λ k vv. some (fn k cut, vv))

unfoldable pub apply_options : List CopyOption → CopyOptions → CopyOptions
apply_options [] options = options
apply_options (opt ∷ opts) options = apply_options opts (opt options)

abbrev pub replaced : Str × List Str → Option (Str × List Str) → Str × List Str
replaced kv none = kv
replaced kv (some kv') = kv'

-- The loop over the replacers, each of which sees what the ones before it made.
unfoldable pub apply_replacers : List Replacer → Str × List Str → Str × List Str
apply_replacers [] kv = kv
apply_replacers (r ∷ rs) (k, vv) = apply_replacers rs (replaced (k, vv) (r k vv))

abbrev pub flag : Option Bool → Bool
flag none = false
flag (some b) = b

-- options.skipKeys[strings.ToLower(k)]
unfoldable pub is_skipped : CopyOptions → Str → Bool
unfolding to_lower lookup str_beq
is_skipped options k = flag (lookup (to_lower k) options.skip_keys)

-- The loop over the source, in an order of iteration.
unfoldable pub copy_loop : CopyOptions → Header → Header → Header
unfolding apply_replacers is_skipped insert str_beq
copy_loop options dst [] = dst
copy_loop options dst ((k, vv) ∷ src) =
    let (k', vv') = apply_replacers options.replacers (k, vv) in
    copy_loop options (if is_skipped options k then dst else insert k' vv' dst) src

-- copyHeader(dst, src, opts...)
unfoldable pub copy_header : Header → Header → List CopyOption → Header
unfolding apply_options copy_loop
copy_header dst src opts = copy_loop (apply_options opts no_options) dst src

-- headerKeys(h)
unfoldable pub header_keys : Header → List Str
unfolding Dict.keys
header_keys h = Dict.keys h
