-- ===== src/Headers/Choices.antt =====
-- What the options of server/headers.go, in the order of a call, make of the headers that are copied.
use go_api_boot.Base.{
  Str, List, [], ◌∷◌, ◌++◌, map, Bool, false, ◌||◌, Bool-cases, ◌==◌, str_eq, if◌then◌else◌, ◌≡◌,
  refl, ◌∙◌, ap, arith, inl, inr,
}
use go_api_boot.Base.Dict.{lookup}
use go_api_boot.Strings.{to_lower, equal_fold, contains, replace}
use go_api_boot.Http.{Header}
use go_api_boot.Headers.{
  Replacer, CopyOptions, CopyOption, no_options, skip_keys, add_replacer, vals_replacer,
  replace_in_vals, keys_replacer, replace_in_keys, key_case, key_trim, apply_options,
  apply_replacers, replaced, is_skipped, copy_header,
}
use go_api_boot.Headers.Order.{last_of, rewritten, lookup-copy_header}
use go_api_boot.Headers.Skip.{names, lookup-skip_all}

-- The options that the package makes.
pub data Choice : Type 0 where
  skipping : List Str → Choice
  in_vals : Str → Str → Str → Choice
  in_keys : Str → Str → Choice
  casing : (Str → Str) → Choice
  trimming : (Str → Str → Str) → Str → Choice

unfoldable pub option_of : Choice → CopyOption
unfolding skip_keys replace_in_vals replace_in_keys key_case key_trim
option_of (skipping ks) = skip_keys ks
option_of (in_vals key old new) = replace_in_vals key old new
option_of (in_keys old new) = replace_in_keys old new
option_of (casing fn) = key_case fn
option_of (trimming fn cut) = key_trim fn cut

-- Some option names the key, up to case.
unfoldable pub named : List Choice → Str → Bool
unfolding names
named [] k = false
named (skipping ks ∷ cs) k = names ks k || named cs k
named (_ ∷ cs) k = named cs k

-- What one option makes of an entry: the values change under this key, up to case; the key changes.
unfoldable pub renamed : Choice → Str × List Str → Str × List Str
renamed (skipping ks) kv = kv
renamed (in_vals key old new) kv =
    (kv.0, if to_lower kv.0 == to_lower key then map (λ v. replace v old new) kv.1 else kv.1)
renamed (in_keys old new) kv = (if contains kv.0 old then replace kv.0 old new else kv.0, kv.1)
renamed (casing fn) kv = (fn kv.0, kv.1)
renamed (trimming fn cut) kv = (fn kv.0 cut, kv.1)

-- One option after the other.
unfoldable pub all_renamed : List Choice → Str × List Str → Str × List Str
unfolding renamed
all_renamed [] kv = kv
all_renamed (c ∷ cs) kv = all_renamed cs (renamed c kv)

-- The entries that no option names, as the options rename them.
unfoldable pub kept : List Choice → Header → Header
unfolding named all_renamed
kept cs [] = []
kept cs (kv ∷ src) =
    let rest = kept cs src in if named cs kv.0 then rest else all_renamed cs kv ∷ rest

apply_replacers-append :
    (rs : List Replacer) (r : Replacer) (kv : Str × List Str)
    → apply_replacers (rs ++ r ∷ []) kv
      ≡ (let kv' = apply_replacers rs kv in replaced kv' (r kv'.0 kv'.1))
unfolding apply_replacers
apply_replacers-append [] r kv = refl
apply_replacers-append (q ∷ rs) r kv = apply_replacers-append rs r (replaced kv (q kv.0 kv.1))

vals_replacer-renamed :
    (key old new : Str) (kv : Str × List Str)
    → replaced kv (vals_replacer key old new kv.0 kv.1) ≡ renamed (in_vals key old new) kv
unfolding vals_replacer renamed equal_fold
vals_replacer-renamed key old new kv = elim (Bool-cases (to_lower kv.0 == to_lower key)) [
  | inl e ↦ rw e refl
  | inr e ↦ rw e refl
]

keys_replacer-renamed :
    (old new : Str) (kv : Str × List Str)
    → replaced kv (keys_replacer old new kv.0 kv.1) ≡ renamed (in_keys old new) kv
unfolding keys_replacer renamed
keys_replacer-renamed old new kv = elim (Bool-cases (contains kv.0 old)) [
  | inl e ↦ rw e refl
  | inr e ↦ rw e refl
]

option_of-renamed :
    (c : Choice) (o : CopyOptions) (kv : Str × List Str)
    → apply_replacers (option_of c o).replacers kv ≡ renamed c (apply_replacers o.replacers kv)
unfolding option_of renamed skip_keys replace_in_vals replace_in_keys key_case key_trim add_replacer
option_of-renamed (skipping ks) o kv = refl
option_of-renamed (in_vals key old new) o kv =
    apply_replacers-append o.replacers (vals_replacer key old new) kv
    ∙ vals_replacer-renamed key old new (apply_replacers o.replacers kv)
option_of-renamed (in_keys old new) o kv =
    apply_replacers-append o.replacers (keys_replacer old new) kv
    ∙ keys_replacer-renamed old new (apply_replacers o.replacers kv)
option_of-renamed (casing fn) o kv = apply_replacers-append o.replacers _ kv
option_of-renamed (trimming fn cut) o kv = apply_replacers-append o.replacers _ kv

apply_options-renamed :
    (cs : List Choice) (o : CopyOptions) (kv : Str × List Str)
    → apply_replacers (apply_options (map option_of cs) o).replacers kv
      ≡ all_renamed cs (apply_replacers o.replacers kv)
unfolding apply_options all_renamed
apply_options-renamed [] o kv = refl
apply_options-renamed (c ∷ cs) o kv =
    apply_options-renamed cs (option_of c o) kv ∙ ap (all_renamed cs) (option_of-renamed c o kv)

is_skipped-skip_keys :
    (ks : List Str) (o : CopyOptions) (k : Str)
    → is_skipped (skip_keys ks o) k ≡ (names ks k || is_skipped o k)
unfolding is_skipped skip_keys
is_skipped-skip_keys ks o k = rw (lookup-skip_all ks o.skip_keys k) (ground arith)

apply_options-named :
    (cs : List Choice) (o : CopyOptions) (k : Str)
    → is_skipped (apply_options (map option_of cs) o) k ≡ (named cs k || is_skipped o k)
unfolding apply_options named option_of is_skipped
apply_options-named [] o k = refl
apply_options-named (skipping ks ∷ cs) o k =
    apply_options-named cs (skip_keys ks o) k ∙ rw (is_skipped-skip_keys ks o k) (ground arith)
apply_options-named (in_vals key old new ∷ cs) o k =
    apply_options-named cs (replace_in_vals key old new o) k
apply_options-named (in_keys old new ∷ cs) o k =
    apply_options-named cs (replace_in_keys old new o) k
apply_options-named (casing fn ∷ cs) o k = apply_options-named cs (key_case fn o) k
apply_options-named (trimming fn cut ∷ cs) o k = apply_options-named cs (key_trim fn cut o) k

or_false : (b : Bool) → (b || false) ≡ b
or_false b = ground arith

is_skipped-named :
    (cs : List Choice) (k : Str)
    → is_skipped (apply_options (map option_of cs) no_options) k ≡ named cs k
is_skipped-named cs k =
    apply_options-named cs no_options k ∙ unfold is_skipped lookup in or_false (named cs k)

rewritten-kept :
    (cs : List Choice) (src : Header)
    → rewritten (apply_options (map option_of cs) no_options) src ≡ kept cs src
unfolding rewritten kept apply_replacers
rewritten-kept cs [] = refl
rewritten-kept cs (kv ∷ src) =
    rw (is_skipped-named cs kv.0, apply_options-renamed cs no_options kv, rewritten-kept cs src)
      refl

-- A key of the copy holds the values of the last source entry, in the order of iteration, that no
-- skipKeys of the call names, up to case, and that the replacements of keys and values of the call,
-- one after the other in its order, put under this key; if there is none, what it held before.
pub lookup-copy_header_choices :
    (dst src : Header) (cs : List Choice) (j : Str)
    → lookup j (copy_header dst src (map option_of cs)) ≡ last_of j (kept cs src) (lookup j dst)
lookup-copy_header_choices dst src cs j =
    lookup-copy_header dst src (map option_of cs) j
    ∙ ap (λ l. last_of j l (lookup j dst)) (rewritten-kept cs src)
