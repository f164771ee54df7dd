-- ===== src/Headers/Skip.antt =====
-- What `skip_keys` skips.
use go_api_boot.Base.{
  Str, List, [], ◌∷◌, Bool, true, false, Option, some, ◌==◌, ==_iff, str_eq, if◌then◌else◌, ◌||◌,
  ◌≡◌, refl, ◌∙◌, arith,
}
use go_api_boot.Base.Dict.{Dict, lookup, insert, lookup-insert}
use go_api_boot.Strings.{to_lower}
use go_api_boot.Http.{Header}
use go_api_boot.Headers.{
  no_options, apply_options, apply_replacers, is_skipped, skip_all, skip_keys, copy_header,
}
use go_api_boot.Headers.Order.{last_of, rewritten, lookup-copy_header}

-- The key is one of the names, up to case.
unfoldable pub names : List Str → Str → Bool
names [] k = false
names (n ∷ ns) k = to_lower n == to_lower k || names ns k

pub lookup-skip_all :
    (ks : List Str) (m : Dict Str Bool) (k : Str)
    → lookup (to_lower k) (skip_all ks m)
      ≡ (if names ks k then some true else lookup (to_lower k) m)
unfolding skip_all names
lookup-skip_all [] m k = refl
lookup-skip_all (n ∷ ks) m k =
    lookup-skip_all ks (insert (to_lower n) true m) k
    ∙ rw (lookup-insert (to_lower n) (to_lower k) true m) (ground arith)

is_skipped-skip_keys :
    (ks : List Str) (k : Str) → is_skipped (skip_keys ks no_options) k ≡ names ks k
unfolding is_skipped skip_keys
is_skipped-skip_keys ks k = rw (lookup-skip_all ks [] k, is_skipped) (unfold lookup in ground arith)

last_of-rewritten :
    (ks : List Str) (src : Header) (j : Str) (old : Option (List Str))
    → last_of j (rewritten (skip_keys ks no_options) src) old
      ≡ (if names ks j then old else last_of j src old)
unfolding last_of rewritten skip_keys apply_replacers
last_of-rewritten ks [] j old = ground arith
last_of-rewritten ks ((k, vv) ∷ src) j old = rw (is_skipped-skip_keys ks k) (
    ground (
      arith,
      ==_iff k j,
      last_of-rewritten ks src j old,
      last_of-rewritten ks src j (if k == j then some vv else old),
    ))

-- A copy that only skips names holds under any other key what the source has last under it, and
-- leaves the skipped keys as they were, whatever the case of the letters.
pub copy_header-skip_keys :
    (dst src : Header) (ks : List Str) (j : Str)
    → lookup j (copy_header dst src (skip_keys ks ∷ []))
      ≡ (if names ks j then lookup j dst else last_of j src (lookup j dst))
unfolding apply_options
copy_header-skip_keys dst src ks j =
    lookup-copy_header dst src (skip_keys ks ∷ []) j ∙ last_of-rewritten ks src j (lookup j dst)
