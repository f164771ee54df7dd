-- ===== src/Headers/Order.antt =====
-- What a copied header holds under a key, and when Go's order of iteration does not matter.
use go_api_boot.Base.{
  Str, List, [], ◌∷◌, Bool-cases, Option, some, ◌==◌, ==_iff, str_eq, if◌then◌else◌, ◌≡◌, ◌≢◌, refl,
  sym, ◌∙◌, ap, arith, inl, inr, All, subst,
}
use go_api_boot.Base.Dict.{lookup, insert, lookup-insert}
use go_api_boot.Http.{Header}
use go_api_boot.Headers.{
  CopyOptions, CopyOption, no_options, apply_options, apply_replacers, is_skipped, copy_loop,
  copy_header,
}
use mathlib.Core.List.Permᴰ
use mathlib.Core.List.{Permᴰ}

-- What the options make of the source, entry by entry: skipped entries are gone.
unfoldable pub rewritten : CopyOptions → Header → Header
rewritten options [] = []
rewritten options ((k, vv) ∷ src) =
    let rest = rewritten options src in
    if is_skipped options k then rest else apply_replacers options.replacers (k, vv) ∷ rest

-- The last entry of the key in the order of iteration, or what was there before.
unfoldable pub last_of : Str → Header → Option (List Str) → Option (List Str)
last_of j [] old = old
last_of j ((k, vv) ∷ m) old = last_of j m (if k == j then some vv else old)

lookup-copy_loop :
    (options : CopyOptions) (dst src : Header) (j : Str)
    → lookup j (copy_loop options dst src) ≡ last_of j (rewritten options src) (lookup j dst)
unfolding copy_loop rewritten last_of
lookup-copy_loop options dst [] j = refl
lookup-copy_loop options dst ((k, vv) ∷ src) j =
    let kv = apply_replacers options.replacers (k, vv) in
    elim (Bool-cases (is_skipped options k)) [
      | inl e ↦ rw e (lookup-copy_loop options dst src j)
      | inr e ↦ rw e (
          lookup-copy_loop options (insert kv.0 kv.1 dst) src j
          ∙ rw (lookup-insert kv.0 j kv.1 dst))
    ]

-- A key of the copy holds the values of the last source entry, in the order of iteration, that the
-- options neither skip nor rename to another key, and if there is none what it held before.
pub lookup-copy_header :
    (dst src : Header) (opts : List CopyOption) (j : Str)
    → lookup j (copy_header dst src opts)
      ≡ last_of j (rewritten (apply_options opts no_options) src) (lookup j dst)
unfolding copy_header
lookup-copy_header dst src opts j = lookup-copy_loop (apply_options opts no_options) dst src j

-- No two entries have one key.
abbrev pub DistinctKeys : Header → Type 0
DistinctKeys [] = Unit
DistinctKeys ((k, vv) ∷ m) = All (λ kv. k ≢ kv.0) m × DistinctKeys m

All-perm {ℓ κ} : {A : Type ℓ} (P : A → Type κ) {l m : List A} → Permᴰ l m → All P l → All P m
All-perm P Permᴰ.nil h = tt
All-perm P (Permᴰ.cons e d) (h, hs) = (subst P e h, All-perm P d hs)
All-perm P (Permᴰ.swap e f) (h, (k, hs)) = (subst P f k, (subst P e h, hs))
All-perm P (Permᴰ.trans d e) h = All-perm P e (All-perm P d h)

DistinctKeys-perm : {l m : Header} → Permᴰ l m → DistinctKeys l → DistinctKeys m
DistinctKeys-perm Permᴰ.nil h = tt
DistinctKeys-perm (Permᴰ.cons {b} {l₂} e d) (h, hs) =
    (All-perm (λ kv. b.0 ≢ kv.0) d (rw (← e) h), DistinctKeys-perm d hs)
DistinctKeys-perm (Permᴰ.swap {l} e f) ((h, k), (k', hs)) = (
  (
    λ q. h (ap (λ kv. kv.0) e ∙ sym q ∙ sym (ap (λ kv. kv.0) f)),
    subst (λ x. All (λ kv. x.0 ≢ kv.0) l) f k',
  ),
  (subst (λ x. All (λ kv. x.0 ≢ kv.0) l) e k, hs),
)
DistinctKeys-perm (Permᴰ.trans d e) h = DistinctKeys-perm e (DistinctKeys-perm d h)

last_of-swap :
    (j : Str) (a b : Str × List Str) (l : Header) (old : Option (List Str))
    → a.0 ≢ b.0
    → last_of j (a ∷ b ∷ l) old ≡ last_of j (b ∷ a ∷ l) old
unfolding last_of
last_of-swap j a b l old h = ap (last_of j l) (ground (arith, ==_iff a.0 j, ==_iff b.0 j))

last_of-cons :
    (j : Str) (a : Str × List Str) (l m : Header) (old : Option (List Str))
    → last_of j l (if a.0 == j then some a.1 else old)
      ≡ last_of j m (if a.0 == j then some a.1 else old)
    → last_of j (a ∷ l) old ≡ last_of j (a ∷ m) old
unfolding last_of
last_of-cons j a l m old h = h

-- With distinct keys, the order does not matter.
last_of-perm :
    (j : Str) {l m : Header} (old : Option (List Str))
    → Permᴰ l m
    → DistinctKeys l
    → last_of j l old ≡ last_of j m old
last_of-perm j old Permᴰ.nil h = refl
last_of-perm j old (Permᴰ.cons {a} {b} {l₁} {l₂} e d) (h, hs) =
    subst (λ x. last_of j (a ∷ l₁) old ≡ last_of j (x ∷ l₂) old) e
      (last_of-cons j a l₁ l₂ old (last_of-perm j (if a.0 == j then some a.1 else old) d hs))
last_of-perm j old (Permᴰ.swap {a} {b} {b'} {l} e f) ((h, k), (k', hs)) =
    subst (λ x. last_of j (a ∷ b ∷ l) old ≡ last_of j (x ∷ b' ∷ l) old) f
      (subst (λ y. last_of j (a ∷ b ∷ l) old ≡ last_of j (b ∷ y ∷ l) old) e
        (last_of-swap j a b l old h))
last_of-perm j old (Permᴰ.trans d e) h =
    last_of-perm j old d h ∙ last_of-perm j old e (DistinctKeys-perm d h)

module _ (options : CopyOptions) where
  rewritten-cons :
      (a : Str × List Str) (l m : Header)
      → Permᴰ (rewritten options l) (rewritten options m)
      → Permᴰ (rewritten options (a ∷ l)) (rewritten options (a ∷ m))
  unfolding rewritten
  rewritten-cons a l m d = elim (Bool-cases (is_skipped options a.0)) [
    | inl e ↦ rw e d
    | inr e ↦ rw e (Permᴰ.cons refl d)
  ]

  rewritten-swap :
      (a b : Str × List Str) (l : Header)
      → Permᴰ (rewritten options (a ∷ b ∷ l)) (rewritten options (b ∷ a ∷ l))
  unfolding rewritten
  rewritten-swap a b l = elim (Bool-cases (is_skipped options a.0)) [
    | inl e ↦ rw e (Permᴰ.refl _)
    | inr e ↦ elim (Bool-cases (is_skipped options b.0)) [
      | inl f ↦ rw (e, f) (Permᴰ.refl _)
      | inr f ↦ rw (e, f) (Permᴰ.swap refl refl)
    ]
  ]

  rewritten-perm : {l m : Header} → Permᴰ l m → Permᴰ (rewritten options l) (rewritten options m)
  rewritten-perm Permᴰ.nil = Permᴰ.refl _
  rewritten-perm (Permᴰ.cons {a} {l₁} {l₂} e d) =
      subst (λ x. Permᴰ (rewritten options (a ∷ l₁)) (rewritten options (x ∷ l₂))) e
        (rewritten-cons a l₁ l₂ (rewritten-perm d))
  rewritten-perm (Permᴰ.swap {a} {b} {b'} {l} e f) =
      subst (λ x. Permᴰ (rewritten options (a ∷ b ∷ l)) (rewritten options (x ∷ b' ∷ l))) f
        (subst (λ y. Permᴰ (rewritten options (a ∷ b ∷ l)) (rewritten options (b ∷ y ∷ l))) e
          (rewritten-swap a b l))
  rewritten-perm (Permᴰ.trans d e) = Permᴰ.trans (rewritten-perm d) (rewritten-perm e)

-- The order in which Go iterates over the source does not show in the copy, if no two entries that
-- the options keep end up under one key.
pub copy_header-perm :
    (dst : Header) {src src' : Header} (opts : List CopyOption) (j : Str)
    → Permᴰ src src'
    → DistinctKeys (rewritten (apply_options opts no_options) src)
    → lookup j (copy_header dst src opts) ≡ lookup j (copy_header dst src' opts)
copy_header-perm dst {src} {src'} opts j d h =
    rw (lookup-copy_header dst src opts j, lookup-copy_header dst src' opts j)
      (last_of-perm j (lookup j dst) (rewritten-perm (apply_options opts no_options) d) h)
