-- ===== src/Strings/Search.antt =====
-- `cut` finds the first occurrence, and `replace` replaces it.
use go_api_boot.Base.{
  ℕ, Str, [], ◌∷◌, ◌++◌, true, false, Option, none, some, All, ◌≢◌, ◌≡◌, ◌⊎◌, refl, ap, arith,
  nat_eq, ==_iff, ==_refl, length, drop, Bool-cases, Option-cases, inl, inr, drop-append_length,
}
use go_api_boot.Strings.{has_prefix, later_cut, cut, contains, replace}

pub has_prefix-append : (p s : Str) → has_prefix (p ++ s) p ≡ true
unfolding has_prefix
has_prefix-append [] [] = refl
has_prefix-append [] (c ∷ s) = refl
has_prefix-append (c ∷ p) s = ground (arith, has_prefix-append p s)

pub has_prefix_rest : (s p : Str) → has_prefix s p ≡ true → s ≡ p ++ drop (length p) s
unfolding has_prefix
has_prefix_rest [] [] h = refl
has_prefix_rest (d ∷ s) [] h = refl
has_prefix_rest [] (c ∷ p) h = cc h
has_prefix_rest (d ∷ s) (c ∷ p) h = ground (arith, has_prefix_rest s p)

later_cut_inv :
    (c : ℕ) (o : Option (Str × Str)) {a b : Str}
    → later_cut c o ≡ some (a, b)
    → (a' : Str) × (o ≡ some (a', b)) × (a ≡ c ∷ a')
later_cut_inv c none h = cc h
later_cut_inv c (some (a', b')) h = (a', ground arith, ground arith)

-- What `cut` returns spells the text.
pub cut_spells : (s sub : Str) {a b : Str} → cut s sub ≡ some (a, b) → s ≡ a ++ sub ++ b
unfolding cut
cut_spells [] [] h = ground arith
cut_spells [] (c ∷ sub) h = ground arith
cut_spells (c ∷ s) sub {a} {b} h = elim (Bool-cases (has_prefix (c ∷ s) sub)) [
  | inl e ↦ ground (arith, has_prefix_rest (c ∷ s) sub)
  | inr e ↦
      let (a', f, g) = later_cut_inv c (cut s sub) (rw e at h) in
      rw g (ap (λ t. c ∷ t) (cut_spells s sub f))
]

-- A text that begins with `sub` is cut there.
pub cut-append : (sub s : Str) → cut (sub ++ s) sub ≡ some ([], s)
unfolding cut
cut-append [] [] = refl
cut-append [] (c ∷ s) = refl
cut-append (c ∷ sub) s = rw (has_prefix-append (c ∷ sub) s) (rw (drop-append_length sub s))

-- A text that contains `sub` is what comes before it, `sub`, and what comes behind it, and `replace`
-- puts `new` in the place of that one.
pub replace_lem :
    (s old new : Str)
    → ((contains s old ≡ false) × (replace s old new ≡ s))
      ⊎ ((a b : Str) × (s ≡ a ++ old ++ b) × (replace s old new ≡ a ++ new ++ b))
unfolding contains replace
replace_lem s old new = elim (Option-cases (cut s old)) [
  | inl e ↦ inl (rw (e, contains), rw (e, replace))
  | inr ((a, b), e) ↦ inr (a, b, cut_spells s old e, rw (e, replace))
]

pub replace-append : (old new s : Str) → replace (old ++ s) old new ≡ new ++ s
unfolding replace
replace-append old new s = rw (cut-append old s, replace)

-- A text without the character is cut at the first one behind it.
pub cut-Lacks : (c : ℕ) (s t : Str) → All (λ d. d ≢ c) s → cut (s ++ c ∷ t) (c ∷ []) ≡ some (s, t)
unfolding cut has_prefix
cut-Lacks c [] t h = rw (==_refl c)
cut-Lacks c (d ∷ s) t (hd, h) = rw (cut-Lacks c s t h) (ground (arith, ==_iff d c))
