-- ===== src/Strings/Split.antt =====
-- `split` and `join`.
use go_api_boot.Base.{
  ℕ, Str, List, [], ◌∷◌, ◌++◌, ◌≡◌, ◌≢◌, refl, ap, sym, arith, All, ◌==◌, nat_eq, ==_iff, ==_refl,
  Bool-cases, inl, inr,
}
use go_api_boot.Strings.{push_first, split, join}

-- The text holds no `sep`.
abbrev pub Lacks : ℕ → Str → Type 0
Lacks sep = All (λ c. c ≢ sep)

-- A split has a part.
pub split-cons : (sep : ℕ) (s : Str) → (p : Str) × (ps : List Str) × (split sep s ≡ p ∷ ps)
unfolding split
split-cons sep [] = ([], [], refl)
split-cons sep (c ∷ s) =
    let (p, ps, e) = split-cons sep s in
    elim (Bool-cases (c == sep)) [
      | inl h ↦ ([], p ∷ ps, rw h (rw e))
      | inr h ↦ (c ∷ p, ps, rw h (rw e))
    ]

join-push_first :
    (c : ℕ) (p : Str) (ps : List Str) (sep : Str)
    → join (push_first c (p ∷ ps)) sep ≡ c ∷ join (p ∷ ps) sep
unfolding join
join-push_first c p [] sep = refl
join-push_first c p (q ∷ ps) sep = refl

join-nil_cons :
    (p : Str) (ps : List Str) (sep : Str) → join ([] ∷ p ∷ ps) sep ≡ sep ++ join (p ∷ ps) sep
unfolding join
join-nil_cons p ps sep = refl

-- Joining the parts of a split gives the text back.
pub join-split : (sep : ℕ) (s : Str) → join (split sep s) (sep ∷ []) ≡ s
unfolding split
join-split sep [] = unfold join in refl
join-split sep (c ∷ s) =
    let (p, ps, e) = split-cons sep s in
    let ih : join (p ∷ ps) (sep ∷ []) ≡ s = rw (← e) (join-split sep s) in
    elim (Bool-cases (c == sep)) [
      | inl h ↦
          rw (h, e, join-nil_cons p ps (sep ∷ []), ih) (ap (λ t. t ∷ s) (sym ((==_iff c sep).0 h)))
      | inr h ↦ rw (h, e, join-push_first c p ps (sep ∷ []), ih)
    ]

-- A text without the separator stays in one part.
pub split-Lacks : (sep : ℕ) (s : Str) → Lacks sep s → split sep s ≡ s ∷ []
unfolding split
split-Lacks sep [] h = refl
split-Lacks sep (c ∷ s) (hc, h) = rw (split-Lacks sep s h) (ground (arith, ==_iff c sep))

-- Such a text, with the separator and more behind it, is the first part.
pub split-append : (sep : ℕ) (s t : Str) → Lacks sep s → split sep (s ++ sep ∷ t) ≡ s ∷ split sep t
unfolding split
split-append sep [] t h = rw (==_refl sep)
split-append sep (c ∷ s) t (hc, h) = rw (split-append sep s t h) (ground (arith, ==_iff c sep))

push_first-append :
    (c : ℕ) (p : Str) (ps qs : List Str)
    → push_first c ((p ∷ ps) ++ qs) ≡ push_first c (p ∷ ps) ++ qs
push_first-append c p ps qs = refl

-- Splitting is compositional: a separator between two texts splits them apart.
pub split-append_both :
    (sep : ℕ) (s t : Str) → split sep (s ++ sep ∷ t) ≡ split sep s ++ split sep t
unfolding split
split-append_both sep [] t = rw (==_refl sep)
split-append_both sep (c ∷ s) t =
    let (p, ps, e) = split-cons sep s in
    rw (split-append_both sep s t) (elim (Bool-cases (c == sep)) [
      | inl h ↦ rw h
      | inr h ↦ rw (h, e, push_first-append c p ps (split sep t))
    ])
