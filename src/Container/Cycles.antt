-- ===== src/Container/Cycles.antt =====
-- A cycle of providers: types each of which needs another one of them are never resolved.
use go_api_boot.Base.{
  ℕ, List, ◌∷◌, none, some, err, Result-cases, Bool-cases, ◌≡◌, sym, ◌∙◌, inl, inr, nat_eq, ◌==◌,
  ==_iff, subst,
}
use go_api_boot.Base.Dict.{lookup, insert, lookup-insert}
use go_api_boot.Container.{Factory, Container, Fault, resolve}
use go_api_boot.Container.Spec.{Resolves, there, made, ResolvesAll, none_left, next, resolve_sound}
use go_api_boot.Container.Termination.{Takes, first, later}

not_taken :
    (P : ℕ → Type 0) {t s : ℕ} {ts : List ℕ}
    → (¬ P t)
    → ((s : ℕ) → Takes ts s → ¬ P s)
    → Takes (t ∷ ts) s
    → ¬ P s
not_taken P n ns first = n
not_taken P n ns (later m) = ns _ m

module _ {V W : Type 0} (P : ℕ → Type 0) where
  -- Each type of the set has a provider that takes a type of the set, and none has a singleton.
  pub record IsCycle (c : Container V W) : Type 0 where
    pub takes :
        (t : ℕ)
        → P t
        → (p : Factory V W) × (s : ℕ) × (lookup t c.providers ≡ some p) × Takes p.ins s × P s
    pub fresh : (t : ℕ) → P t → lookup t c.singletons ≡ none

  IsCycle-insert :
      (t : ℕ) (v : V) (w : W) (c : Container V W)
      → ¬ P t
      → IsCycle c
      → IsCycle (record c { singletons = insert t v c.singletons; world = w })
  IsCycle-insert t v w c n h = record {
    takes = h.takes;
    fresh = λ s m. lookup-insert t s v c.singletons ∙ elim (Bool-cases (t == s)) [
      | inl e ↦ absurd (n (subst P (sym ((==_iff t s).0 e)) m))
      | inr e ↦ rw e (h.fresh s m)
    ];
  }

  mutual
    Resolves-IsCycle :
        {c d : Container V W} {t : ℕ} {v : V} → Resolves c t v d → IsCycle c → (¬ P t) × IsCycle d
    Resolves-IsCycle (there e) h = ((λ m. cc (e, h.fresh _ m)), h)
    Resolves-IsCycle {t} (made {d} {v} {w} p a b all z) h =
        let (none_of, k) = ResolvesAll-IsCycle all h in
        let n : ¬ P t = λ m.
          let (q, s, e, takes, ps) = h.takes t m in
          let same : q ≡ p = cc (e, b) in
          none_of s (subst (λ (f : Factory V W). Takes f.ins s) same takes) ps in
        (n, IsCycle-insert t v w d n k)

    ResolvesAll-IsCycle :
        {c d : Container V W} {ts : List ℕ} {vs : List V}
        → ResolvesAll c ts vs d
        → IsCycle c
        → ((s : ℕ) → Takes ts s → ¬ P s) × IsCycle d
    ResolvesAll-IsCycle none_left h = ((λ s m. elim m [ ]), h)
    ResolvesAll-IsCycle (next r all) h =
        let (n, k) = Resolves-IsCycle r h in
        let (ns, l) = ResolvesAll-IsCycle all k in ((λ s m. not_taken P n ns m), l)

  -- If each type of a set has a provider that takes a type of the set, and none has a singleton,
  -- then resolving a type of the set fails, however deep the stack is.
  pub cycle_fails :
      (c : Container V W) (t f : ℕ) → IsCycle c → P t → (e : Fault) × ((resolve f t c).0 ≡ err e)
  cycle_fails c t f h m = elim (Result-cases (resolve f t c).0) [
    | inl (v, x) ↦ absurd ((Resolves-IsCycle (resolve_sound f t c v x) h).0 m)
    | inr failed ↦ failed
  ]
