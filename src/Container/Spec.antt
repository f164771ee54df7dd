-- ===== src/Container/Spec.antt =====
-- What the container is to do, without a stack: a relation between a container, a type, the value
-- that is resolved, and the container behind it. `resolve` implements it.
use go_api_boot.Base.{
  ℕ, zero, suc, ◌+◌, ◌<◌, List, [], ◌∷◌, Option, none, some, ok, ok_injective, Option-cases, ◌≡◌,
  ◌↔◌, refl, ap, ◌∙◌, subst, inl, inr, arith, nat_eq,
}
use go_api_boot.Base.Dict.{lookup, insert}
use go_api_boot.Base.Exec.{continue-ok}
use go_api_boot.Container.{
  Factory, Container, Inject, call, memoise, resolve_args, invoke, provide, resolve_miss, resolve,
}

module _ {V W : Type 0} where
  mutual
    pub data Resolves : Container V W → ℕ → V → Container V W → Type 0 where
      there :
          {c : Container V W} {t : ℕ} {v : V} → lookup t c.singletons ≡ some v → Resolves c t v c
      made :
          {c d : Container V W} {t : ℕ} {v : V} {vs : List V} {w : W} (p : Factory V W)
          → lookup t c.singletons ≡ none
          → lookup t c.providers ≡ some p
          → ResolvesAll c p.ins vs d
          → p.run vs d.world ≡ (v, w)
          → Resolves c t v (record d { singletons = insert t v d.singletons; world = w })

    pub data ResolvesAll : Container V W → List ℕ → List V → Container V W → Type 0 where
      none_left : {c : Container V W} → ResolvesAll c [] [] c
      next :
          {c d e : Container V W} {t : ℕ} {ts : List ℕ} {v : V} {vs : List V}
          → Resolves c t v d
          → ResolvesAll d ts vs e
          → ResolvesAll c (t ∷ ts) (v ∷ vs) e

  -- What is returned is what the relation allows.
  abbrev pub IsSoundFor : (ℕ → Inject V W V) → Type 0
  IsSoundFor rec =
      (t : ℕ) (c : Container V W) (v : V) → (rec t c).0 ≡ ok v → Resolves c t v (rec t c).1

  resolve_args_sound :
      (rec : ℕ → Inject V W V)
      → IsSoundFor rec
      → (ts : List ℕ) (c : Container V W) (vs : List V) → (resolve_args rec ts c).0 ≡ ok vs
      → ResolvesAll c ts vs (resolve_args rec ts c).1
  unfolding resolve_args
  resolve_args_sound rec h [] c vs x =
      subst (λ l. ResolvesAll c [] l c) (ok_injective [] vs x) none_left
  resolve_args_sound rec h (t ∷ ts) c vs x =
      let (v, e, y) = continue-ok (rec t c).0 _ (rec t c).1 x in
      let c1 = (rec t c).1 in
      let (ws, f, z) = continue-ok (resolve_args rec ts c1).0 _ (resolve_args rec ts c1).1 y in
      rw e (
        rw f (
          subst (λ l. ResolvesAll c (t ∷ ts) l (resolve_args rec ts c1).1)
            (ok_injective (v ∷ ws) vs z) (next (h t c v e) (resolve_args_sound rec h ts c1 ws f))))

  provide-sound :
      (rec : ℕ → Inject V W V)
      → IsSoundFor rec
      → (t : ℕ) (o : Option (Factory V W)) (c : Container V W) (v : V)
      → lookup t c.singletons ≡ none
      → lookup t c.providers ≡ o
      → (provide rec t o c).0 ≡ ok v
      → Resolves c t v (provide rec t o c).1
  unfolding provide invoke call memoise
  provide-sound rec h t none c v a b x = cc x
  provide-sound rec h t (some p) c v a b x =
      let i = invoke rec p c in
      let m = resolve_args rec p.ins c in
      let (u, e, y) = continue-ok i.0 (memoise t) i.1 x in
      let (vs, f, z) = continue-ok m.0 (call p) m.1 e in
      rw f (
        subst
          (λ u. Resolves c t u (record m.1 {
            singletons = insert t (p.run vs m.1.world).0 m.1.singletons;
            world = (p.run vs m.1.world).1;
          }))
          (ok_injective _ _ z ∙ ok_injective u v y)
          (made p a b (resolve_args_sound rec h p.ins c vs f) refl))

  pub resolve_sound : (f : ℕ) → IsSoundFor (resolve f)
  unfolding resolve resolve_miss
  resolve_sound zero t c v x = cc x
  resolve_sound (suc f) t c v x = elim (Option-cases (lookup t c.singletons)) [
    | inl a ↦ rw a (
        provide-sound (resolve f) (resolve_sound f) t (lookup t c.providers) c v a refl (rw a at x))
    | inr (u, a) ↦ rw a (there (cc (rw a at x, a)))
  ]

  -- The depth of the calls behind a derivation: a stack above it is enough.
  abbrev mutual
    depth : {c d : Container V W} {t : ℕ} {v : V} → Resolves c t v d → ℕ
    depth (there h) = 0
    depth (made p a b all z) = suc (depth_all all)

    depth_all : {c d : Container V W} {ts : List ℕ} {vs : List V} → ResolvesAll c ts vs d → ℕ
    depth_all none_left = 0
    depth_all (next r all) = depth r + depth_all all

  mutual
    unfolding resolve resolve_miss provide invoke call memoise resolve_args

    resolve_complete :
        {c d : Container V W} {t : ℕ} {v : V} (r : Resolves c t v d) (f : ℕ)
        → depth r < f
        → resolve f t c ≡ (ok v, d)
    resolve_complete (there h) (suc f) l = rw h refl
    resolve_complete (made p a b all z) (suc f) l =
        rw (a, b) (rw (resolve_args_complete all f (omega arith)) (rw z refl))
    resolve_complete _ zero l = absurd (omega arith)

    resolve_args_complete :
        {c d : Container V W} {ts : List ℕ} {vs : List V} (all : ResolvesAll c ts vs d) (f : ℕ)
        → depth_all all < f
        → resolve_args (resolve f) ts c ≡ (ok vs, d)
    resolve_args_complete none_left f l = refl
    resolve_args_complete (next r all) f l =
        rw (resolve_complete r f (omega arith))
          (rw (resolve_args_complete all f (omega arith)) refl)

  -- The relation holds of a value and a container exactly if `resolve` returns them, with some room
  -- for calls: it implements the resolution of a type without a bound on the stack.
  pub resolve-Resolves :
      (c : Container V W) (t : ℕ) (v : V) (d : Container V W)
      → Resolves c t v d ↔ ((f : ℕ) × (resolve f t c ≡ (ok v, d)))
  resolve-Resolves c t v d = (
    (λ r. (suc (depth r), resolve_complete r (suc (depth r)) (omega arith))),
    (λ (f, x). subst (Resolves c t v) (ap (λ o. o.1) x) (resolve_sound f t c v (ap (λ o. o.0) x))),
  )
