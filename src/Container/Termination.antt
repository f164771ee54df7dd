-- ===== src/Container/Termination.antt =====
-- When `resolve` returns, and what its error means. Nothing in the code stops a cycle of providers;
-- without one, the rank of a type bounds the depth of the calls.
use go_api_boot.Base.{
  ℕ, zero, suc, ◌<◌, List, [], ◌∷◌, Option, none, some, ok, err, Result-cases, ◌≡◌, refl, sym,
  arith, nat_eq, ◌≢◌, Option-cases, inl, inr, subst,
}
use go_api_boot.Base.Dict.{Dict, lookup}
use go_api_boot.Base.Exec.{continue-err}
use go_api_boot.Container.{
  Factory, Container, Fault, no_provider, stack_overflow, Inject, call, memoise, resolve_args,
  invoke, provide, resolve_miss, resolve, invoke_factory,
}
use go_api_boot.Container.Growth.{Grows, Grows-refl, Grows-trans, OnlyGrows, resolve-Grows}

-- The type is a parameter of the factory, at some place.
pub data Takes : List ℕ → ℕ → Type 0 where
  first : {s : ℕ} {ts : List ℕ} → Takes (s ∷ ts) s
  later : {s t : ℕ} {ts : List ℕ} → Takes ts s → Takes (t ∷ ts) s

module _ {V W : Type 0} where
  -- Making a `t` may come to need an `s`.
  pub data Needs (ps : Dict ℕ (Factory V W)) : ℕ → ℕ → Type 0 where
    itself : {t : ℕ} → Needs ps t t
    through :
        {t s u : ℕ} (p : Factory V W)
        → lookup t ps ≡ some p
        → Takes p.ins s
        → Needs ps s u
        → Needs ps t u

  -- The providers have no cycle: what a provider takes ranks below what it makes.
  abbrev pub Ranked : (ℕ → ℕ) → Dict ℕ (Factory V W) → Type 0
  Ranked rank ps =
      (t : ℕ) (p : Factory V W) → lookup t ps ≡ some p → (s : ℕ) → Takes p.ins s → rank s < rank t

  -- What an error says of the container in which a `t` was resolved.
  abbrev pub Blame : Container V W → ℕ → Fault → Type 0
  Blame c t (no_provider s) =
      Needs c.providers t s × (lookup s c.singletons ≡ none) × (lookup s c.providers ≡ none)
  Blame c t stack_overflow = ⊥

  Grows-none :
      {c d : Container V W} (s : ℕ)
      → Grows c d
      → lookup s d.singletons ≡ none
      → lookup s c.singletons ≡ none
  Grows-none {c} s g h = elim (Option-cases (lookup s c.singletons)) [
    | inl e ↦ e
    | inr (v, e) ↦ cc (h, g.keeps s v e)
  ]

  Grows-Blame : {c d : Container V W} (t : ℕ) (e : Fault) → Grows c d → Blame d t e → Blame c t e
  Grows-Blame t (no_provider s) g (n, a, b) = (
    subst (λ ps. Needs ps t s) g.same_providers n,
    Grows-none s g a,
    subst (λ ps. lookup s ps ≡ none) g.same_providers b,
  )
  Grows-Blame t stack_overflow g h = h

  Blame-through :
      (c : Container V W) (t : ℕ) {s : ℕ} (p : Factory V W) (e : Fault)
      → lookup t c.providers ≡ some p
      → Takes p.ins s
      → Blame c s e
      → Blame c t e
  Blame-through c t p (no_provider u) h m (n, a, b) = (through p h m n, a, b)
  Blame-through c t p stack_overflow h m b = b

  -- An error of the loop over the parameters is an error of one of them, in a container that has
  -- only grown.
  resolve_args-err :
      (rec : ℕ → Inject V W V) (ts : List ℕ) {c : Container V W} (Q : Fault → Type 0)
      → ((t : ℕ) → OnlyGrows (rec t))
      → ((s : ℕ)
          → Takes ts s
          → (d : Container V W) → Grows c d
          → (e : Fault) → (rec s d).0 ≡ err e
          → Q e)
      → (d : Container V W) → Grows c d
      → (e : Fault) → (resolve_args rec ts d).0 ≡ err e
      → Q e
  unfolding resolve_args
  resolve_args-err rec [] Q grows h d g e x = cc x
  resolve_args-err rec (t ∷ ts) Q grows h d g e x =
      elim (continue-err (rec t d).0 _ (rec t d).1 x) [
        | inl y ↦ h t first d g e y
        | inr (v, _, y) ↦
            let d' = (rec t d).1 in
            elim (continue-err (resolve_args rec ts d').0 _ (resolve_args rec ts d').1 y) [
              | inl z ↦
                  resolve_args-err rec ts Q grows (λ s m. h s (later m)) d'
                    (Grows-trans g (grows t d)) e z
              | inr (vs, _, z) ↦ cc z
            ]
      ]

  invoke-err :
      (rec : ℕ → Inject V W V) (p : Factory V W) (c : Container V W) (Q : Fault → Type 0)
      → ((t : ℕ) → OnlyGrows (rec t))
      → ((s : ℕ)
          → Takes p.ins s
          → (d : Container V W) → Grows c d
          → (e : Fault) → (rec s d).0 ≡ err e
          → Q e)
      → (e : Fault) → (invoke rec p c).0 ≡ err e
      → Q e
  unfolding invoke call
  invoke-err rec p c Q grows h e x =
      elim (continue-err (resolve_args rec p.ins c).0 _ (resolve_args rec p.ins c).1 x) [
        | inl y ↦ resolve_args-err rec p.ins Q grows h c (Grows-refl c) e y
        | inr (args, _, y) ↦ cc y
      ]

  provide-err :
      (rec : ℕ → Inject V W V) (t : ℕ) (o : Option (Factory V W)) (c : Container V W)
      → lookup t c.providers ≡ o
      → lookup t c.singletons ≡ none
      → ((s : ℕ) → OnlyGrows (rec s))
      → ((p : Factory V W)
          → o ≡ some p
          → (s : ℕ) → Takes p.ins s
          → (d : Container V W) → Grows c d
          → (e : Fault) → (rec s d).0 ≡ err e
          → Blame d s e)
      → (e : Fault) → (provide rec t o c).0 ≡ err e
      → Blame c t e
  unfolding provide memoise
  provide-err rec t none c ho hs grows h (no_provider s) x =
      let same : t ≡ s = cc x in rw (← same) (itself, hs, ho)
  provide-err rec t none c ho hs grows h stack_overflow x = cc x
  provide-err rec t (some p) c ho hs grows h e x =
      elim (continue-err (invoke rec p c).0 _ (invoke rec p c).1 x) [
        | inl y ↦
            invoke-err rec p c (Blame c t) grows
              (λ s m d g e' z.
                Blame-through c t p e' ho m (Grows-Blame s e' g (h p refl s m d g e' z)))
              e y
        | inr (v, _, y) ↦ cc y
      ]

  -- Without a cycle of providers, and with as much stack as the rank of the type, an error of
  -- `resolve` is never an exhausted stack: it names a type that the requested one needs, and that
  -- the container has neither a singleton nor a provider for.
  pub resolve-Blame :
      (rank : ℕ → ℕ) (f t : ℕ) (c : Container V W)
      → Ranked rank c.providers
      → rank t < f
      → (e : Fault) → (resolve f t c).0 ≡ err e
      → Blame c t e
  unfolding resolve resolve_miss
  resolve-Blame rank zero t c ranked h e x = absurd (omega arith)
  resolve-Blame rank (suc f) t c ranked h e x = elim (Option-cases (lookup t c.singletons)) [
    | inl fresh ↦
        provide-err (resolve f) t (lookup t c.providers) c refl fresh (resolve-Grows f)
          (λ p hp s m d g e' y.
            resolve-Blame rank f s d (subst (Ranked rank) (sym g.same_providers) ranked)
              (omega (arith, ranked t p hp s m)) e' y)
          e (rw fresh at x)
    | inr (v, there) ↦ cc (there, x)
  ]

  -- Whatever `t` needs has a singleton or a provider.
  abbrev pub IsComplete : Container V W → ℕ → Type 0
  IsComplete c t =
      (s : ℕ) → Needs c.providers t s → lookup s c.singletons ≡ none → lookup s c.providers ≢ none

  complete-not-Blame : (c : Container V W) (t : ℕ) (e : Fault) → IsComplete c t → Blame c t e → ⊥
  complete-not-Blame c t (no_provider s) complete (n, a, b) = complete s n a b
  complete-not-Blame c t stack_overflow complete b = b

  -- Without a cycle of providers, with all that the type needs provided, and with a stack that is
  -- deeper than the rank of the type, `resolve` returns a value.
  pub resolve_total :
      (rank : ℕ → ℕ) (f t : ℕ) (c : Container V W)
      → Ranked rank c.providers
      → IsComplete c t
      → rank t < f
      → (v : V) × ((resolve f t c).0 ≡ ok v)
  resolve_total rank f t c ranked complete h = elim (Result-cases (resolve f t c).0) [
    | inl found ↦ found
    | inr (e, x) ↦
        absurd (complete-not-Blame c t e complete (resolve-Blame rank f t c ranked h e x))
  ]

  -- Without a cycle of providers, `invoke_factory` returns a value if all that each parameter of
  -- the factory needs is provided, and the stack is deeper than the rank of each.
  pub invoke_factory_total :
      (rank : ℕ → ℕ) (f : ℕ) (fn : Factory V W) (c : Container V W)
      → Ranked rank c.providers
      → ((s : ℕ) → Takes fn.ins s → IsComplete c s × (rank s < f))
      → (v : V) × ((invoke_factory f fn c).0 ≡ ok v)
  unfolding invoke_factory
  invoke_factory_total rank f fn c ranked h = elim (Result-cases (invoke (resolve f) fn c).0) [
    | inl found ↦ found
    | inr (e, x) ↦ absurd (
        invoke-err (resolve f) fn c (λ _. ⊥) (resolve-Grows f)
          (λ s m d g e' y. complete-not-Blame c s e' (h s m).0 (
            Grows-Blame s e' g (
              resolve-Blame rank f s d (subst (Ranked rank) (sym g.same_providers) ranked) (h s m).1
                e' y)))
          e x)
  ]
