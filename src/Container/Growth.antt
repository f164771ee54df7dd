-- ===== src/Container/Growth.antt =====
-- What resolving leaves alone: the providers, and the singletons that are there.
use go_api_boot.Base.{
  ℕ, zero, suc, List, [], ◌∷◌, Option, none, some, Result, ok, err, ◌≡◌, refl, ◌∙◌, arith, ==_iff,
  nat_eq,
}
use go_api_boot.Base.Dict.{lookup, lookup-insert}
use go_api_boot.Base.Exec.{continue}
use go_api_boot.Container.{
  Factory, Container, Fault, Inject, call, memoise, resolve_args, invoke, provide, resolve_miss,
  resolve,
}

-- A step from `c` to `d` keeps the providers and every singleton of `c`.
pub record Grows {V W : Type 0} (c d : Container V W) : Type 0 where
  pub same_providers : d.providers ≡ c.providers
  pub keeps : (s : ℕ) (w : V) → lookup s c.singletons ≡ some w → lookup s d.singletons ≡ some w

module _ {V W : Type 0} where
  pub Grows-refl : (c : Container V W) → Grows c c
  Grows-refl c = record { same_providers = refl; keeps = λ s w h. h }

  pub Grows-trans : {c d e : Container V W} → Grows c d → Grows d e → Grows c e
  Grows-trans g h = record {
    same_providers = h.same_providers ∙ g.same_providers;
    keeps = λ s w k. h.keeps s w (g.keeps s w k);
  }

  -- An action that only grows the container, whether it returns or fails.
  abbrev pub OnlyGrows : {A : Type 0} → Inject V W A → Type 0
  OnlyGrows m = (c : Container V W) → Grows c (m c).1

  pub continue-Grows :
      {A B : Type 0} (r : Result Fault A) (f : A → Inject V W B) (c : Container V W)
      → ((a : A) → OnlyGrows (f a))
      → Grows c (continue r f c).1
  continue-Grows (ok a) f c h = h a c
  continue-Grows (err e) f c h = Grows-refl c

  pub bind-Grows :
      {A B : Type 0} (m : Inject V W A) (f : A → Inject V W B)
      → OnlyGrows m
      → ((a : A) → OnlyGrows (f a))
      → OnlyGrows (λ c. continue (m c).0 f (m c).1)
  bind-Grows m f hm hf c = Grows-trans (hm c) (continue-Grows (m c).0 f (m c).1 hf)

  call-Grows : (p : Factory V W) (args : List V) → OnlyGrows (call p args)
  unfolding call
  call-Grows p args c = record { same_providers = refl; keeps = λ s w h. h }

  resolve_args-Grows :
      (rec : ℕ → Inject V W V) (ts : List ℕ)
      → ((t : ℕ) → OnlyGrows (rec t))
      → OnlyGrows (resolve_args rec ts)
  unfolding resolve_args
  resolve_args-Grows rec [] h = λ c. Grows-refl c
  resolve_args-Grows rec (t ∷ ts) h =
      bind-Grows (rec t) _ (h t)
        λ v. bind-Grows (resolve_args rec ts) _ (resolve_args-Grows rec ts h) λ vs c. Grows-refl c

  pub invoke-Grows :
      (rec : ℕ → Inject V W V) (p : Factory V W)
      → ((t : ℕ) → OnlyGrows (rec t))
      → OnlyGrows (invoke rec p)
  unfolding invoke
  invoke-Grows rec p h =
      bind-Grows (resolve_args rec p.ins) _ (resolve_args-Grows rec p.ins h)
        λ args. call-Grows p args

  -- Writing the result of a type that had no singleton overwrites none.
  Grows-memoise :
      (t : ℕ) (v : V) {c d : Container V W}
      → lookup t c.singletons ≡ none
      → Grows c d
      → Grows c (memoise t v d).1
  unfolding memoise
  Grows-memoise t v {d} fresh g = record {
    same_providers = g.same_providers;
    keeps =
        λ s w h. rw (lookup-insert t s v d.singletons) (ground (arith, ==_iff t s, g.keeps s w h));
  }

  continue-memoise :
      (t : ℕ) (r : Result Fault V) {c d : Container V W}
      → lookup t c.singletons ≡ none
      → Grows c d
      → Grows c (continue r (memoise t) d).1
  continue-memoise t (ok v) fresh g = Grows-memoise t v fresh g
  continue-memoise t (err e) fresh g = g

  provide-Grows :
      (rec : ℕ → Inject V W V) (t : ℕ) (o : Option (Factory V W)) (c : Container V W)
      → ((s : ℕ) → OnlyGrows (rec s))
      → lookup t c.singletons ≡ none
      → Grows c (provide rec t o c).1
  unfolding provide
  provide-Grows rec t none c h fresh = Grows-refl c
  provide-Grows rec t (some p) c h fresh =
      continue-memoise t (invoke rec p c).0 fresh (invoke-Grows rec p h c)

  resolve_miss-Grows :
      (rec : ℕ → Inject V W V) (t : ℕ) (o : Option V) (c : Container V W)
      → ((s : ℕ) → OnlyGrows (rec s))
      → lookup t c.singletons ≡ o
      → Grows c (resolve_miss rec t o c).1
  unfolding resolve_miss
  resolve_miss-Grows rec t (some v) c h e = Grows-refl c
  resolve_miss-Grows rec t none c h e = provide-Grows rec t (lookup t c.providers) c h e

  -- Resolving a type, with whatever result, keeps every provider and every singleton: a value that
  -- was provided or memoised is never replaced.
  pub resolve-Grows : (f t : ℕ) (c : Container V W) → Grows c (resolve f t c).1
  unfolding resolve
  resolve-Grows zero t c = Grows-refl c
  resolve-Grows (suc f) t c =
      resolve_miss-Grows (resolve f) t (lookup t c.singletons) c (resolve-Grows f) refl
