-- ===== src/Tests/ContainerRuns.antt =====
-- server/container.go at two providers: type 2 is made from type 1.
use go_api_boot.Base.{
  ℕ, ◌+◌, List, [], ◌∷◌, Bool-cases, some, ok, err, ◌≡◌, ◌↔◌, ◌⊎◌, ◌∙◌, refl, sym, ap, arith, inl,
  inr, nat_eq, ◌==◌, ==_iff,
}
use go_api_boot.Base.Dict.{Dict, lookup, insert}
use go_api_boot.Container.{
  Factory, Container, Fault, no_provider, resolve, resolve_miss, provide, invoke, resolve_args,
  call, memoise,
}
use go_api_boot.Container.Cycles.{IsCycle, cycle_fails}
use go_api_boot.Container.Spec.{Resolves, resolve-Resolves}
use go_api_boot.Container.Memo.{resolve-resolve}
use go_api_boot.Container.Termination.{
  Takes, first, later, Ranked, IsComplete, Needs, itself, through, Blame, resolve_total,
  resolve-Blame,
}

abbrev sum : List ℕ → ℕ
sum [] = 0
sum (x ∷ xs) = x + sum xs

-- A factory that logs its call in the world.
abbrev logging : ℕ → List ℕ → Factory ℕ (List ℕ)
logging t ins = record { ins = ins; run = λ args log. (t + sum args, t ∷ log) }

abbrev providers : Dict ℕ (Factory ℕ (List ℕ))
providers = (1, logging 1 []) ∷ (2, logging 2 (1 ∷ [])) ∷ []

abbrev start : Container ℕ (List ℕ)
start = record { singletons = []; providers = providers; world = [] }

-- The dependency is made first, and each provider is called once.
run_two : resolve 3 2 start ≡ (
  ok 3,
  record { singletons = (1, 1) ∷ (2, 3) ∷ []; providers = providers; world = 2 ∷ 1 ∷ [] },
)
unfolding resolve resolve_miss provide invoke resolve_args call memoise lookup insert
run_two = refl

run_missing : resolve 3 5 start ≡ (err (no_provider 5), start)
unfolding resolve resolve_miss provide lookup
run_missing = refl

Takes-nil : (s : ℕ) (l : List ℕ) → l ≡ [] → ¬ Takes l s
Takes-nil s [] e m = elim m [ ]
Takes-nil s (_ ∷ _) e first = cc e
Takes-nil s (_ ∷ _) e (later m) = cc e

Takes-one : (s t : ℕ) (l : List ℕ) → l ≡ t ∷ [] → Takes l s → s ≡ t
Takes-one s t [] e m = elim m [ ]
Takes-one s t (_ ∷ l) e first = ground arith
Takes-one s t (_ ∷ l) e (later m) = absurd (Takes-nil s l (ground arith) m)

-- Only type 2 has a provider with a parameter, of type 1.
only_two :
    (t s : ℕ) (p : Factory ℕ (List ℕ))
    → lookup t providers ≡ some p
    → Takes p.ins s
    → (t ≡ 2) × (s ≡ 1)
unfolding lookup
only_two t s p h m = elim (Bool-cases (1 == t)) [
  | inl e ↦ absurd (Takes-nil s p.ins (ground arith) m)
  | inr e ↦ elim (Bool-cases (2 == t)) [
    | inl f ↦ (sym ((==_iff 2 t).0 f), Takes-one s 1 p.ins (ground arith) m)
    | inr f ↦ cc (rw (e, f) at h)
  ]
]

start-Ranked : Ranked (λ t. t) providers
start-Ranked t p h s m = omega (arith, only_two t s p h m)

Needs-two : {t s : ℕ} → Needs providers t s → t ≡ s ⊎ s ≡ 1
Needs-two itself = inl refl
Needs-two {t} {s} (through {s = u} p h m n) = elim (Needs-two n) [
  | inl e ↦ inr (sym e ∙ (only_two t u p h m).1)
  | inr e ↦ inr e
]

two-IsComplete : IsComplete start 2
unfolding lookup
two-IsComplete s n fresh = elim (Needs-two n) [ inl e ↦ rw (← e) (cc) | inr e ↦ rw e (cc) ]

resolve_total_example : (v : ℕ) × ((resolve 3 2 start).0 ≡ ok v)
resolve_total_example = resolve_total (λ t. t) 3 2 start start-Ranked two-IsComplete (omega arith)

resolve-Blame_example : Blame start 5 (no_provider 5)
unfolding resolve resolve_miss provide lookup
resolve-Blame_example =
    resolve-Blame (λ t. t) 6 5 start start-Ranked (omega arith) (no_provider 5) refl

resolve-resolve_example : resolve 1 2 (resolve 3 2 start).1 ≡ (ok 3, (resolve 3 2 start).1)
resolve-resolve_example = resolve-resolve 3 0 2 start (ap (λ o. o.0) run_two)

resolve-Resolves_example :
    Resolves start 2 3 (resolve 3 2 start).1
    ↔ ((f : ℕ) × (resolve f 2 start ≡ (ok 3, (resolve 3 2 start).1)))
resolve-Resolves_example = resolve-Resolves start 2 3 (resolve 3 2 start).1

-- Two providers that need each other.
abbrev knot : Dict ℕ (Factory ℕ (List ℕ))
knot = (1, logging 1 (2 ∷ [])) ∷ (2, logging 2 (1 ∷ [])) ∷ []

abbrev knotted : Container ℕ (List ℕ)
knotted = record { singletons = []; providers = knot; world = [] }

knotted-IsCycle : IsCycle (λ t. (t ≡ 1) ⊎ (t ≡ 2)) knotted
unfolding lookup
knotted-IsCycle = record {
  takes = λ t m. elim m [
    | inl e ↦ (logging 1 (2 ∷ []), 2, rw e refl, first, inr refl)
    | inr e ↦ (logging 2 (1 ∷ []), 1, rw e refl, first, inl refl)
  ];
  fresh = λ t m. refl;
}

cycle_fails_example : (e : Fault) × ((resolve 100 1 knotted).0 ≡ err e)
cycle_fails_example = cycle_fails (λ t. (t ≡ 1) ⊎ (t ≡ 2)) knotted 1 100 knotted-IsCycle (inl refl)
