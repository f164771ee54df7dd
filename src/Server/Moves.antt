-- ===== src/Server/Moves.antt =====
-- Runs of Serve, taken apart and put together.
use go_api_boot.Base.{List, [], ◌∷◌, ◌++◌, some, Option-cases, ◌≡◌, refl, inl, inr}
use go_api_boot.Server.{Serving, Event, step, run}

pub Option-some {ℓ} : {A : Type ℓ} {a b : A} → some a ≡ some b → a ≡ b
Option-some x = cc x

pub run-cons :
    (e : Event) (es : List Event) (s : Serving) {t : Serving}
    → run (e ∷ es) s ≡ some t
    → (u : Serving) × (step s e ≡ some u) × (run es u ≡ some t)
unfolding run
run-cons e es s x = elim (Option-cases (step s e)) [
  | inl y ↦ cc (rw (y, run) at x)
  | inr (u, y) ↦ (u, y, rw (y, run) at x)
]

pub run-append :
    (es bs : List Event) (s : Serving) {t : Serving}
    → run (es ++ bs) s ≡ some t
    → (u : Serving) × (run es s ≡ some u) × (run bs u ≡ some t)
unfolding run
run-append [] bs s x = (s, refl, x)
run-append (e ∷ es) bs s x =
    let (u, y, z) = run-cons e (es ++ bs) s x in
    let (v, a, b) = run-append es bs u z in (v, rw (y, run) a, b)
