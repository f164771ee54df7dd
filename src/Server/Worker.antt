-- ===== src/Server/Worker.antt =====
-- What the Temporal worker means for the end of Serve.
use go_api_boot.Base.{
  List, [], ◌∷◌, Bool, true, false, Bool-cases, some, ◌≡◌, refl, arith, inl, inr, All, subst,
}
use go_api_boot.Server.{Serving, Event, interrupt, worker_fail, is_ended, proceed, step, start, run}
use go_api_boot.Server.Moves.{Option-some, run-cons}
use go_api_boot.Server.Invariant.{is_returned, run-IsSound, start-IsSound}

-- The moves in which the worker does not end.
abbrev pub spares_worker : Event → Bool
spares_worker interrupt = false
spares_worker (worker_fail _) = false
spares_worker _ = true

-- The worker is there, and was not interrupted.
record IsBusy (s : Serving) : Type 0 where
  there : is_ended s.worker ≡ false
  calm : s.is_interrupted ≡ false

step-IsBusy :
    (s : Serving) (e : Event) {t : Serving}
    → spares_worker e ≡ true
    → step s e ≡ some t
    → IsBusy s
    → IsBusy t
unfolding step proceed
step-IsBusy s e o x h = ground arith

run-IsBusy :
    (es : List Event) (s : Serving) {t : Serving}
    → All (λ e. spares_worker e ≡ true) es
    → run es s ≡ some t
    → IsBusy s
    → IsBusy t
unfolding run
run-IsBusy [] s o x h = subst IsBusy (Option-some x) h
run-IsBusy (e ∷ es) s (o, os) x h =
    let (u, y, z) = run-cons e es s x in run-IsBusy es u os z (step-IsBusy s e o y h)

-- With a Temporal worker, Serve does not return unless the process is interrupted or the worker
-- fails: not when its context is cancelled, and not when a server fails.
pub worker_holds :
    (is_ssl is_blocking : Bool) (es : List Event) (t : Serving)
    → All (λ e. spares_worker e ≡ true) es
    → run es (start true is_ssl is_blocking) ≡ some t
    → is_returned t.place ≡ false
unfolding start
worker_holds b c es t o x =
    let busy = run-IsBusy es (start true b c) o x (record { there = refl; calm = refl }) in
    let h = run-IsSound es (start true b c) x (start-IsSound true b c) in
    elim (Bool-cases (is_returned t.place)) [ inl r ↦ absurd (ground arith) | inr r ↦ r ]
