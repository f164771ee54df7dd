-- ===== src/Server/Ending.antt =====
-- When Serve returns: in every state on the way to the end it has a move.
use go_api_boot.Base.{
  ◌+◌, ◌≤◌, List, [], ◌∷◌, Bool, true, false, Bool-cases, ◌||◌, none, some, ◌≡◌, refl, ◌≢◌, ◌⊎◌,
  arith, inl, inr, All, length, Option-cases, subst,
}
use go_api_boot.Server.{
  Routine, ready, securing, running, ended, joining, Serving, Event, grpc_start, grpc_return,
  http_start, http_return, ssl_return, worker_start, worker_return, main_proceed, is_done, is_ended,
  proceed, step, start, run,
}
use go_api_boot.Server.Moves.{Option-some, run-cons}
use go_api_boot.Server.Invariant.{IsSound, is_returned, run-IsSound, start-IsSound}
use go_api_boot.Server.Measure.{is_own, is_due, remaining, remaining-le, run_own}

-- The context is done, and the worker has been interrupted, if there is one that has not ended.
pub record IsEnding (s : Serving) : Type 0 where
  pub context : is_done s ≡ true
  pub free : (is_ended s.worker || s.is_interrupted) ≡ true

step-IsEnding :
    (s : Serving) (e : Event) {t : Serving} → step s e ≡ some t → IsEnding s → IsEnding t
unfolding step proceed
step-IsEnding s e x h = ground arith

-- A move that is possible as long as Serve has not returned.
abbrev join_move : Routine → Routine → Routine → Event
join_move ready h w = grpc_start
join_move running h w = grpc_return
join_move securing h w = grpc_return
join_move ended ready w = http_start
join_move ended securing w = ssl_return
join_move ended running w = http_return
join_move ended ended ready = worker_start
join_move ended ended running = worker_return
join_move ended ended securing = worker_return
join_move ended ended ended = main_proceed

abbrev pub next_move : Serving → Event
next_move s = elim s.place [ joining ↦ join_move s.grpc s.http s.worker | _ ↦ main_proceed ]

pub next_move-due : (s : Serving) → is_due (next_move s) ≡ true
next_move-due s = ground arith

pub step-next_move :
    (s : Serving)
    → IsSound s
    → IsEnding s
    → is_returned s.place ≡ false
    → step s (next_move s) ≢ none
unfolding step proceed
step-next_move s h k r = ground arith

run-IsEnding :
    (es : List Event) (s : Serving) {t : Serving} → run es s ≡ some t → IsEnding s → IsEnding t
unfolding run
run-IsEnding [] s x h = subst IsEnding (Option-some x) h
run-IsEnding (e ∷ es) s x h =
    let (u, y, z) = run-cons e es s x in run-IsEnding es u z (step-IsEnding s e y h)

-- A server without a worker needs no interrupt.
step_free :
    (s : Serving) (e : Event) {t : Serving}
    → step s e ≡ some t
    → (is_ended s.worker || s.is_interrupted) ≡ true
    → (is_ended t.worker || t.is_interrupted) ≡ true
unfolding step proceed
step_free s e x h = ground arith

pub run_free :
    (es : List Event) (s : Serving) {t : Serving}
    → run es s ≡ some t
    → (is_ended s.worker || s.is_interrupted) ≡ true
    → (is_ended t.worker || t.is_interrupted) ≡ true
unfolding run
run_free [] s x h = subst (λ u. (is_ended u.worker || u.is_interrupted) ≡ true) (Option-some x) h
run_free (e ∷ es) s x h = let (u, y, z) = run-cons e es s x in run_free es u z (step_free s e y h)

pub start_free :
    (b c : Bool) → (is_ended (start false b c).worker || (start false b c).is_interrupted) ≡ true
unfolding start
start_free b c = refl

-- These moves from `s` to `t` are no more than what remained to be done, at most 14, and Serve has
-- returned or a move is due that is possible, which is no failure.
abbrev pub Progresses : List Event → Serving → Serving → Type 0
Progresses es s t =
    (length es + remaining t ≤ remaining s)
    × (remaining s ≤ 14)
    × ((is_returned t.place ≡ true)
        ⊎ ((e : Event) × (u : Serving) × (is_due e ≡ true) × (step t e ≡ some u)))

pub run-Progresses :
    (es : List Event) (s : Serving) (t : Serving) (e : Event)
    → All (λ e. is_own e ≡ true) es
    → run es s ≡ some t
    → is_due e ≡ true
    → (is_returned t.place ≡ false → step t e ≢ none)
    → Progresses es s t
run-Progresses es s t e os x o next = (
  run_own es s os x,
  remaining-le s,
  elim (Bool-cases (is_returned t.place)) [
    | inl r ↦ inl r
    | inr r ↦ elim (Option-cases (step t e)) [
      | inl n ↦ absurd (next r n)
      | inr (u, z) ↦ inr (e, u, o, z)
    ]
  ],
)

-- From every state that Serve can reach in which its context is done, and the worker is interrupted
-- or has ended, each run of moves of its own, in whatever order, is no longer than what remains to
-- be done, at most 14 moves, and Serve has either returned at the end, or a move is possible that is
-- due and no failure: so it returns, without the help of a failure.
pub serve_returns :
    (has_worker is_ssl is_blocking : Bool) (before es : List Event) (s t : Serving)
    → run before (start has_worker is_ssl is_blocking) ≡ some s
    → IsEnding s
    → All (λ e. is_own e ≡ true) es
    → run es s ≡ some t
    → Progresses es s t
serve_returns a b c before es s t x k o y =
    let h = run-IsSound es s y (run-IsSound before (start a b c) x (start-IsSound a b c)) in
    let k' = run-IsEnding es s y k in
    run-Progresses es s t (next_move t) o y (next_move-due t) (step-next_move t h k')
