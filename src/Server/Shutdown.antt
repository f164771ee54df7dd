-- ===== src/Server/Shutdown.antt =====
-- BootServer.Shutdown of server/server.go, called from elsewhere while Serve waits.
use go_api_boot.Base.{
  List, [], ◌∷◌, ◌++◌, Bool, Bool-cases, inl, inr, true, false, ◌||◌, none, some, ◌≡◌, ◌≢◌, refl,
  arith, All, subst, if◌then◌else◌,
}
use go_api_boot.Server.{
  Routine, ready, running, Serving, Event, http_start, http_return, main_proceed, outside_stop,
  outside_shutdown, is_done, is_ended, is_securing, proceed, step, start, run,
}
use go_api_boot.Server.Moves.{Option-some, run-cons, run-append}
use go_api_boot.Server.Invariant.{IsSound, is_returned, run-IsSound, start-IsSound}
use go_api_boot.Server.Measure.{is_own, is_due}
use go_api_boot.Server.Ending.{
  Progresses, run-Progresses, run_free, next_move, next_move-due, step-next_move,
}

-- There is no provider, and none runs.
record IsPlain (s : Serving) : Type 0 where
  open_http : s.is_ssl ≡ false
  unsecured : is_securing s.http ≡ false

step-IsPlain : (s : Serving) (e : Event) {t : Serving} → step s e ≡ some t → IsPlain s → IsPlain t
unfolding step proceed
step-IsPlain s e x h = ground arith

run-IsPlain :
    (es : List Event) (s : Serving) {t : Serving} → run es s ≡ some t → IsPlain s → IsPlain t
unfolding run
run-IsPlain [] s x h = subst IsPlain (Option-some x) h
run-IsPlain (e ∷ es) s x h =
    let (u, y, z) = run-cons e es s x in run-IsPlain es u z (step-IsPlain s e y h)

start-IsPlain : (a c : Bool) → IsPlain (start a false c)
unfolding start
start-IsPlain a c = record { open_http = refl; unsecured = refl }

-- Both servers were told to stop, and the worker has ended or was interrupted.
record IsShut (s : Serving) : Type 0 where
  stopped : s.is_grpc_stopped ≡ true
  shut : s.is_http_shut ≡ true
  free : (is_ended s.worker || s.is_interrupted) ≡ true

-- A server that was told to stop stays so.
step-stopped :
    (s : Serving) (e : Event) {t : Serving}
    → step s e ≡ some t
    → s.is_grpc_stopped ≡ true
    → t.is_grpc_stopped ≡ true
unfolding step proceed
step-stopped s e x h = ground arith

step-shut :
    (s : Serving) (e : Event) {t : Serving}
    → step s e ≡ some t
    → s.is_http_shut ≡ true
    → t.is_http_shut ≡ true
unfolding step proceed
step-shut s e x h = ground arith

run-stopped :
    (es : List Event) (s : Serving) {t : Serving}
    → run es s ≡ some t
    → s.is_grpc_stopped ≡ true
    → t.is_grpc_stopped ≡ true
unfolding run
run-stopped [] s x h = subst (λ u. u.is_grpc_stopped ≡ true) (Option-some x) h
run-stopped (e ∷ es) s x h =
    let (u, y, z) = run-cons e es s x in run-stopped es u z (step-stopped s e y h)

run-shut :
    (es : List Event) (s : Serving) {t : Serving}
    → run es s ≡ some t
    → s.is_http_shut ≡ true
    → t.is_http_shut ≡ true
unfolding run
run-shut [] s x h = subst (λ u. u.is_http_shut ≡ true) (Option-some x) h
run-shut (e ∷ es) s x h = let (u, y, z) = run-cons e es s x in run-shut es u z (step-shut s e y h)

-- The two calls of Shutdown tell the servers to stop.
stop_stops : (s : Serving) {t : Serving} → step s outside_stop ≡ some t → t.is_grpc_stopped ≡ true
unfolding step
stop_stops s x = ground arith

shutdown_shuts :
    (s : Serving) {t : Serving} → step s outside_shutdown ≡ some t → t.is_http_shut ≡ true
unfolding step
shutdown_shuts s x = ground arith

-- A run in which Shutdown makes its two calls, with other moves around them.
abbrev pub with_shutdown : List Event → List Event → List Event → List Event
with_shutdown before between after =
    before ++ (outside_stop ∷ between ++ (outside_shutdown ∷ after))

with_shutdown-stops :
    (before between after : List Event) (s : Serving) {t : Serving}
    → run (with_shutdown before between after) s ≡ some t
    → (t.is_grpc_stopped ≡ true) × (t.is_http_shut ≡ true)
with_shutdown-stops before between after s x =
    let (s1, _, x1) =
      run-append before (outside_stop ∷ between ++ (outside_shutdown ∷ after)) s x in
    let (s2, y2, x2) = run-cons outside_stop (between ++ (outside_shutdown ∷ after)) s1 x1 in
    let (s3, y3, x3) = run-append between (outside_shutdown ∷ after) s2 x2 in
    let (s4, y4, x4) = run-cons outside_shutdown after s3 x3 in
    (
      run-stopped (between ++ (outside_shutdown ∷ after)) s2 x2 (stop_stops s1 y2),
      run-shut after s4 x4 (shutdown_shuts s3 y4),
    )

-- The end of the HTTP server is what makes the context done.
abbrev http_move : Routine → Event
http_move ready = http_start
http_move running = http_return
http_move _ = main_proceed

abbrev shut_move : Serving → Event
shut_move s = if is_done s then next_move s else http_move s.http

http_move-due : (r : Routine) → is_due (http_move r) ≡ true
http_move-due r = ground arith

step-http_move :
    (s : Serving)
    → IsSound s
    → IsPlain s
    → IsShut s
    → is_done s ≡ false
    → step s (http_move s.http) ≢ none
unfolding step proceed
step-http_move s h p k d = ground arith

shut_move-due : (s : Serving) → is_due (shut_move s) ≡ true
shut_move-due s = elim (Bool-cases (is_done s)) [
  | inl e ↦ rw e (next_move-due s)
  | inr e ↦ rw e (http_move-due s.http)
]

step-shut_move :
    (s : Serving)
    → IsSound s
    → IsPlain s
    → IsShut s
    → is_returned s.place ≡ false
    → step s (shut_move s) ≢ none
step-shut_move s h p k r = elim (Bool-cases (is_done s)) [
  | inl e ↦ rw e (step-next_move s h (record { context = e; free = k.free }) r)
  | inr e ↦ rw e (step-http_move s h p k e)
]

-- Without an SSL provider, behind every run in which Shutdown has made its two calls, and behind
-- which the worker is interrupted or has ended, each run of moves of Serve's own, in whatever order,
-- is at most 14 moves, and Serve has either returned at the end, or a move is possible that is due
-- and no failure: so Serve returns behind Shutdown, whether or not its context is cancelled.
pub shutdown_unblocks :
    (has_worker is_blocking : Bool) (before between after es : List Event) (s t : Serving)
    → run (with_shutdown before between after) (start has_worker false is_blocking) ≡ some s
    → (is_ended s.worker || s.is_interrupted) ≡ true
    → All (λ e. is_own e ≡ true) es
    → run es s ≡ some t
    → Progresses es s t
shutdown_unblocks a c before between after es s t x free o y =
    let path = with_shutdown before between after in
    let h = run-IsSound es s y (run-IsSound path (start a false c) x (start-IsSound a false c)) in
    let p = run-IsPlain es s y (run-IsPlain path (start a false c) x (start-IsPlain a c)) in
    let (stopped, shut) = with_shutdown-stops before between after (start a false c) x in
    let k : IsShut t = record {
      stopped = run-stopped es s y stopped;
      shut = run-shut es s y shut;
      free = run_free es s y free;
    } in
    run-Progresses es s t (shut_move t) o y (shut_move-due t) (step-shut_move t h p k)
