-- ===== src/Server/Secured.antt =====
-- BootServer.Serve of server/server.go with an SSL provider, when the servers are told to stop from
-- elsewhere: its second goroutine is in the provider's Run.
use go_api_boot.Base.{List, [], ◌∷◌, Bool, true, false, ◌||◌, some, ◌≡◌, arith, All, subst}
use go_api_boot.Server.{
  waiting, Serving, Event, cancel, grpc_fail, ssl_fail, worker_fail, is_done, is_ready, is_securing,
  proceed, step, start, run,
}
use go_api_boot.Server.Moves.{Option-some, run-cons}
use go_api_boot.Server.Invariant.{IsSound, run-IsSound, start-IsSound, run-settings}

-- The moves in which nothing cancels the context, and no goroutine fails.
abbrev pub is_calm : Event → Bool
is_calm cancel = false
is_calm (grpc_fail _) = false
is_calm (ssl_fail _) = false
is_calm (worker_fail _) = false
is_calm _ = true

-- The second goroutine waits for the context, which is not done, and Serve as well.
pub record IsHeld (s : Serving) : Type 0 where
  pub blocked : (s.is_ssl ≡ true) × (s.is_blocking ≡ true)
  pub context : is_done s ≡ false
  pub served : is_ready s.grpc ≡ false
  pub secured : (is_ready s.http || is_securing s.http) ≡ true
  pub place : s.place ≡ waiting

step-IsHeld :
    (s : Serving) (e : Event) {t : Serving}
    → is_calm e ≡ true
    → step s e ≡ some t
    → IsHeld s
    → IsHeld t
unfolding step proceed
step-IsHeld s e o x h = ground arith

run-IsHeld :
    (es : List Event) (s : Serving) {t : Serving}
    → All (λ e. is_calm e ≡ true) es
    → run es s ≡ some t
    → IsHeld s
    → IsHeld t
unfolding run
run-IsHeld [] s o x h = subst IsHeld (Option-some x) h
run-IsHeld (e ∷ es) s (o, os) x h =
    let (u, y, z) = run-cons e es s x in run-IsHeld es u os z (step-IsHeld s e o y h)

IsSound-IsHeld :
    (s : Serving)
    → IsSound s
    → s.is_ssl ≡ true
    → s.is_blocking ≡ true
    → is_done s ≡ false
    → is_ready s.grpc ≡ false
    → IsHeld s
IsSound-IsHeld s h ssl blocking d g = record {
  blocked = (ssl, blocking);
  context = d;
  served = g;
  secured = ground arith;
  place = ground arith;
}

-- With an SSL provider whose Run returns nil only when its context is done, once the gRPC server was
-- started, and while the context is not done, Serve stays where it waits for the context, whatever
-- happens without a failure of the gRPC server, the provider or the worker, and without a cancelled
-- context: also when both servers are told to stop, by the two calls of Shutdown.
pub secured_waits :
    (has_worker : Bool) (before es : List Event) (s t : Serving)
    → run before (start has_worker true true) ≡ some s
    → is_done s ≡ false
    → is_ready s.grpc ≡ false
    → All (λ e. is_calm e ≡ true) es
    → run es s ≡ some t
    → (t.place ≡ waiting) × (is_done t ≡ false)
unfolding start
secured_waits a before es s t x d g o y =
    let h = run-IsSound before (start a true true) x (start-IsSound a true true) in
    let (ssl, blocking) = run-settings before (start a true true) x in
    let held = run-IsHeld es s o y (IsSound-IsHeld s h ssl blocking d g) in
    (held.place, held.context)
