-- ===== src/Server/Measure.antt =====
-- How much Serve and its goroutines have left to do: each move of theirs leaves less.
use go_api_boot.Base.{
  ℕ, ◌+◌, ◌≤◌, ◌<◌, List, [], ◌∷◌, Bool, true, false, Bool-cases, ◌&&◌, some, ◌≡◌, refl, arith, inl,
  inr, All, length, ap,
}
use go_api_boot.Server.{
  Fault, Routine, ready, securing, running, ended, Place, waiting, stopping, shutting, closing,
  joining, returned, Serving, Event, cancel, interrupt, outside_stop, outside_shutdown, grpc_start,
  grpc_return, grpc_fail, http_start, http_return, http_fail, ssl_return, ssl_fail, worker_start,
  worker_return, worker_fail, main_proceed, is_done, is_ended, is_securing, is_running, is_ready,
  start_grpc, start_http, end_ssl, proceed_from, allow, proceed, step, run,
}
use go_api_boot.Server.Moves.{Option-some, run-cons}

-- The moves of Serve and its goroutines; the others are those of the world around.
abbrev pub is_own : Event → Bool
is_own cancel = false
is_own interrupt = false
is_own outside_stop = false
is_own outside_shutdown = false
is_own _ = true

-- The moves that are due: a call that is made, that returns because it was told to, or the next call
-- of Serve. No failure is due.
abbrev pub is_due : Event → Bool
is_due grpc_start = true
is_due grpc_return = true
is_due http_start = true
is_due http_return = true
is_due ssl_return = true
is_due worker_start = true
is_due worker_return = true
is_due main_proceed = true
is_due _ = false

-- How much a goroutine, and Serve, have to do at most.
abbrev pub left : Routine → ℕ
left ready = 3
left securing = 2
left running = 1
left ended = 0

abbrev pub left_at : Place → ℕ
left_at waiting = 5
left_at stopping = 4
left_at shutting = 3
left_at closing = 2
left_at joining = 1
left_at (returned _) = 0

abbrev pub remaining : Serving → ℕ
remaining s = left s.grpc + left s.http + left s.worker + left_at s.place

left_ready : (r : Routine) → is_ready r ≡ true → left r ≡ 3
left_ready r h = ground arith

left_securing : (r : Routine) → is_securing r ≡ true → left r ≡ 2
left_securing r h = ground arith

left_running : (r : Routine) → is_running r ≡ true → left r ≡ 1
left_running r h = ground arith

and_first : (a b : Bool) → (a && b) ≡ true → a ≡ true
and_first a b h = ground arith

-- A move that is allowed by a test of a routine `r`, and leaves it with less to do.
allowed :
    (b : Bool) (s u : Serving) {t : Serving}
    → allow b u ≡ some t
    → (b ≡ true → remaining u < remaining s)
    → remaining t < remaining s
allowed true s u x h = rw (← Option-some x) (h refl)
allowed false s u x h = cc x

start_grpc-remaining : (s : Serving) → left s.grpc ≡ 3 → remaining (start_grpc s) < remaining s
start_grpc-remaining s h = elim (Bool-cases s.is_grpc_stopped) [
  | inl e ↦ simp e (omega (arith, h))
  | inr e ↦ simp e (omega (arith, h))
]

start_http-remaining : (s : Serving) → left s.http ≡ 3 → remaining (start_http s) < remaining s
start_http-remaining s h = elim (Bool-cases s.is_ssl) [
  | inl e ↦ simp e (omega (arith, h))
  | inr e ↦ simp e (omega (arith, h))
]

end_ssl-remaining :
    (e : Fault) (s : Serving) → left s.http ≡ 2 → remaining (end_ssl e s) < remaining s
end_ssl-remaining e s h = elim (Bool-cases (is_done s)) [
  | inl x ↦ simp x (omega (arith, h))
  | inr x ↦ simp x (omega (arith, h))
]

proceed_from-remaining :
    (p : Place) (s : Serving) {t : Serving}
    → s.place ≡ p
    → proceed_from p s ≡ some t
    → remaining t < remaining s
proceed_from-remaining waiting s h x =
    allowed (is_done s) s (record s { place = stopping }) x λ b. omega (arith, ap left_at h)
proceed_from-remaining stopping s h x = rw (← Option-some x) (omega (arith, ap left_at h))
proceed_from-remaining shutting s h x = rw (← Option-some x) (omega (arith, ap left_at h))
proceed_from-remaining closing s h x = rw (← Option-some x) (omega (arith, ap left_at h))
proceed_from-remaining joining s h x =
    allowed (is_ended s.grpc && is_ended s.http && is_ended s.worker) s
      (record s { place = returned s.group }) x λ b. omega (arith, ap left_at h)
proceed_from-remaining (returned r) s h x = cc x

proceed-remaining : (s : Serving) {t : Serving} → proceed s ≡ some t → remaining t < remaining s
unfolding proceed
proceed-remaining s x = proceed_from-remaining s.place s refl x

-- A move of Serve's own leaves less to do.
step-remaining :
    (s : Serving) (e : Event) {t : Serving}
    → is_own e ≡ true
    → step s e ≡ some t
    → remaining t < remaining s
unfolding step
step-remaining s grpc_start o x =
    allowed (is_ready s.grpc) s _ x λ b. start_grpc-remaining s (left_ready s.grpc b)
step-remaining s grpc_return o x =
    allowed _ s _ x λ b. omega (arith, left_running s.grpc (and_first _ _ b))
step-remaining s (grpc_fail e) o x = allowed _ s _ x λ b. omega (arith, left_running s.grpc b)
step-remaining s http_start o x =
    allowed (is_ready s.http) s _ x λ b. start_http-remaining s (left_ready s.http b)
step-remaining s http_return o x =
    allowed _ s _ x λ b. omega (arith, left_running s.http (and_first _ _ b))
step-remaining s (http_fail e) o x = allowed _ s _ x λ b. omega (arith, left_running s.http b)
step-remaining s ssl_return o x =
    allowed _ s _ x λ b. omega (arith, left_securing s.http (and_first _ _ b))
step-remaining s (ssl_fail e) o x =
    allowed (is_securing s.http) s _ x λ b. end_ssl-remaining e s (left_securing s.http b)
step-remaining s worker_start o x = allowed _ s _ x λ b. omega (arith, left_ready s.worker b)
step-remaining s worker_return o x =
    allowed _ s _ x λ b. omega (arith, left_running s.worker (and_first _ _ b))
step-remaining s (worker_fail e) o x = allowed _ s _ x λ b. omega (arith, left_running s.worker b)
step-remaining s main_proceed o x = proceed-remaining s x
step-remaining s cancel o x = cc o
step-remaining s interrupt o x = cc o
step-remaining s outside_stop o x = cc o
step-remaining s outside_shutdown o x = cc o

left_le : (r : Routine) → left r ≤ 3
left_le r = ground arith

left_at_le : (p : Place) → left_at p ≤ 5
left_at_le p = ground arith

pub remaining-le : (s : Serving) → remaining s ≤ 14
remaining-le s = omega (arith, left_le s.grpc, left_le s.http, left_le s.worker, left_at_le s.place)

pub run_own :
    (es : List Event) (s : Serving) {t : Serving}
    → All (λ e. is_own e ≡ true) es
    → run es s ≡ some t
    → length es + remaining t ≤ remaining s
unfolding run
run_own [] s o x = rw (Option-some x) (omega arith)
run_own (e ∷ es) s (o, os) x =
    let (u, y, z) = run-cons e es s x in omega (arith, step-remaining s e o y, run_own es u os z)
