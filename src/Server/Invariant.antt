-- ===== src/Server/Invariant.antt =====
-- What holds of Serve between two moves.
use go_api_boot.Base.{
  List, [], ◌∷◌, Bool, true, false, Option, some, ◌≡◌, refl, arith, Option-cases, inl, inr, ◌∙◌,
  sym, ap, subst,
}
use go_api_boot.Server.Moves.{Option-some, run-cons}
use go_api_boot.Server.{
  Fault, running, ended, Place, waiting, stopping, shutting, returned, Serving, Event, cancel,
  is_none, is_done, is_securing, proceed, step, start, run,
}

-- Serve has called GracefulStop; http.Shutdown.
abbrev pub has_stopped : Place → Bool
has_stopped waiting = false
has_stopped stopping = false
has_stopped _ = true

abbrev pub has_shut : Place → Bool
has_shut waiting = false
has_shut stopping = false
has_shut shutting = false
has_shut _ = true

abbrev pub is_waiting : Place → Bool
is_waiting waiting = true
is_waiting _ = false

abbrev pub is_returned : Place → Bool
is_returned (returned _) = true
is_returned _ = false

-- Serve returns the error that the group keeps.
abbrev pub Answers : Place → Option Fault → Type 0
Answers (returned r) g = r ≡ g
Answers _ g = Unit

pub record IsSound (s : Serving) : Type 0 where
  pub left : is_waiting s.place ≡ false → is_done s ≡ true
  pub stopped : has_stopped s.place ≡ true → s.is_grpc_stopped ≡ true
  pub shut : has_shut s.place ≡ true → s.is_http_shut ≡ true
  pub http_error : s.http ≡ ended → is_none s.group ≡ false
  pub joined : is_returned s.place ≡ true → (s.grpc ≡ ended) × (s.http ≡ ended) × (s.worker ≡ ended)
  -- Only the second goroutine runs a provider.
  pub plain : (is_securing s.grpc ≡ false) × (is_securing s.worker ≡ false)
  pub answer : Answers s.place s.group
  pub secure : s.is_ssl ≡ true → s.is_blocking ≡ true → s.http ≡ running → is_done s ≡ true

pub start-IsSound : (a b c : Bool) → IsSound (start a b c)
unfolding start
start-IsSound true b c = record {
  left = λ h. cc h;
  stopped = λ h. cc h;
  shut = λ h. cc h;
  http_error = λ h. cc h;
  joined = λ h. cc h;
  plain = (refl, refl);
  answer = tt;
  secure = λ x y h. cc h;
}
start-IsSound false b c = record {
  left = λ h. cc h;
  stopped = λ h. cc h;
  shut = λ h. cc h;
  http_error = λ h. cc h;
  joined = λ h. cc h;
  plain = (refl, refl);
  answer = tt;
  secure = λ x y h. cc h;
}

pub step-IsSound :
    (s : Serving) (e : Event) {t : Serving} → step s e ≡ some t → IsSound s → IsSound t
unfolding step proceed
step-IsSound s cancel x h = ground arith
step-IsSound s e x h = ground arith

step-settings :
    (s : Serving) (e : Event) {t : Serving}
    → step s e ≡ some t
    → (t.is_ssl ≡ s.is_ssl) × (t.is_blocking ≡ s.is_blocking)
unfolding step proceed
step-settings s e x = ground arith

pub run-settings :
    (es : List Event) (s : Serving) {t : Serving}
    → run es s ≡ some t
    → (t.is_ssl ≡ s.is_ssl) × (t.is_blocking ≡ s.is_blocking)
unfolding run
run-settings [] s x =
    (ap (λ u. u.is_ssl) (sym (Option-some x)), ap (λ u. u.is_blocking) (sym (Option-some x)))
run-settings (e ∷ es) s x =
    let (u, y, z) = run-cons e es s x in
    let (a, b) = run-settings es u z in let (c, d) = step-settings s e y in (a ∙ c, b ∙ d)

pub run-IsSound :
    (es : List Event) (s : Serving) {t : Serving} → run es s ≡ some t → IsSound s → IsSound t
unfolding run
run-IsSound [] s x h = subst IsSound (Option-some x) h
run-IsSound (e ∷ es) s x h =
    let (u, y, z) = run-cons e es s x in run-IsSound es u z (step-IsSound s e y h)

abbrev pub IsOver : Serving → Option Fault → Type 0
IsOver t r =
    (e : Fault) × (r ≡ some e)
    × (t.group ≡ some e)
    × (is_done t ≡ true)
    × (t.is_grpc_stopped ≡ true)
    × (t.is_http_shut ≡ true)
    × (t.grpc ≡ ended)
    × (t.http ≡ ended)
    × (t.worker ≡ ended)

IsSound-returned : (t : Serving) (r : Option Fault) → IsSound t → t.place ≡ returned r → IsOver t r
IsSound-returned t r h y = elim (Option-cases t.group) [
  | inl g ↦ absurd (ground arith)
  | inr (e, g) ↦ (
    e,
    ground arith,
    g,
    ground arith,
    ground arith,
    ground arith,
    ground arith,
    ground arith,
    ground arith,
  )
]

-- However the calls of the servers, the provider, the worker and the caller interleave: when Serve
-- returns, its context was done, both servers were told to stop, all goroutines have ended, and the
-- result is the first error of the group. It is never nil: the HTTP server's own end is an error.
pub serve_result :
    (has_worker is_ssl is_blocking : Bool) (es : List Event) (t : Serving) (r : Option Fault)
    → run es (start has_worker is_ssl is_blocking) ≡ some t
    → t.place ≡ returned r
    → IsOver t r
serve_result a b c es t r x y =
    IsSound-returned t r (run-IsSound es (start a b c) x (start-IsSound a b c)) y

-- With a provider whose Run returns nil only when its context is done, as those of the package do,
-- the HTTP server does not serve before the context of Serve is done.
pub https_late :
    (has_worker : Bool) (es : List Event) (t : Serving)
    → run es (start has_worker true true) ≡ some t
    → t.http ≡ running
    → is_done t ≡ true
unfolding start
https_late a es t x y =
    let h = run-IsSound es (start a true true) x (start-IsSound a true true) in
    let (ssl, blocking) = run-settings es (start a true true) x in h.secure ssl blocking y
