-- ===== src/Rest.antt =====
-- server/rest_controller.go: the routes of a REST controller, and the filter on a route's method.
use go_api_boot.Base.{
  ◌≡◌, refl, Str, codes, not, some, ◌==◌, ==_iff, str_eq, str_beq, if◌then◌else◌, Bool-cases, ◌⊎◌,
  ◌≢◌, inl, inr,
}
use go_api_boot.Http.{Header, Response, http_error, status, status-http_error, fresh}

-- What the program reads of an *http.Request.
pub record HttpRequest : Type 0 where
  pub method : Str
  pub path : Str
  pub header : Header
  pub body : Str

-- http.HandlerFunc: a handler answers by the response writer, and may change the world `W`.
abbrev pub HandlerFunc : Type 0 → Type 0
HandlerFunc W = HttpRequest → Response × W → Response × W

pub record Route (W : Type 0) : Type 0 where
  pub pattern : Str
  pub method : Str
  pub handler : HandlerFunc W

module _ {W : Type 0} where
  -- The handler that filters: http.Error, or the route's handler.
  unfoldable pub only_method : Str → HandlerFunc W → HandlerFunc W
  unfolding str_beq
  only_method method handler r (w, world) =
      if not (r.method == method)
      then (http_error (codes "Method Not Allowed") 405 w, world)
      else handler r (w, world)

  -- methodFilterHandler
  unfoldable pub method_filter_handler : Str → HandlerFunc W → HandlerFunc W
  unfolding only_method str_beq
  method_filter_handler method handler =
      if method == codes "" then handler else only_method method handler

  -- A filtered handler is the route's handler on a request of the route's method, and on every
  -- request if the route has no method; on any other request the answer to a fresh writer has the
  -- status 405, and the world is as before.
  pub method_filter_handler_cases :
      (method : Str) (handler : HandlerFunc W) (r : HttpRequest) (world : W)
      → (((method ≡ codes "") ⊎ (r.method ≡ method))
          × (method_filter_handler method handler r (fresh, world) ≡ handler r (fresh, world)))
        ⊎ ((r.method ≢ method)
            × (status (method_filter_handler method handler r (fresh, world)).0 ≡ some 405)
            × ((method_filter_handler method handler r (fresh, world)).1 ≡ world))
  unfolding method_filter_handler only_method status
  method_filter_handler_cases method handler r world = elim (Bool-cases (method == codes "")) [
    | inl e ↦ inl (inl ((==_iff method (codes "")).0 e), rw e refl)
    | inr e ↦ elim (Bool-cases (r.method == method)) [
      | inl f ↦ inl (inr ((==_iff r.method method).0 f), rw (e, f) refl)
      | inr f ↦ inr (
        (λ same. cc (f, (==_iff r.method method).1 same)),
        rw (e, f) (status-http_error (codes "Method Not Allowed") 405 fresh),
        rw (e, f) refl,
      )
    ]
  ]
