-- ===== src/WebProxy/Body.antt =====
-- What the client of the proxy receives, for plain and for text requests.
use go_api_boot.Base.{
  ℕ, Str, List, [], ◌∷◌, ◌++◌, map, append-nil, append_assoc, Bool, true, false, Bool-cases, inl,
  inr, ◌||◌, concat, ◌≡◌, refl, sym, ap, ◌∙◌, arith,
}
use go_api_boot.Http
use go_api_boot.Http.{Response}
use go_api_boot.WebProxy.Base64.{
  group, encode, full_groups, encoder_write, encoder_close, full_groups-encode,
}
use go_api_boot.WebProxy.Trailers.{trailer_header}
use go_api_boot.WebProxy.{Call, change_header, write, write_header, flush, perform, perform_all}
use go_api_boot.WebProxy.Writer
use go_api_boot.WebProxy.Writer.{
  Wrapped, plain, base64, underlying, put_header, emit, wrapped_write, wrapped_write_header,
  flush_writer, WebProxyResponse, prepare_headers, trailer_payload, copy_trailers_to_payload,
  finish_request, get_web_proxy_response,
}

full_groups-append :
    (s t : Str)
    → ((full_groups s).0 ++ (full_groups ((full_groups s).1 ++ t)).0 ≡ (full_groups (s ++ t)).0)
      × ((full_groups ((full_groups s).1 ++ t)).1 ≡ (full_groups (s ++ t)).1)
unfolding full_groups
full_groups-append [] t = (refl, refl)
full_groups-append (a ∷ []) t = (refl, refl)
full_groups-append (a ∷ b ∷ []) t = (refl, refl)
full_groups-append (a ∷ b ∷ c ∷ s) t =
    let (p, q) = full_groups-append s t in (ap (λ r. group a b c ++ r) p, q)

-- An encoding writer holds the bytes: those before the last flush in encoded parts, the rest in
-- the groups that are written and in the encoder.
pub record Encodes (base kept : Str) (r : Response) (bytes : Str) : Type 0 where
  pub parts : List Str
  pub current : Str
  pub body : r.body ≡ base ++ (concat (map encode parts) ++ (full_groups current).0)
  pub pending : kept ≡ (full_groups current).1
  pub spelled : bytes ≡ concat parts ++ current

-- Behind what was there before, the writer has got these bytes.
abbrev pub Carries : Str → Wrapped → Str → Type 0
Carries base (plain r) bytes = r.body ≡ base ++ bytes
Carries base (base64 kept r) bytes = Encodes base kept r bytes

body-write : (b : Str) (r : Response) → (Http.write b r).body ≡ r.body ++ b
unfolding Http.write Http.write_header
body-write b r = ground arith

body-write_header : (code : ℕ) (r : Response) → (Http.write_header code r).body ≡ r.body
unfolding Http.write_header
body-write_header code r = ground arith

body-emit : (b : Str) (r : Response) → (emit b r).body ≡ r.body ++ b
unfolding emit
body-emit [] r = sym (append-nil r.body)
body-emit (c ∷ b) r = body-write (c ∷ b) r

regroup : (a b c d : Str) → (a ++ (b ++ c)) ++ d ≡ a ++ (b ++ (c ++ d))
regroup a b c d = simp append_assoc

concat-snoc :
    (f : Str → Str) (xs : List Str) (x : Str)
    → concat (map f (xs ++ x ∷ [])) ≡ concat (map f xs) ++ f x
concat-snoc f [] x = append-nil (f x)
concat-snoc f (y ∷ xs) x =
    ap (λ t. f y ++ t) (concat-snoc f xs x) ∙ sym (append_assoc (f y) _ (f x))

concat-snoc_self : (xs : List Str) (x : Str) → concat (xs ++ x ∷ []) ≡ concat xs ++ x
concat-snoc_self [] x = append-nil x
concat-snoc_self (y ∷ xs) x = ap (λ t. y ++ t) (concat-snoc_self xs x) ∙ sym (append_assoc y _ x)

full_groups_closed : (s : Str) → (full_groups s).0 ++ encode (full_groups s).1 ≡ encode s
full_groups_closed s =
    ap (λ t. (full_groups s).0 ++ encode t) (sym (append-nil (full_groups s).1))
    ∙ full_groups-encode s []
    ∙ ap encode (append-nil s)

Carries-write :
    (base : Str) (w : Wrapped) (bytes b : Str)
    → Carries base w bytes
    → Carries base (wrapped_write b w) (bytes ++ b)
unfolding wrapped_write encoder_write
Carries-write base (plain r) bytes b h = rw (body-write b r, h) (append_assoc base bytes b)
Carries-write base (base64 kept r) bytes b h = record {
  parts = h.parts;
  current = h.current ++ b;
  body =
      rw (body-emit, h.body, h.pending, ← (full_groups-append h.current b).0)
        (regroup base (concat (map encode h.parts)) (full_groups h.current).0 _);
  pending = rw h.pending (full_groups-append h.current b).1;
  spelled = rw h.spelled (append_assoc (concat h.parts) h.current b);
}

Carries-put_header :
    (base : Str) (w : Wrapped) (bytes : Str) (h : Http.Header)
    → Carries base w bytes
    → Carries base (put_header h w) bytes
unfolding put_header
Carries-put_header base (plain r) bytes h c = c
Carries-put_header base (base64 kept r) bytes h c = record {
  parts = c.parts;
  current = c.current;
  body = c.body;
  pending = c.pending;
  spelled = c.spelled;
}

Carries-write_header :
    (base : Str) (w : Wrapped) (bytes : Str) (code : ℕ)
    → Carries base w bytes
    → Carries base (wrapped_write_header code w) bytes
unfolding wrapped_write_header
Carries-write_header base (plain r) bytes code c = body-write_header code r ∙ c
Carries-write_header base (base64 kept r) bytes code c = record {
  parts = c.parts;
  current = c.current;
  body = body-write_header code r ∙ c.body;
  pending = c.pending;
  spelled = c.spelled;
}

-- Behind a flush the encoder keeps nothing, and the body is whole encoded parts.
unfoldable pub Flushed : Str → Wrapped → Str → Type 0
Flushed base (plain r) bytes = r.body ≡ base ++ bytes
Flushed base (base64 kept r) bytes =
    (parts : List Str) × (kept ≡ [])
    × (r.body ≡ base ++ concat (map encode parts))
    × (bytes ≡ concat parts)

flush_writer-Flushed :
    (base : Str) (w : Wrapped) (bytes : Str)
    → Carries base w bytes
    → Flushed base (flush_writer w) bytes
unfolding flush_writer encoder_close Flushed
flush_writer-Flushed base (plain r) bytes c = body-write_header 200 r ∙ c
flush_writer-Flushed base (base64 kept r) bytes c = (
  c.parts ++ c.current ∷ [],
  refl,
  rw (
    body-write_header,
    body-emit,
    c.body,
    c.pending,
    regroup base (concat (map encode c.parts)) (full_groups c.current).0
        (encode (full_groups c.current).1),
    full_groups_closed,
    concat-snoc,
  ),
  c.spelled ∙ sym (concat-snoc_self c.parts c.current),
)

Flushed-Carries :
    (base : Str) (w : Wrapped) (bytes : Str) → Flushed base w bytes → Carries base w bytes
unfolding Flushed full_groups
Flushed-Carries base (plain r) bytes h = h
Flushed-Carries base (base64 kept r) bytes (parts, k, b, s) = record {
  parts = parts;
  current = [];
  body = b ∙ ap (λ t. base ++ t) (sym (append-nil (concat (map encode parts))));
  pending = k;
  spelled = s ∙ sym (append-nil (concat parts));
}

-- The writer encodes.
abbrev pub is_encoding : Wrapped → Bool
is_encoding (plain _) = false
is_encoding (base64 _ _) = true

Carries-prepare_headers :
    (base : Str) (w : WebProxyResponse) (bytes : Str)
    → Carries base w.wrapped bytes
    → Carries base (prepare_headers w).wrapped bytes
unfolding prepare_headers
Carries-prepare_headers base w bytes c = Carries-put_header base w.wrapped bytes _ c

-- The bytes that a call writes, and whether it starts the response.
abbrev pub bytes_of : Call → Str
bytes_of (write bytes) = bytes
bytes_of _ = []

abbrev pub starts : Call → Bool
starts (write bytes) = true
starts (write_header code) = true
starts _ = false

abbrev pub any_starts : List Call → Bool
any_starts [] = false
any_starts (c ∷ cs) = starts c || any_starts cs

abbrev pub written : List Call → Str
written [] = []
written (c ∷ cs) = bytes_of c ++ written cs

abbrev pub started : WebProxyResponse → Bool
started w = w.wrote_headers || w.wrote_body

Carries-Writer-write :
    (base : Str) (w : WebProxyResponse) (bytes b : Str)
    → Carries base w.wrapped bytes
    → Carries base (Writer.write b w).wrapped (bytes ++ b)
unfolding Writer.write
Carries-Writer-write base w bytes b c = elim (Bool-cases w.wrote_headers) [
  | inl e ↦ rw e (Carries-write base w.wrapped bytes b c)
  | inr e ↦ rw e (
      Carries-write base (prepare_headers w).wrapped bytes b
        (Carries-prepare_headers base w bytes c))
]

Carries-flush :
    (base : Str) (w : WebProxyResponse) (bytes : Str)
    → Carries base w.wrapped bytes
    → Carries base (Writer.flush w).wrapped bytes
unfolding Writer.flush
Carries-flush base w bytes c = elim (Bool-cases (started w)) [
  | inl e ↦ rw e (Flushed-Carries base _ bytes (flush_writer-Flushed base w.wrapped bytes c))
  | inr e ↦ rw e c
]

Carries-Writer-write_header :
    (base : Str) (w : WebProxyResponse) (bytes : Str) (code : ℕ)
    → Carries base w.wrapped bytes
    → Carries base (Writer.write_header code w).wrapped bytes
unfolding Writer.write_header
Carries-Writer-write_header base w bytes code c =
    Carries-write_header base (prepare_headers w).wrapped bytes code
      (Carries-prepare_headers base w bytes c)

Carries-perform :
    (base : Str) (c : Call) (w : WebProxyResponse) (bytes : Str)
    → Carries base w.wrapped bytes
    → Carries base (perform c w).wrapped (bytes ++ bytes_of c)
unfolding perform
Carries-perform base (change_header f) w bytes h = rw append-nil h
Carries-perform base (write b) w bytes h = Carries-Writer-write base w bytes b h
Carries-perform base (write_header code) w bytes h =
    rw append-nil (Carries-Writer-write_header base w bytes code h)
Carries-perform base flush w bytes h = rw append-nil (Carries-flush base w bytes h)

started-perform :
    (c : Call) (w : WebProxyResponse) → started (perform c w) ≡ (started w || starts c)
unfolding perform Writer.write Writer.write_header Writer.flush prepare_headers
started-perform (change_header f) w = ground arith
started-perform (write b) w = ground arith
started-perform (write_header code) w = ground arith
started-perform flush w = ground arith

pub Carries-perform_all :
    (base : Str) (cs : List Call) (w : WebProxyResponse) (bytes : Str)
    → Carries base w.wrapped bytes
    → Carries base (perform_all cs w).wrapped (bytes ++ written cs)
unfolding perform_all
Carries-perform_all base [] w bytes h = rw append-nil h
Carries-perform_all base (c ∷ cs) w bytes h =
    rw (← append_assoc bytes (bytes_of c) (written cs))
      (Carries-perform_all base cs (perform c w) _ (Carries-perform base c w bytes h))

pub started-perform_all :
    (cs : List Call) (w : WebProxyResponse)
    → started (perform_all cs w) ≡ (started w || any_starts cs)
unfolding perform_all
started-perform_all [] w = ground arith
started-perform_all (c ∷ cs) w =
    started-perform_all cs (perform c w) ∙ rw (started-perform c w) (ground arith)

-- What the response carries behind the bytes of the gRPC server: the trailer frame, if the gRPC
-- server started a response.
abbrev pub trailer_frame : Bool → WebProxyResponse → Str
trailer_frame true w = trailer_header (trailer_payload w) ++ trailer_payload w
trailer_frame false w = []

pub finish_request-Flushed :
    (base : Str) (w : WebProxyResponse) (bytes : Str)
    → Carries base w.wrapped bytes
    → Flushed base (finish_request w).wrapped (bytes ++ trailer_frame (started w) w)
unfolding finish_request copy_trailers_to_payload
finish_request-Flushed base w bytes c = elim (Bool-cases (started w)) [
  | inl e ↦ rw e (
      rw (← append_assoc bytes (trailer_header (trailer_payload w)) (trailer_payload w)) (
        flush_writer-Flushed base _ _ (
          Carries-write base _ _ (trailer_payload w)
            (Carries-write base w.wrapped bytes (trailer_header (trailer_payload w)) c))))
  | inr e ↦ rw e (
      rw append-nil
        (flush_writer-Flushed base _ bytes (Carries-Writer-write_header base w bytes 200 c)))
]
