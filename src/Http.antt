-- ===== src/Http.antt =====
-- The part of Go's package `net/http` that the program calls: headers, requests, and a response
-- writer that keeps what was sent.
use go_api_boot.Base.{
  ◌≡◌, arith, ℕ, Str, codes, List, [], ◌∷◌, ◌++◌, Bool, true, false, ◌&&◌, ◌||◌, Option, none, some,
  leb, ◌==◌, nat_eq, str_eq, str_beq, if◌then◌else◌,
}
use go_api_boot.Base.Dict.{Dict, lookup, insert, erase}
use go_api_boot.Strings.{upper, lower}

abbrev pub Header : Type 0
Header = Dict Str (List Str)

is_alphanum : ℕ → Bool
is_alphanum c =
    (leb b'0' c && leb c b'9') || (leb b'A' c && leb c b'Z') || (leb b'a' c && leb c b'z')

member : ℕ → Str → Bool
member c [] = false
member c (d ∷ s) = c == d || member c s

-- The characters of a header name, by RFC 7230.
is_token_char : ℕ → Bool
unfolding is_alphanum member
is_token_char c = is_alphanum c || member c (codes "!#$%&'*+-.^_`|~")

unfoldable pub is_token : Str → Bool
unfolding is_token_char
is_token [] = true
is_token (c ∷ s) = is_token_char c && is_token s

-- httpguts.ValidHeaderFieldName
unfoldable pub is_field_name : Str → Bool
unfolding is_token
is_field_name [] = false
is_field_name (c ∷ s) = is_token (c ∷ s)

-- A letter is upper case at the start and behind a dash, else lower case.
unfoldable pub capitalise : Bool → Str → Str
unfolding upper lower
capitalise up [] = []
capitalise up (c ∷ s) = (if up then upper c else lower c) ∷ capitalise (c == b'-') s

-- http.CanonicalHeaderKey(s)
unfoldable pub canonical_header_key : Str → Str
unfolding is_token capitalise
canonical_header_key s = if is_token s then capitalise true s else s

abbrev first_or_empty : Option (List Str) → Str
first_or_empty (some (v ∷ _)) = v
first_or_empty _ = []

-- h.Get(key)
unfoldable pub get_header : Header → Str → Str
unfolding canonical_header_key lookup str_beq
get_header h key = first_or_empty (lookup (canonical_header_key key) h)

-- h.Set(key, value)
unfoldable pub set_header : Header → Str → Str → Header
unfolding canonical_header_key insert str_beq
set_header h key value = insert (canonical_header_key key) (value ∷ []) h

-- h.Del(key)
unfoldable pub del_header : Header → Str → Header
unfolding canonical_header_key erase str_beq
del_header h key = erase (canonical_header_key key) h

-- A response writer: the header that handlers change, what was sent of it with the status, and
-- the body.
pub record Response : Type 0 where
  pub header : Header
  pub sent : Option (ℕ × Header)
  pub body : Str

abbrev send : ℕ → Option (ℕ × Header) → Response → Response
send code none r = record r { sent = some (code, r.header) }
send code (some _) r = r

-- w.WriteHeader(code): only the first call sends.
unfoldable pub write_header : ℕ → Response → Response
write_header code r = send code r.sent r

-- w.Write(b) sends the status 200 if none was sent.
unfoldable pub write : Str → Response → Response
unfolding write_header
write b r = let r' = write_header 200 r in record r' { body = r'.body ++ b }

-- http.Error(w, message, code)
unfoldable pub http_error : Str → ℕ → Response → Response
unfolding set_header del_header write_header write
http_error message code r =
    let h = del_header r.header (codes "Content-Length") in
    let h' = set_header h (codes "Content-Type") (codes "text/plain; charset=utf-8") in
    let h'' = set_header h' (codes "X-Content-Type-Options") (codes "nosniff") in
    write (message ++ 10 ∷ []) (write_header code (record r { header = h'' }))

-- The response as a fresh server hands it to a handler.
abbrev pub fresh : Response
fresh = record { header = []; sent = none; body = [] }

-- The status that the client sees, if any was sent.
unfoldable pub status : Response → Option ℕ
status r = elim r.sent [ none ↦ none | some (code, _) ↦ some code ]

-- An error is the status that is sent, unless one was sent before.
pub status-http_error :
    (message : Str) (code : ℕ) (r : Response)
    → status (http_error message code r) ≡ (elim (status r) [ none ↦ some code | some s ↦ some s ])
unfolding status http_error write write_header
status-http_error message code r = ground arith
