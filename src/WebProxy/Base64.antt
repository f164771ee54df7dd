-- ===== src/WebProxy/Base64.antt =====
-- The standard encoding of the package `encoding/base64`, at once and as a stream.
use go_api_boot.Base.{
  ℕ, ◌+◌, ◌-◌, ◌*◌, ◌/◌, ◌%◌, Str, List, [], ◌∷◌, ◌++◌, ltb, if◌then◌else◌, ◌==◌, nat_eq, ◌≡◌, refl,
  ap, ◌∙◌, append-nil, append_assoc, concat,
}

-- The character for six bits.
unfoldable pub sextet : ℕ → ℕ
sextet n =
    if ltb n 26
    then b'A' + n
    else if ltb n 52
    then b'a' + (n - 26)
    else if ltb n 62
    then b'0' + (n - 52)
    else if n == 62
    then b'+'
    else b'/'

-- Three bytes as four characters.
abbrev pub group : ℕ → ℕ → ℕ → Str
group a b c =
    sextet (a / 4)
    ∷ sextet (a % 4 * 16 + b / 16)
    ∷ sextet (b % 16 * 4 + c / 64)
    ∷ sextet (c % 64)
    ∷ []

-- StdEncoding.EncodeToString
unfoldable pub encode : Str → Str
unfolding sextet
encode [] = []
encode (a ∷ []) = sextet (a / 4) ∷ sextet (a % 4 * 16) ∷ b'=' ∷ b'=' ∷ []
encode (a ∷ b ∷ []) =
    sextet (a / 4) ∷ sextet (a % 4 * 16 + b / 16) ∷ sextet (b % 16 * 4) ∷ b'=' ∷ []
encode (a ∷ b ∷ c ∷ s) = group a b c ++ encode s

-- What an encoder writes for its bytes, and the at most two bytes that it keeps.
unfoldable pub full_groups : Str → Str × Str
unfolding sextet
full_groups [] = ([], [])
full_groups (a ∷ []) = ([], a ∷ [])
full_groups (a ∷ b ∷ []) = ([], a ∷ b ∷ [])
full_groups (a ∷ b ∷ c ∷ s) = let (out, kept) = full_groups s in (group a b c ++ out, kept)

-- encoder.Write(bytes), from the bytes that are pending
unfoldable pub encoder_write : Str → Str → Str × Str
unfolding full_groups
encoder_write pending bytes = full_groups (pending ++ bytes)

-- encoder.Close()
unfoldable pub encoder_close : Str → Str
unfolding encode
encoder_close pending = encode pending

pub full_groups-encode :
    (s t : Str) → (full_groups s).0 ++ encode ((full_groups s).1 ++ t) ≡ encode (s ++ t)
unfolding full_groups encode
full_groups-encode [] t = refl
full_groups-encode (a ∷ []) t = refl
full_groups-encode (a ∷ b ∷ []) t = refl
full_groups-encode (a ∷ b ∷ c ∷ s) t = ap (λ r. group a b c ++ r) (full_groups-encode s t)

-- The output of an encoder that gets these chunks and is closed.
unfoldable pub encode_stream : Str → List Str → Str
unfolding encoder_write encoder_close
encode_stream pending [] = encoder_close pending
encode_stream pending (chunk ∷ chunks) =
    let (out, kept) = encoder_write pending chunk in out ++ encode_stream kept chunks

-- However the bytes are cut into chunks, what the streaming base64 encoder writes until it is
-- closed is the encoding of all of them at once.
pub encode_stream-encode :
    (pending : Str) (chunks : List Str)
    → encode_stream pending chunks ≡ encode (pending ++ concat chunks)
unfolding encode_stream
encode_stream-encode pending [] = rw append-nil
encode_stream-encode pending (chunk ∷ chunks) =
    let kept = (full_groups (pending ++ chunk)).1 in
    rw (encode_stream-encode kept chunks) (
      full_groups-encode (pending ++ chunk) (concat chunks)
      ∙ ap encode (append_assoc pending chunk (concat chunks)))
