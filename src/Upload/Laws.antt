-- ===== src/Upload/Laws.antt =====
-- What BufferGrpcStream returns, by the chunks that the client sends.
use go_api_boot.Base.{
  ℕ, zero, suc, ◌+◌, ◌-◌, ◌≤◌, ◌<◌, Str, List, [], ◌∷◌, ◌++◌, false, Bool-cases, inl, inr, ltb,
  if◌then◌else◌, length, length-append, length-take, take, min, concat, ◌≡◌, refl, sym, ap, ◌∙◌,
  arith, append-nil, append_assoc,
}
use go_api_boot.Upload.{
  chunk, eof, Round, file_too_large, unacceptable_mime_type, Upload, uploaded, failed, Buffer,
  empty_buffer, member, add_chunk, finish, buffer_loop, buffer_grpc_stream,
}

take-zero {ℓ} : {A : Type ℓ} (n : ℕ) (ys : List A) → n ≡ 0 → [] ≡ take n ys
take-zero zero ys h = refl
take-zero (suc n) ys h = absurd (omega arith)

take-append {ℓ} :
    {A : Type ℓ} (n : ℕ) (xs ys : List A) → take n (xs ++ ys) ≡ take n xs ++ take (n - length xs) ys
take-append zero xs ys = take-zero (0 - length xs) ys (omega arith)
take-append (suc n) [] ys = let e : suc n ≡ suc n - 0 = omega arith in ap (λ (k : ℕ). take k ys) e
take-append (suc n) (x ∷ xs) ys =
    let e : n - length xs ≡ suc n - suc (length xs) = omega arith in
    ap (λ t. x ∷ t) (take-append n xs ys ∙ ap (λ (k : ℕ). take n xs ++ take k ys) e)

-- The variables of the loop agree with what was read: `head` is its start, `size` its length.
pub record IsBuffer (b : Buffer) : Type 0 where
  pub head_start : b.head ≡ take 512 b.buf
  pub size_length : b.size ≡ length b.buf

head_grows :
    (n : ℕ) (buf bytes : Str)
    → (if ltb (length (take n buf)) n
        then take n buf ++ take (n - length (take n buf)) bytes
        else take n buf)
      ≡ take n (buf ++ bytes)
head_grows n buf bytes =
    let l : length (take n buf) ≡ min n (length buf) = length-take n buf in
    elim (Bool-cases (ltb (length (take n buf)) n)) [
      | inl e ↦
          let k : n - length (take n buf) ≡ n - length buf = ground (arith, l) in
          rw e (ap (λ (k : ℕ). take n buf ++ take k bytes) k ∙ sym (take-append n buf bytes))
      | inr e ↦
          let k : n - length buf ≡ 0 = ground (arith, l) in
          rw e (rw (take-append n buf bytes, ← take-zero (n - length buf) bytes k, append-nil))
    ]

add_chunk-IsBuffer : (bytes : Str) (b : Buffer) → IsBuffer b → IsBuffer (add_chunk bytes b)
unfolding add_chunk
add_chunk-IsBuffer bytes b v = record {
  head_start = rw v.head_start (head_grows 512 b.buf bytes);
  size_length = omega (arith, v.size_length, length-append b.buf bytes);
}

-- The rounds in which a client sends these chunks and closes the stream.
abbrev pub sends : List Str → List Round → List Round
sends [] rest = record { cancelled = false; received = eof } ∷ rest
sends (bytes ∷ chunks) rest =
    record { cancelled = false; received = chunk bytes } ∷ sends chunks rest

module _ (detect : Str → Str) (acceptable : List Str) (max_size : ℕ) where
  -- What the whole upload should give.
  abbrev pub expected : Str → Upload
  expected bytes =
      if ltb max_size (length bytes)
      then failed file_too_large
      else if member (detect (take 512 bytes)) acceptable
      then uploaded bytes (detect (take 512 bytes))
      else failed unacceptable_mime_type

  too_large_then :
      (a b c : Str)
      → max_size < length a + length b
      → expected (a ++ (b ++ c)) ≡ failed file_too_large
  too_large_then a b c h = ground (arith, length-append a (b ++ c), length-append b c)

  buffer_loop-sends :
      (chunks : List Str) (rest : List Round) (b : Buffer)
      → IsBuffer b
      → b.size ≤ max_size
      → buffer_loop detect acceptable max_size (sends chunks rest) b
        ≡ expected (b.buf ++ concat chunks)
  unfolding buffer_loop finish
  buffer_loop-sends [] rest b v h = rw (append-nil, v.head_start) (ground (arith, v.size_length))
  buffer_loop-sends (bytes ∷ chunks) rest b v h =
      elim (Bool-cases (ltb max_size (b.size + length bytes))) [
        | inl e ↦
            rw e (sym (too_large_then b.buf bytes (concat chunks) (ground (arith, v.size_length))))
        | inr e ↦ rw e (
            buffer_loop-sends chunks rest (add_chunk bytes b) (add_chunk-IsBuffer bytes b v)
              (unfold add_chunk in ground arith)
            ∙ ap expected (append_assoc b.buf bytes (concat chunks)))
      ]

  -- A stream of chunks that is closed gives all its bytes with the type that is detected from the
  -- first 512 of them, if they are no more than `max_size` and the type is acceptable, and the error
  -- for the first of the two that fails otherwise. How the bytes are cut into chunks, and what
  -- would follow the end of the stream, does not matter.
  pub buffer_grpc_stream-sends :
      (chunks : List Str) (rest : List Round)
      → buffer_grpc_stream detect acceptable max_size (sends chunks rest) ≡ expected (concat chunks)
  unfolding buffer_grpc_stream
  buffer_grpc_stream-sends chunks rest =
      buffer_loop-sends chunks rest empty_buffer (record { head_start = refl; size_length = refl })
        (omega arith)
