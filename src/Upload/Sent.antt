-- ===== src/Upload/Sent.antt =====
-- BufferGrpcStream of server/util.go, read backwards: what an upload says of the stream.
use go_api_boot.Base.{
  ℕ, ◌+◌, ◌≤◌, Str, List, [], ◌∷◌, ◌++◌, true, false, Bool-cases, inl, inr, ltb, length, take,
  concat, ◌≡◌, refl, sym, ap, subst, ◌∙◌, arith, append-nil, append_assoc,
}
use go_api_boot.Upload.{
  Received, chunk, eof, recv_error, Round, Upload, uploaded, Buffer, empty_buffer, member,
  add_chunk, finish, after_recv, buffer_loop, buffer_grpc_stream,
}
use go_api_boot.Upload.Laws.{sends, expected, buffer_grpc_stream-sends}

module _ (detect : Str → Str) (acceptable : List Str) (max_size : ℕ) where
  uploaded_bytes : {a b c d : Str} → uploaded a b ≡ uploaded c d → a ≡ c
  uploaded_bytes x = cc x

  finish-uploaded :
      (b : Buffer) {bytes mime : Str}
      → finish detect acceptable max_size b ≡ uploaded bytes mime
      → b.buf ≡ bytes
  unfolding finish
  finish-uploaded b x = elim (Bool-cases (member (detect b.head) acceptable)) [
    | inl e ↦ let y = rw e at x in cc y
    | inr e ↦ cc (rw e at x)
  ]

  -- The rounds before the end of the stream, and their chunks behind what was read.
  abbrev Sent : Str → Str → List Round → Type 0
  Sent read bytes rounds =
      (chunks : List Str) × (rest : List Round) × (rounds ≡ sends chunks rest)
      × (read ++ concat chunks ≡ bytes)

  -- What was received in a round whose context is not done; the loop goes on with `again`.
  after_recv-uploaded :
      (again : Buffer → Upload) (rs : List Round) (bytes mime : Str)
      → ((b : Buffer) → again b ≡ uploaded bytes mime → Sent b.buf bytes rs)
      → (r : Received) (b : Buffer)
      → after_recv detect acceptable max_size again r b ≡ uploaded bytes mime
      → Sent b.buf bytes (record { cancelled = false; received = r } ∷ rs)
  unfolding after_recv add_chunk
  after_recv-uploaded again rs bytes mime ih eof b x =
      ([], rs, refl, append-nil b.buf ∙ finish-uploaded b x)
  after_recv-uploaded again rs bytes mime ih recv_error b x = cc x
  after_recv-uploaded again rs bytes mime ih (chunk part) b x =
      elim (Bool-cases (ltb max_size (b.size + length part))) [
        | inl e ↦ cc (rw e at x)
        | inr e ↦
            let (chunks, rest, same, all) = ih (add_chunk part b) (rw e at x) in
            (
              part ∷ chunks,
              rest,
              ap (λ l. record { cancelled = false; received = chunk part } ∷ l) same,
              sym (append_assoc b.buf part (concat chunks)) ∙ all,
            )
      ]

  buffer_loop-uploaded :
      (rounds : List Round) (b : Buffer) (bytes mime : Str)
      → buffer_loop detect acceptable max_size rounds b ≡ uploaded bytes mime
      → Sent b.buf bytes rounds
  unfolding buffer_loop
  buffer_loop-uploaded [] b bytes mime x = cc x
  buffer_loop-uploaded (r ∷ rs) b bytes mime x = elim (Bool-cases r.cancelled) [
    | inl e ↦ cc (rw e at x)
    | inr e ↦
        subst (λ c. Sent b.buf bytes (record { cancelled = c; received = r.received } ∷ rs)) (sym e)
          (after_recv-uploaded (buffer_loop detect acceptable max_size rs) rs bytes mime
            (λ b' y. buffer_loop-uploaded rs b' bytes mime y) r.received b (rw e at x))
  ]

  -- If BufferGrpcStream returns bytes and a type, then whatever was received: its context was not
  -- done before the end of the stream, the client sent chunks and closed the stream without an
  -- error, the bytes are all of theirs in order and at most `max_size`, and the type is the one that
  -- is detected from the first 512 bytes, and acceptable.
  pub uploaded_only :
      (rounds : List Round) (bytes mime : Str)
      → buffer_grpc_stream detect acceptable max_size rounds ≡ uploaded bytes mime
      → (chunks : List Str) × (rest : List Round) × (rounds ≡ sends chunks rest)
        × (concat chunks ≡ bytes)
        × (length bytes ≤ max_size)
        × (mime ≡ detect (take 512 bytes))
        × (member mime acceptable ≡ true)
  unfolding buffer_grpc_stream
  uploaded_only rounds bytes mime x =
      let (chunks, rest, same, all) = buffer_loop-uploaded rounds empty_buffer bytes mime x in
      let gives : expected detect acceptable max_size bytes ≡ uploaded bytes mime =
        ap (expected detect acceptable max_size) (sym all)
        ∙ sym (buffer_grpc_stream-sends detect acceptable max_size chunks rest)
        ∙ ap (buffer_grpc_stream detect acceptable max_size) (sym same)
        ∙ x in
      (chunks, rest, same, all, ground arith, ground arith, ground arith)
