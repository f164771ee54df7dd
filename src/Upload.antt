-- ===== src/Upload.antt =====
-- BufferGrpcStream of server/util.go. `detect` is http.DetectContentType.
pub mod Laws
pub mod Sent
use go_api_boot.Base.{
  ℕ, zero, suc, ◌+◌, ◌-◌, Str, codes, List, [], ◌∷◌, ◌++◌, Bool, true, false, ltb, if◌then◌else◌,
  ◌==◌, str_eq, str_beq, length, take,
}

-- What stream.Recv() returns.
pub data Received : Type 0 where
  chunk : Str → Received
  eof : Received
  recv_error : Received

-- One round of the loop: whether the context is done by then, and what is received if not.
pub record Round : Type 0 where
  pub cancelled : Bool
  pub received : Received

-- The gRPC status codes of the errors.
pub data UploadError : Type 0 where
  canceled recv_failed file_too_large unacceptable_mime_type : UploadError

pub data Upload : Type 0 where
  -- The bytes and their MIME type.
  uploaded : Str → Str → Upload
  failed : UploadError → Upload
  -- The client has sent no more yet, and the loop still waits.
  waiting : Upload

-- The variables of the loop.
pub record Buffer : Type 0 where
  pub head : Str
  pub buf : Str
  pub size : ℕ

abbrev pub empty_buffer : Buffer
empty_buffer = record { head = []; buf = []; size = 0 }

unfoldable pub member : Str → List Str → Bool
unfolding str_beq
member s [] = false
member s (t ∷ ts) = if t == s then true else member s ts

-- The body of the loop for a chunk that fits: the first 512 bytes are captured as well.
unfoldable pub add_chunk : Str → Buffer → Buffer
add_chunk bytes b = record {
  head = if ltb (length b.head) 512 then b.head ++ take (512 - length b.head) bytes else b.head;
  buf = b.buf ++ bytes;
  size = b.size + length bytes;
}

module _ (detect : Str → Str) (acceptable : List Str) (max_size : ℕ) where
  -- What follows the loop.
  unfoldable pub finish : Buffer → Upload
  unfolding member
  finish b =
      if member (detect b.head) acceptable
      then uploaded b.buf (detect b.head)
      else failed unacceptable_mime_type

  -- What follows stream.Recv().
  unfoldable pub after_recv : (Buffer → Upload) → Received → Buffer → Upload
  unfolding finish add_chunk
  after_recv again eof b = finish b
  after_recv again recv_error b = failed recv_failed
  after_recv again (chunk bytes) b =
      if ltb max_size (b.size + length bytes)
      then failed file_too_large
      else again (add_chunk bytes b)

  unfoldable pub buffer_loop : List Round → Buffer → Upload
  unfolding after_recv
  buffer_loop [] b = waiting
  buffer_loop (r ∷ rs) b =
      if r.cancelled then failed canceled else after_recv (buffer_loop rs) r.received b

  -- BufferGrpcStream
  unfoldable pub buffer_grpc_stream : List Round → Upload
  unfolding buffer_loop
  buffer_grpc_stream rounds = buffer_loop rounds empty_buffer
