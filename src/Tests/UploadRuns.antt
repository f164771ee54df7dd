-- ===== src/Tests/UploadRuns.antt =====
-- BufferGrpcStream with a limit of six bytes.
use go_api_boot.Base.{Str, codes, List, [], ◌∷◌, true, length, take, concat, ◌≤◌, ◌≡◌, refl, str_eq}
use go_api_boot.Upload.{
  Round, member, eof, uploaded, failed, canceled, unacceptable_mime_type, buffer_grpc_stream,
}
use go_api_boot.Upload.Laws.{sends, expected, buffer_grpc_stream-sends}
use go_api_boot.Upload.Sent.{uploaded_only}

abbrev detect : Str → Str
detect [] = codes "text/plain"
detect (c ∷ _) = codes "image/png"

abbrev acceptable : List Str
acceptable = codes "image/png" ∷ []

abbrev image : List Str
image = codes "ab" ∷ codes "" ∷ codes "cd" ∷ []

upload_image :
    buffer_grpc_stream detect acceptable 6 (sends image [])
    ≡ uploaded (codes "abcd") (codes "image/png")
unfolding buffer_grpc_stream
upload_image = refl

upload_empty : buffer_grpc_stream detect acceptable 6 (sends [] []) ≡ failed unacceptable_mime_type
unfolding buffer_grpc_stream
upload_empty = refl

upload_canceled :
    buffer_grpc_stream detect acceptable 6 (record { cancelled = true; received = eof } ∷ [])
    ≡ failed canceled
unfolding buffer_grpc_stream
upload_canceled = refl

buffer_grpc_stream-sends_example :
    buffer_grpc_stream detect acceptable 6 (sends image [])
    ≡ expected detect acceptable 6 (codes "abcd")
buffer_grpc_stream-sends_example = buffer_grpc_stream-sends detect acceptable 6 image []

uploaded_only_example :
    (chunks : List Str) × (rest : List Round) × (sends image [] ≡ sends chunks rest)
    × (concat chunks ≡ codes "abcd")
    × (length (codes "abcd") ≤ 6)
    × (codes "image/png" ≡ detect (take 512 (codes "abcd")))
    × (member (codes "image/png") acceptable ≡ true)
uploaded_only_example =
    uploaded_only detect acceptable 6 (sends image []) (codes "abcd") (codes "image/png")
      upload_image
