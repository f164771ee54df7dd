-- ===== src/Embed/Laws.antt =====
-- What the clients of Jina and Gemini promise of a vector.
use go_api_boot.Base.{
  Str, codes, List, [], ◌∷◌, Result, ok, err, ◌≡◌, ◌≢◌, ◌⊎◌, inl, inr, Bool-cases, ◌==◌, nat_eq,
}
use go_api_boot.Base.Exec.{Ensures, bind-Ensures}
use go_api_boot.Embed.{
  EmbedOption, defaults, apply_options, task_retrieval_passage, map_jina_task_to_gemini,
}
use go_api_boot.Embed.Clients.{
  Vector, EmbedContent, JinaNet, JinaClient, HttpAnswer, first_embedding, decode_answer,
  read_answer, gemini_settings, gemini_get_embedding, jina_get_embedding, jina_request, jina_header,
}

first_embedding-nonempty : (vs : List Vector) (v : Vector) → first_embedding vs ≡ ok v → v ≢ []
unfolding first_embedding
first_embedding-nonempty [] v x = cc x
first_embedding-nonempty ([] ∷ vs) v x = cc x
first_embedding-nonempty ((n ∷ ns) ∷ vs) v x = λ e. cc (x, e)

module _ {W : Type 0} (net : JinaNet W) (client : JinaClient) where
  decode_answer-nonempty :
      (r : Result Str (List Vector)) (v : Vector) → decode_answer net client r ≡ ok v → v ≢ []
  unfolding decode_answer
  decode_answer-nonempty (ok vs) v x = first_embedding-nonempty vs v x
  decode_answer-nonempty (err e) v x = cc x

  read_answer-nonempty : (a : HttpAnswer) (v : Vector) → read_answer net client a ≡ ok v → v ≢ []
  unfolding read_answer
  read_answer-nonempty a v x = elim (Bool-cases (a.status_code == 200)) [
    | inl e ↦ decode_answer-nonempty (net.decode a.body) v (rw e at x)
    | inr e ↦ cc (rw e at x)
  ]

  jina-nonempty :
      (text : Str) (opts : List EmbedOption)
      → Ensures {E = Str} (λ v. v ≢ []) (jina_get_embedding net client text opts)
  unfolding jina_get_embedding
  jina-nonempty text opts =
      let settings =
        apply_options opts (defaults (codes "jina-embeddings-v4") task_retrieval_passage) in
      bind-Ensures (λ w. (net.marshal (jina_request net client text settings), w)) _
        λ j.
          bind-Ensures
            (λ w. (net.new_request (record { url = client.url; header = []; body = j }), w)) _
            λ q.
              bind-Ensures (net.do_request (record q { header = jina_header net client q.header }))
                _ λ a w v. read_answer-nonempty a v

module _ {W : Type 0} (embed_content : EmbedContent W) where
  gemini-nonempty :
      (text : Str) (opts : List EmbedOption)
      → Ensures {E = Str} (λ v. v ≢ []) (gemini_get_embedding embed_content text opts)
  unfolding gemini_get_embedding
  gemini-nonempty text opts =
      let settings = gemini_settings embed_content opts in
      bind-Ensures (embed_content settings.model text (map_jina_task_to_gemini settings.task_name))
        _ λ vs w v. first_embedding-nonempty vs v

-- Whatever the service and the network answer, and whatever the options: the clients of Jina and of
-- Gemini never return an empty vector without an error.
pub get_embedding-nonempty :
    {W : Type 0} (net : JinaNet W) (client : JinaClient) (embed_content : EmbedContent W)
    (text : Str) (opts : List EmbedOption) (w : W) (v : Vector)
    → ((jina_get_embedding net client text opts w).0 ≡ ok v)
      ⊎ ((gemini_get_embedding embed_content text opts w).0 ≡ ok v)
    → v ≢ []
get_embedding-nonempty net client embed_content text opts w v (inl x) =
    jina-nonempty net client text opts w v x
get_embedding-nonempty net client embed_content text opts w v (inr x) =
    gemini-nonempty embed_content text opts w v x
