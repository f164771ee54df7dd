-- ===== src/Embed/Clients.antt =====
-- embed/ollama_embedding.go, jina_ai_embedding.go and gemini_embedding.go: the three Embedders. The
-- services and the packages that reach them are arguments, and may change the world `W`.
use go_api_boot.Base.{
  ℕ, Str, codes, List, [], ◌∷◌, ◌++◌, Bool, not, Option, none, some, Result, ok, err, map, ◌==◌,
  nat_eq, str_eq, str_beq, if◌then◌else◌,
}
use go_api_boot.Base.Exec.{Exec, pure, ◌>>=◌}
use go_api_boot.Http.{Header, set_header}
use go_api_boot.Auth.{getenv}
use go_api_boot.Dotenv.{Env}
use go_api_boot.Embed.{
  Settings, EmbedOption, defaults, apply_options, task_text_matching, task_retrieval_passage,
  map_jina_task_to_gemini,
}

abbrev pub Vector : Type 0
Vector = List ℕ

-- api.EmbeddingRequest of the package `ollama`
pub record OllamaRequest : Type 0 where
  pub model : Str
  pub prompt : Str
  pub keep_alive : ℕ

-- 60 * time.Minute, in nanoseconds
abbrev pub sixty_minutes : ℕ
sixty_minutes = 3600000000000

module _ {W : Type 0} (embeddings : OllamaRequest → Exec W Str Vector) (float32 : ℕ → ℕ) where
  -- The request of OllamaEmbeddingClient.GetEmbedding.
  unfoldable pub ollama_request : Str → Settings → OllamaRequest
  ollama_request text cfg = record { model = cfg.model; prompt = text; keep_alive = sixty_minutes }

  -- OllamaEmbeddingClient.GetEmbedding: each float64 is converted.
  unfoldable pub ollama_get_embedding : Str → List EmbedOption → Exec W Str Vector
  ollama_get_embedding text opts = do
    emb64 ←
        embeddings
          (ollama_request text (apply_options opts (defaults (codes "nomic-embed-text") [])))
    pure (map float32 emb64)

-- The first embedding of an answer, if it has a value.
abbrev pub no_embedding : Result Str Vector
no_embedding = err (codes "no embedding data found")

unfoldable pub first_embedding : List Vector → Result Str Vector
first_embedding [] = no_embedding
first_embedding ([] ∷ _) = no_embedding
first_embedding ((x ∷ xs) ∷ _) = ok (x ∷ xs)

-- EmbedContent of the package `genai`: the model, the text as the user's content, the task type
abbrev pub EmbedContent : Type 0 → Type 0
EmbedContent W = Str → Str → Str → Exec W Str (List Vector)

module _ {W : Type 0} (embed_content : EmbedContent W) where
  unfoldable pub gemini_settings : List EmbedOption → Settings
  gemini_settings opts =
      apply_options opts (defaults (codes "text-embedding-004") task_text_matching)

  -- GeminiEmbeddingClient.GetEmbedding
  unfoldable pub gemini_get_embedding : Str → List EmbedOption → Exec W Str Vector
  gemini_get_embedding text opts = do
    result ←
        embed_content (gemini_settings opts).model text
          (map_jina_task_to_gemini (gemini_settings opts).task_name)
    λ w. (first_embedding result, w)

-- jinaAIEmbeddingRequest
pub record JinaRequest : Type 0 where
  pub model : Str
  pub task : Str
  pub input : List Str
  pub late_chunking : Bool
  pub return_multivector : Bool

pub record HttpPost : Type 0 where
  pub url : Str
  pub header : Header
  pub body : Str

pub record HttpAnswer : Type 0 where
  pub status_code : ℕ
  pub status_line : Str
  pub body : Str

-- encoding/json and net/http, as far as the client calls them
pub record JinaNet (W : Type 0) : Type 0 where
  pub marshal : JinaRequest → Result Str Str
  pub new_request : HttpPost → Result Str HttpPost
  pub do_request : HttpPost → Exec W Str HttpAnswer
  pub decode : Str → Result Str (List Vector)

pub record JinaClient : Type 0 where
  pub api_key : Str
  pub url : Str

module _ {W : Type 0} (net : JinaNet W) (client : JinaClient) where
  unfoldable pub jina_request : Str → Settings → JinaRequest
  jina_request text cfg = record {
    model = cfg.model;
    task = cfg.task_name;
    input = text ∷ [];
    late_chunking = cfg.late_chunking;
    return_multivector = cfg.return_multivector;
  }

  unfoldable pub jina_header : Header → Header
  unfolding set_header
  jina_header h =
      set_header (set_header h (codes "Authorization") (codes "Bearer " ++ client.api_key))
        (codes "Content-Type") (codes "application/json")

  unfoldable pub decode_answer : Result Str (List Vector) → Result Str Vector
  decode_answer (ok vectors) = first_embedding vectors
  decode_answer (err e) = err e

  -- What follows the answer: its status, and its body.
  unfoldable pub read_answer : HttpAnswer → Result Str Vector
  read_answer resp =
      if not (resp.status_code == 200)
      then err (codes "failed to get embedding: " ++ resp.status_line)
      else decode_answer (net.decode resp.body)

  abbrev lift : {A : Type 0} → Result Str A → Exec W Str A
  lift r w = (r, w)

  -- JinaAIEmbeddingClient.GetEmbedding; closing the body changes nothing that is modelled.
  unfoldable pub jina_get_embedding : Str → List EmbedOption → Exec W Str Vector
  jina_get_embedding text opts = do
    json_data ← lift (
        net.marshal (
          jina_request text
            (apply_options opts (defaults (codes "jina-embeddings-v4") task_retrieval_passage))))
    http_req ← lift (net.new_request (record { url = client.url; header = []; body = json_data }))
    resp ← net.do_request (record http_req { header = jina_header http_req.header })
    lift (read_answer resp)

-- ProvideJinaAIEmbeddingClient: without the key the process ends.
unfoldable pub provide_jina_ai_embedding_client : Env → Option JinaClient
unfolding getenv str_beq
provide_jina_ai_embedding_client env =
    let api_key = getenv env (codes "JINA_AI_API_KEY") in
    if api_key == codes ""
    then none
    else some (record { api_key = api_key; url = codes "https://api.jina.ai/v1/embeddings" })

-- ProvideGeminiEmbeddingClient: without the key, or a client for it, the process ends.
unfoldable pub provide_gemini_embedding_client :
    {C : Type 0} → (Str → Result Str C) → Env → Option C
unfolding getenv str_beq
provide_gemini_embedding_client new_client env =
    let api_key = getenv env (codes "GEMINI_API_KEY") in
    if api_key == codes ""
    then none
    else (elim (new_client api_key) [ ok c ↦ some c | err e ↦ none ])

-- ProvideOllamaEmbeddingClient: without a host the process ends.
unfoldable pub provide_ollama_embedding_client : {C : Type 0} → (Env → C) → Env → Option C
unfolding getenv str_beq
provide_ollama_embedding_client client_from_environment env =
    if getenv env (codes "OLLAMA_HOST") == codes ""
    then none
    else some (client_from_environment env)
