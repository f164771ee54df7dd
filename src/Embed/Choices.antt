-- ===== src/Embed/Choices.antt =====
-- What the options of a call say to each client of embed/.
use go_api_boot.Base.{
  ℕ, Str, codes, List, [], ◌∷◌, ◌++◌, ◌==◌, str_eq, str_beq, if◌then◌else◌, Bool, false, ok, map,
  ◌≡◌, refl,
}
use go_api_boot.Base.Exec.{Exec, continue}
use go_api_boot.Http.{set_header}
use go_api_boot.Embed.{
  Settings, EmbedOption, defaults, apply_options, with_model, with_keep_alive, with_late_chunking,
  with_return_multivector, with_task, map_jina_task_to_gemini,
}
use go_api_boot.Embed.Clients.{
  Vector, EmbedContent, JinaNet, JinaClient, OllamaRequest, sixty_minutes, ollama_request,
  ollama_get_embedding, gemini_settings, gemini_get_embedding, first_embedding, jina_request,
  JinaRequest, jina_get_embedding, jina_header, read_answer,
}

-- The options that the package makes.
pub data Choice : Type 0 where
  model : Str → Choice
  keep_alive : ℕ → Choice
  task : Str → Choice
  late_chunking : Bool → Choice
  multivector : Bool → Choice

unfoldable pub option_of : Choice → EmbedOption
unfolding with_model with_keep_alive with_task with_late_chunking with_return_multivector
option_of (model name) = with_model name
option_of (keep_alive d) = with_keep_alive d
option_of (task name) = with_task name
option_of (late_chunking enabled) = with_late_chunking enabled
option_of (multivector enabled) = with_return_multivector enabled

-- The last choice of each kind, or else what is given.
unfoldable pub last_model : List Choice → Str → Str
last_model [] m = m
last_model (model n ∷ cs) m = last_model cs n
last_model (_ ∷ cs) m = last_model cs m

unfoldable pub last_keep_alive : List Choice → ℕ → ℕ
last_keep_alive [] d = d
last_keep_alive (keep_alive e ∷ cs) d = last_keep_alive cs e
last_keep_alive (_ ∷ cs) d = last_keep_alive cs d

unfoldable pub last_task : List Choice → Str → Str
last_task [] t = t
last_task (task u ∷ cs) t = last_task cs u
last_task (_ ∷ cs) t = last_task cs t

unfoldable pub last_late_chunking : List Choice → Bool → Bool
last_late_chunking [] b = b
last_late_chunking (late_chunking c ∷ cs) b = last_late_chunking cs c
last_late_chunking (_ ∷ cs) b = last_late_chunking cs b

unfoldable pub last_multivector : List Choice → Bool → Bool
last_multivector [] b = b
last_multivector (multivector c ∷ cs) b = last_multivector cs c
last_multivector (_ ∷ cs) b = last_multivector cs b

-- Each field is that of the last choice of its kind.
apply_options_lem :
    (cs : List Choice) (s : Settings)
    → apply_options (map option_of cs) s ≡ record {
      model = last_model cs s.model;
      keep_alive = last_keep_alive cs s.keep_alive;
      task_name = last_task cs s.task_name;
      late_chunking = last_late_chunking cs s.late_chunking;
      return_multivector = last_multivector cs s.return_multivector;
    }
unfolding apply_options option_of last_model last_keep_alive last_task last_late_chunking
    last_multivector with_model with_keep_alive with_task with_late_chunking with_return_multivector
apply_options_lem [] s = refl
apply_options_lem (model m ∷ cs) s = apply_options_lem cs _
apply_options_lem (keep_alive m ∷ cs) s = apply_options_lem cs _
apply_options_lem (task m ∷ cs) s = apply_options_lem cs _
apply_options_lem (late_chunking m ∷ cs) s = apply_options_lem cs _
apply_options_lem (multivector m ∷ cs) s = apply_options_lem cs _

-- Gemini's names of the tasks, by the names of Jina.
abbrev pub gemini_names : List (Str × Str)
gemini_names =
    (codes "retrieval.query", codes "RETRIEVAL_QUERY")
    ∷ (codes "retrieval.passage", codes "RETRIEVAL_DOCUMENT")
    ∷ (codes "code.query", codes "CODE_RETRIEVAL_QUERY")
    ∷ (codes "code.passage", codes "RETRIEVAL_DOCUMENT")
    ∷ (codes "text-matching", codes "SEMANTIC_SIMILARITY")
    ∷ (codes "classification", codes "CLASSIFICATION")
    ∷ (codes "clustering", codes "CLUSTERING")
    ∷ (codes "question-answering", codes "QUESTION_ANSWERING")
    ∷ (codes "fact-verification", codes "FACT_VERIFICATION")
    ∷ []

-- A name that is not there stands for the similarity of texts.
unfoldable pub gemini_name : List (Str × Str) → Str → Str
unfolding str_beq
gemini_name [] t = codes "SEMANTIC_SIMILARITY"
gemini_name ((jina, gemini) ∷ names) t = if t == jina then gemini else gemini_name names t

map_jina_task_to_gemini_lem : (t : Str) → map_jina_task_to_gemini t ≡ gemini_name gemini_names t
unfolding map_jina_task_to_gemini gemini_name
map_jina_task_to_gemini_lem t = refl

module _ {W : Type 0} where
  -- The request of Jina is marshalled, posted to the client's address with its key, and the answer is
  -- read.
  abbrev pub posts : JinaNet W → JinaClient → JinaRequest → Exec W Str Vector
  posts net client request w =
      continue (net.marshal request)
        (λ body w1.
          continue (net.new_request (record { url = client.url; header = []; body = body }))
            (λ q w2.
              let (r, w3) =
                net.do_request
                  (record q {
                    header =
                        set_header
                          (set_header q.header (codes "Authorization")
                            (codes "Bearer " ++ client.api_key))
                          (codes "Content-Type") (codes "application/json");
                  })
                  w2 in
              continue r (λ resp w4. (read_answer net client resp, w4)) w3)
            w1)
        w

  -- For each client the last option of a kind counts. Jina is sent the model, the task and the two
  -- flags; Gemini gets the model and its own name of the task; Ollama gets the model, and always 60
  -- minutes, whatever time an option gives.
  pub requests_by_choice :
      (net : JinaNet W) (client : JinaClient) (embed_content : EmbedContent W)
      (embeddings : OllamaRequest → Exec W Str Vector) (float32 : ℕ → ℕ) (text : Str)
      (cs : List Choice) (w : W)
      → (jina_get_embedding net client text (map option_of cs) w
          ≡ posts net client
              (record {
                model = last_model cs (codes "jina-embeddings-v4");
                task = last_task cs (codes "retrieval.passage");
                input = text ∷ [];
                late_chunking = last_late_chunking cs false;
                return_multivector = last_multivector cs false;
              })
              w)
        × (gemini_get_embedding embed_content text (map option_of cs) w ≡ (
            let (r, w') =
              embed_content
                (last_model cs (codes "text-embedding-004"))
                text
                (gemini_name gemini_names (last_task cs (codes "text-matching")))
                w in
            continue r (λ vs v. (first_embedding vs, v)) w'))
        × (ollama_get_embedding embeddings float32 text (map option_of cs) w ≡ (
            let (r, w') =
              embeddings
                (record {
                  model = last_model cs (codes "nomic-embed-text");
                  prompt = text;
                  keep_alive = sixty_minutes;
                })
                w in
            continue r (λ v v'. (ok (map float32 v), v')) w'))
  unfolding jina_request jina_get_embedding jina_header defaults gemini_get_embedding
      gemini_settings ollama_get_embedding ollama_request
  requests_by_choice net client embed_content embeddings float32 text cs w = (
    rw (apply_options_lem cs _) refl,
    rw (apply_options_lem cs _, map_jina_task_to_gemini_lem) refl,
    rw (apply_options_lem cs _) refl,
  )
