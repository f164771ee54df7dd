-- ===== src/Tests/EmbedRuns.antt =====
-- The clients of embed/ with services that answer with one vector, or with an empty one.
use go_api_boot.Base.{
  Str, List, map, false, codes, [], ◌∷◌, ◌++◌, ok, ◌≡◌, ◌≢◌, refl, inl, nat_eq, str_eq, str_beq,
}
use go_api_boot.Embed.{
  task_code_query, task_clustering, apply_options, defaults, with_task, with_code_query_task,
  map_jina_task_to_gemini,
}
use go_api_boot.Embed.Clients.{
  OllamaRequest, ollama_get_embedding, sixty_minutes, Vector, JinaNet, JinaClient, HttpPost,
  EmbedContent, jina_get_embedding, gemini_get_embedding, gemini_settings, read_answer,
  decode_answer, first_embedding, no_embedding,
}
use go_api_boot.Embed.Laws.{get_embedding-nonempty}
use go_api_boot.Embed.Choices.{
  Choice, keep_alive, task, option_of, last_model, last_task, last_late_chunking, last_multivector,
  posts, gemini_name, requests_by_choice,
}
use go_api_boot.Base.Exec.{Exec}

abbrev net : JinaNet HttpPost
net = record {
  marshal = λ r. ok (r.model ++ r.task);
  new_request = λ q. ok q;
  do_request =
      λ q w. (ok (record { status_code = 200; status_line = codes "200 OK"; body = q.body }), q);
  decode = λ body. ok ((1 ∷ 2 ∷ []) ∷ []);
}

abbrev client : JinaClient
client = record { api_key = codes "k"; url = codes "u" }

abbrev no_post : HttpPost
no_post = record { url = []; header = []; body = [] }

-- A service that returns the task that it was asked for.
abbrev gemini : EmbedContent HttpPost
gemini name text kind w = (ok (kind ∷ []), w)

run_jina : (jina_get_embedding net client (codes "x") [] no_post).0 ≡ ok (1 ∷ 2 ∷ [])
unfolding jina_get_embedding read_answer decode_answer first_embedding
run_jina = refl

run_gemini :
    (gemini_get_embedding gemini (codes "x") (with_code_query_task ∷ []) no_post).0
    ≡ ok (codes "CODE_RETRIEVAL_QUERY")
unfolding gemini_get_embedding gemini_settings apply_options defaults with_code_query_task with_task
    map_jina_task_to_gemini first_embedding str_beq
run_gemini = refl

empty_vector : first_embedding ([] ∷ []) ≡ no_embedding
unfolding first_embedding
empty_vector = refl

get_embedding-nonempty_example : ◌≢◌ {A = Vector} (1 ∷ 2 ∷ []) []
get_embedding-nonempty_example =
    get_embedding-nonempty net client gemini (codes "x") [] no_post (1 ∷ 2 ∷ []) (inl run_jina)

abbrev choices : List Choice
choices = task task_clustering ∷ keep_alive 7 ∷ task task_code_query ∷ []

-- A service that notes nothing and answers with one number.
abbrev ollama : OllamaRequest → Exec HttpPost Str Vector
ollama r w = (ok (r.keep_alive ∷ []), w)

requests_by_choice_example :
    (jina_get_embedding net client (codes "x") (map option_of choices) no_post
      ≡ posts net client
          (record {
            model = codes "jina-embeddings-v4";
            task = task_code_query;
            input = codes "x" ∷ [];
            late_chunking = false;
            return_multivector = false;
          })
          no_post)
    × (gemini_get_embedding gemini (codes "x") (map option_of choices) no_post
        ≡ (ok (codes "CODE_RETRIEVAL_QUERY"), no_post))
    × (ollama_get_embedding ollama (λ n. n) (codes "x") (map option_of choices) no_post
        ≡ (ok (sixty_minutes ∷ []), no_post))
unfolding last_model last_task last_late_chunking last_multivector gemini_name str_beq
    first_embedding
requests_by_choice_example =
    requests_by_choice net client gemini ollama (λ n. n) (codes "x") choices no_post
