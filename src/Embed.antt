-- ===== src/Embed.antt =====
-- embed/embedding.go: the options of an embedding, and the clients of Ollama, Jina and Gemini in the
-- children. A vector is a list of floats, by their bits. `async.Go` runs its function, and the result
-- is what the channel gives: a client is modelled as the function that it runs.
pub mod Clients
pub mod Laws
pub mod Choices
use go_api_boot.Base.{
  ℕ, Str, codes, List, [], ◌∷◌, Bool, true, false, ◌==◌, str_eq, str_beq, if◌then◌else◌,
}

pub record Settings : Type 0 where
  pub model : Str
  pub keep_alive : ℕ
  pub task_name : Str
  pub late_chunking : Bool
  pub return_multivector : Bool

-- EmbedOption: func(*settings)
abbrev pub EmbedOption : Type 0
EmbedOption = Settings → Settings

-- A settings literal with a model and a task; the other fields are zero.
unfoldable pub defaults : Str → Str → Settings
defaults model task_name = record {
  model = model;
  keep_alive = 0;
  task_name = task_name;
  late_chunking = false;
  return_multivector = false;
}

abbrev pub task_retrieval_query : Str
task_retrieval_query = codes "retrieval.query"

abbrev pub task_retrieval_passage : Str
task_retrieval_passage = codes "retrieval.passage"

abbrev pub task_code_query : Str
task_code_query = codes "code.query"

abbrev pub task_code_passage : Str
task_code_passage = codes "code.passage"

abbrev pub task_text_matching : Str
task_text_matching = codes "text-matching"

abbrev pub task_classification : Str
task_classification = codes "classification"

abbrev pub task_clustering : Str
task_clustering = codes "clustering"

abbrev pub task_question_answering : Str
task_question_answering = codes "question-answering"

abbrev pub task_fact_verification : Str
task_fact_verification = codes "fact-verification"

-- WithModel
unfoldable pub with_model : Str → EmbedOption
with_model name s = record s { model = name }

-- WithKeepAlive
unfoldable pub with_keep_alive : ℕ → EmbedOption
with_keep_alive d s = record s { keep_alive = d }

-- WithLateChunking
unfoldable pub with_late_chunking : Bool → EmbedOption
with_late_chunking enabled s = record s { late_chunking = enabled }

-- WithReturnMultivector
unfoldable pub with_return_multivector : Bool → EmbedOption
with_return_multivector enabled s = record s { return_multivector = enabled }

-- WithTask
unfoldable pub with_task : Str → EmbedOption
with_task name s = record s { task_name = name }

-- WithRetrievalQueryTask and the other helpers
unfoldable pub with_retrieval_query_task : EmbedOption
with_retrieval_query_task = with_task task_retrieval_query

unfoldable pub with_retrieval_passage_task : EmbedOption
with_retrieval_passage_task = with_task task_retrieval_passage

unfoldable pub with_code_query_task : EmbedOption
with_code_query_task = with_task task_code_query

unfoldable pub with_code_passage_task : EmbedOption
with_code_passage_task = with_task task_code_passage

unfoldable pub with_text_matching_task : EmbedOption
with_text_matching_task = with_task task_text_matching

unfoldable pub with_classification_task : EmbedOption
with_classification_task = with_task task_classification

unfoldable pub with_clustering_task : EmbedOption
with_clustering_task = with_task task_clustering

unfoldable pub with_question_answering_task : EmbedOption
with_question_answering_task = with_task task_question_answering

unfoldable pub with_fact_verification_task : EmbedOption
with_fact_verification_task = with_task task_fact_verification

-- for _, opt := range opts { opt(&cfg) }
unfoldable pub apply_options : List EmbedOption → Settings → Settings
apply_options [] cfg = cfg
apply_options (opt ∷ opts) cfg = apply_options opts (opt cfg)

-- mapJinaTaskToGemini
unfoldable pub map_jina_task_to_gemini : Str → Str
unfolding str_beq
map_jina_task_to_gemini task =
    if task == task_retrieval_query
    then codes "RETRIEVAL_QUERY"
    else if task == task_retrieval_passage
    then codes "RETRIEVAL_DOCUMENT"
    else if task == task_code_query
    then codes "CODE_RETRIEVAL_QUERY"
    else if task == task_code_passage
    then codes "RETRIEVAL_DOCUMENT"
    else if task == task_text_matching
    then codes "SEMANTIC_SIMILARITY"
    else if task == task_classification
    then codes "CLASSIFICATION"
    else if task == task_clustering
    then codes "CLUSTERING"
    else if task == task_question_answering
    then codes "QUESTION_ANSWERING"
    else if task == task_fact_verification
    then codes "FACT_VERIFICATION"
    else codes "SEMANTIC_SIMILARITY"
