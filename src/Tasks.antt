-- ===== src/Tasks.antt =====
-- The tasks of src/event_driven_rag_service/tasks: base_task.py, chunk_task.py, embed_task.py and
-- search_tasks.py. The `kind` literal is the constructor of `Task`; `ident` stands for Python's
-- `id(task)`, by which the GPU worker tells task objects apart.
use event_driven_rag_pipelin.Prelude.{
  ℕ, Text, Option, List, [], ◌∷◌, Bool, true, false, is_empty, none, some,
}

pub record BaseTask : Type 0 where
  pub task_id : Text
  pub trace_id : Option Text
  pub parent_span_id : Option Text
  pub source_event_id : Option Text

pub data ChunkKind : Type 0 where
  body summary_title title analysis : ChunkKind

pub record ChunkTask : Type 0 where
  pub base : BaseTask
  pub task_type : ChunkKind
  pub post_id : ℕ
  pub post_table : Text
  pub embed_model : Text
  pub analysis_text : Option Text

pub data EmbedKind : Type 0 where
  chunk query : EmbedKind

pub record EmbedTask : Type 0 where
  pub ident : ℕ
  pub base : BaseTask
  pub task_type : EmbedKind
  pub model_name : Text
  pub post_id : Option ℕ
  pub post_table : Option Text
  pub chunk_ids : List Text
  pub chunk_table : Option Text
  pub query_text : Option Text
  pub query_job_id : Option Text

-- `score` is a float; `S` is the type of scores
pub record CandidateChunkRef (S : Type 0) : Type 0 where
  pub chunk_id : Text
  pub score : S

pub record SearchRunTask : Type 0 where
  pub base : BaseTask
  pub job_id : Text

pub record SearchRankTask (S : Type 0) : Type 0 where
  pub base : BaseTask
  pub job_id : Text
  pub candidates : List (CandidateChunkRef S)
  pub rerank_profile : Option Text

pub record SearchFinalizeTask (S : Type 0) : Type 0 where
  pub base : BaseTask
  pub job_id : Text
  pub candidates : List (CandidateChunkRef S)

-- `AnyTask` of registry.py; an InferTask is never published, so only its kind is kept
pub data Task (S : Type 0) : Type 0 where
  chunk_task : ChunkTask → Task S
  embed_task : EmbedTask → Task S
  infer_task : Task S
  search_run_task : SearchRunTask → Task S
  search_rank_task : SearchRankTask S → Task S
  search_finalize_task : SearchFinalizeTask S → Task S

-- `not s` for an optional text: it is None or empty
abbrev pub is_blank : Option Text → Bool
is_blank none = true
is_blank (some s) = is_empty s

abbrev pub no_items {ℓ} : {A : Type ℓ} → List A → Bool
no_items [] = true
no_items (x ∷ xs) = false
