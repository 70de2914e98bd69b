-- ===== src/Embed.antt =====
-- src/event_driven_rag_service/handlers/embed_handler.py. The injected fetcher, encoder, store and
-- event log are parameters: what each call returns or raises. The world holds what was saved and
-- published. Spans, logs and metrics are left out.
pub mod Fate
pub mod Accounts
pub mod Results
pub mod Groups
pub mod Query
pub mod Tests
use event_driven_rag_pipelin.Prelude.{
  ℕ, ◌+◌, ◌≡◌, Text, text, text_eq, contains, Bool, true, false, not, ◌&&◌, ◌||◌, Option, none,
  some, List, [], ◌∷◌, ◌++◌, map, ◌==◌, if◌then◌else◌, keep, first, exists, is_empty,
}
use event_driven_rag_pipelin.Prelude.Action.{
  Exception, chunk_table_not_found, embedding_unavailable, other, Outcome, returned, raised, Action,
  pure, raise, lift, modify, rescue, attempt, ◌>>=◌, ◌>>◌,
}
use event_driven_rag_pipelin.Config.{EmbedConfig, config_for}
use event_driven_rag_pipelin.Tasks.{
  BaseTask, EmbedKind, EmbedTask, chunk, query, is_blank, no_items,
}

-- ChunkEmbeddingRow and QueryEmbeddingRow, with vectors of type `V`
pub data EmbeddingRow (V : Type 0) : Type 0 where
  chunk_row : (chunk_id model_name : Text) → V → (chunk_table : Text) → EmbeddingRow V
  query_row : (query_job_id model_name : Text) → V → EmbeddingRow V

pub record EmbeddingCompletedEvent : Type 0 where
  pub post_id : ℕ
  pub post_table : Text
  pub chunk_ids : List Text
  pub chunk_table : Text
  pub model_name : Text
  pub trace_id : Option Text
  pub parent_span_id : Option Text

pub record SearchQueryEmbeddedEvent : Type 0 where
  pub query_job_id : Text
  pub model_name : Text
  pub trace_id : Option Text
  pub parent_span_id : Option Text

pub data Event : Type 0 where
  embedding_completed : EmbeddingCompletedEvent → Event
  search_query_embedded : SearchQueryEmbeddedEvent → Event

-- What the handler has done to its store and its event log, oldest first.
pub record World (V : Type 0) : Type 0 where
  pub saved : List (EmbeddingRow V)
  pub published : List Event

pub record Deps (V : Type 0) : Type 0 where
  pub fetch_texts : List Text → Text → Outcome (List (Text × Text))
  -- save_batch and publish: the exception that the call raises, if it does
  pub save_fails : List (EmbeddingRow V) → Option Exception
  pub publish_fails : Event → Option Exception
  -- propagate_trace: the ids of the current span, or the given trace id
  pub propagate_trace : Option Text → Option Text × Option Text

-- One text of a task: `(task, chunk_id, text)`.
pub record Triple : Type 0 where
  pub task : EmbedTask
  pub chunk_id : Text
  pub content : Text

-- What the fetch loop makes of one task.
pub data Fetched : Type 0 where
  skipped failed : Fetched
  texts : List (Text × Text) → Fetched

abbrev kind_eq : EmbedKind → EmbedKind → Bool
kind_eq chunk chunk = true
kind_eq query query = true
kind_eq _ _ = false

abbrev pub option_eq {ℓ} : {A : Type ℓ} → (A → A → Bool) → Option A → Option A → Bool
option_eq eq none none = true
option_eq eq (some a) (some b) = eq a b
option_eq eq _ _ = false

abbrev texts_eq : List Text → List Text → Bool
texts_eq [] [] = true
texts_eq (s ∷ ss) (t ∷ ts) = text_eq s t && texts_eq ss ts
texts_eq _ _ = false

-- `==` of the pydantic models: field by field, and not by identity
pub task_eq : EmbedTask → EmbedTask → Bool
task_eq a b =
    text_eq a.base.task_id b.base.task_id
    && (option_eq text_eq a.base.trace_id b.base.trace_id
        && (option_eq text_eq a.base.parent_span_id b.base.parent_span_id
            && (option_eq text_eq a.base.source_event_id b.base.source_event_id
                && (kind_eq a.task_type b.task_type
                    && (text_eq a.model_name b.model_name
                        && (option_eq (λ m n. m == n) a.post_id b.post_id
                            && (option_eq text_eq a.post_table b.post_table
                                && (texts_eq a.chunk_ids b.chunk_ids
                                    && (option_eq text_eq a.chunk_table b.chunk_table
                                        && (option_eq text_eq a.query_text b.query_text
                                            && option_eq text_eq a.query_job_id
                                                b.query_job_id))))))))))

-- `[t for t in tasks if t not in left_out]`
pub not_in : List EmbedTask → List EmbedTask → List EmbedTask
unfolding task_eq
not_in left_out tasks = keep (λ t. not (exists (λ f. task_eq t f) left_out)) tasks

classify : Outcome (List (Text × Text)) → Fetched
classify (returned pairs) = texts pairs
classify (raised (chunk_table_not_found m)) = skipped
classify (raised _) = failed

abbrev or_blank : Option Text → Text
or_blank none = []
or_blank (some s) = s

abbrev add_texts : EmbedTask → List (Text × Text) → List Triple → List Triple
add_texts t [] rest = rest
add_texts t ((c, s) ∷ pairs) rest =
    record { task = t; chunk_id = c; content = s } ∷ add_texts t pairs rest

add_fetched : EmbedTask → Fetched → List Triple × List EmbedTask → List Triple × List EmbedTask
add_fetched t skipped r = r
add_fetched t failed (triples, fetch_failed) = (triples, t ∷ fetch_failed)
add_fetched t (texts pairs) (triples, fetch_failed) = (add_texts t pairs triples, fetch_failed)

module _ {V : Type 0} (d : Deps V) where
  -- the body of the loop over the tasks, up to the appends
  pub fetched : EmbedTask → Fetched
  unfolding classify
  fetched t =
      if no_items t.chunk_ids || is_blank t.chunk_table
      then skipped
      else classify (d.fetch_texts t.chunk_ids (or_blank t.chunk_table))

  -- the fetch loop: the triples, and the tasks whose fetch failed
  pub gather : List EmbedTask → List Triple × List EmbedTask
  unfolding fetched add_fetched
  gather [] = ([], [])
  gather (t ∷ tasks) = add_fetched t (fetched t) (gather tasks)

module _ {V : Type 0} where
  abbrev take_vector : {A : Type 0} → List V → (V → List V → Outcome A) → Outcome A
  take_vector [] k = raised (other (text "list index out of range"))
  take_vector (v ∷ vs) k = k v vs

  abbrev add_row :
      EmbeddingRow V → Outcome (List (EmbeddingRow V)) → Outcome (List (EmbeddingRow V))
  add_row r (returned rows) = returned (r ∷ rows)
  add_row r (raised e) = raised e

  -- one row for each triple, with the vector at its position
  pub rows_of : Text → List Triple → List V → Outcome (List (EmbeddingRow V))
  rows_of model_name [] vectors = returned []
  rows_of model_name (t ∷ triples) vectors = take_vector vectors (λ v vs.
      add_row (chunk_row t.chunk_id model_name v (or_blank t.task.chunk_table))
        (rows_of model_name triples vs))

-- group_chunks and group_meta: one entry for each (post_id, chunk_table), in order of first use
pub record Group : Type 0 where
  pub post_id : Option ℕ
  pub chunk_table : Option Text
  pub post_table : Option Text
  pub chunk_ids : List Text

abbrev pub same_group : Triple → Group → Bool
same_group t g =
    option_eq (λ m n. m == n) g.post_id t.task.post_id
    && option_eq text_eq g.chunk_table t.task.chunk_table

pub add_chunk : Triple → List Group → List Group
add_chunk t [] =
    record {
      post_id = t.task.post_id;
      chunk_table = t.task.chunk_table;
      post_table = t.task.post_table;
      chunk_ids = t.chunk_id ∷ [];
    }
    ∷ []
add_chunk t (g ∷ groups) =
    if same_group t g
    then record g { chunk_ids = g.chunk_ids ++ (t.chunk_id ∷ []) } ∷ groups
    else g ∷ add_chunk t groups

pub group_from : List Triple → List Group → List Group
unfolding add_chunk
group_from [] groups = groups
group_from (t ∷ triples) groups = group_from triples (add_chunk t groups)

abbrev completed_with :
    Text
    → Option Text
    → Option Text
    → List Text
    → Option ℕ
    → Option Text
    → Option Text
    → Outcome Event
completed_with model_name trace_id parent ids (some p) (some pt) (some ct) = returned (
    embedding_completed (record {
      post_id = p;
      post_table = pt;
      chunk_ids = ids;
      chunk_table = ct;
      model_name = model_name;
      trace_id = trace_id;
      parent_span_id = parent;
    }))
completed_with model_name trace_id parent ids _ _ _ = raised (other (text "validation error"))

-- the event's constructor, which validates that the ids and tables are there
pub completed_event : Text → Option Text × Option Text → Group → Outcome Event
completed_event model_name (trace_id, parent) g =
    completed_with model_name trace_id parent g.chunk_ids g.post_id g.post_table g.chunk_table

-- `{id(t[0]): t[0] for t in triples}.values()`
pub seen : List Triple → List EmbedTask → List EmbedTask
seen [] acc = acc
seen (t ∷ triples) acc =
    seen triples (if exists (λ x. x.ident == t.task.ident) acc then acc else acc ++ (t.task ∷ []))

abbrev fails_or : {W : Type 0} → Option Exception → (W → W) → Action W (Unit {0})
fails_or none f = modify f
fails_or (some e) f = raise e

-- `query_prefix + query`, where the model has a prefix
abbrev pub prefixed : Option EmbedConfig → Text → Text
prefixed none q = q
prefixed (some cfg) q = elim cfg.query_prefix [ none ↦ q | some p ↦ p ++ q ]

abbrev first_vector : {V : Type 0} → List V → Outcome V
first_vector [] = raised (other (text "list index out of range"))
first_vector (v ∷ vs) = returned v

-- `encoder.encode([query_text])[0]`
encode_one : {V : Type 0} → Outcome (List V) → Outcome V
encode_one (returned vectors) = first_vector vectors
encode_one (raised e) = raised e

module _ {V : Type 0} (d : Deps V) where
  pub save_batch : List (EmbeddingRow V) → Action (World V) (Unit {0})
  save_batch rows = fails_or (d.save_fails rows) (λ w. record w { saved = w.saved ++ rows })

  pub publish : Event → Action (World V) (Unit {0})
  publish e = fails_or (d.publish_fails e) (λ w. record w { published = w.published ++ (e ∷ []) })

  pub publish_groups : Text → Option Text × Option Text → List Group → Action (World V) (Unit {0})
  unfolding publish completed_event
  publish_groups model_name ids [] = pure tt
  publish_groups model_name ids (g ∷ groups) = do
    event ← lift (completed_event model_name ids g)
    publish event
    publish_groups model_name ids groups

  first_trace : List Triple → Option Text
  first_trace [] = none
  first_trace (t ∷ triples) = t.task.base.trace_id

  -- from the vectors to the result
  pub persist :
      Text
      → List Triple
      → List EmbedTask
      → List V
      → Action (World V) (List EmbedTask × List EmbedTask)
  unfolding rows_of save_batch publish_groups group_from seen first_trace
  persist model_name triples fetch_failed vectors = do
    rows ← lift (rows_of model_name triples vectors)
    save_batch rows
    publish_groups model_name (d.propagate_trace (first_trace triples)) (group_from triples [])
    pure (seen triples [], fetch_failed)

  abbrev after_encode :
      Text
      → List EmbedTask
      → List Triple
      → List EmbedTask
      → Outcome (List V)
      → Action (World V) (List EmbedTask × List EmbedTask)
  after_encode model_name tasks triples fetch_failed (returned vectors) =
      persist model_name triples fetch_failed vectors
  after_encode model_name tasks triples fetch_failed (raised (embedding_unavailable m)) =
      pure (not_in fetch_failed tasks, fetch_failed)
  after_encode model_name tasks triples fetch_failed (raised _) = pure ([], tasks)

  abbrev encode_all :
      Text
      → (List Text → Outcome (List V))
      → List EmbedTask
      → List Triple
      → List EmbedTask
      → Action (World V) (List EmbedTask × List EmbedTask)
  encode_all model_name encode tasks [] fetch_failed =
      pure (not_in fetch_failed tasks, fetch_failed)
  encode_all model_name encode tasks (t ∷ triples) fetch_failed =
      after_encode model_name tasks (t ∷ triples) fetch_failed
        (encode (map (λ x. x.content) (t ∷ triples)))

  -- `embed_chunks`, with `_embed_chunks_inner`: (ok_tasks, failed_tasks)
  pub embed_chunks :
      List EmbedTask
      → Text
      → (List Text → Outcome (List V))
      → Action (World V) (List EmbedTask × List EmbedTask)
  unfolding gather not_in persist
  embed_chunks tasks model_name encode =
      encode_all model_name encode tasks (gather d tasks).0 (gather d tasks).1

  -- the `try` block of `embed_query`
  pub query_block :
      EmbedTask → Text → Text → Text → (List Text → Outcome (List V)) → Action (World V) Bool
  unfolding encode_one save_batch publish
  query_block task q job_id model_name encode = do
    vector ← lift (encode_one (encode (prefixed (config_for model_name) q ∷ [])))
    save_batch (query_row job_id model_name vector ∷ [])
    let ids = d.propagate_trace task.base.trace_id
    publish (
        search_query_embedded (record {
          query_job_id = job_id;
          model_name = model_name;
          trace_id = ids.0;
          parent_span_id = ids.1;
        }))
    pure true

  -- `embed_query`: both `except` branches report a failure
  pub embed_query : EmbedTask → Text → (List Text → Outcome (List V)) → Action (World V) Bool
  unfolding query_block
  embed_query task model_name encode =
      if is_blank task.query_text || is_blank task.query_job_id
      then pure true
      else attempt
          (query_block task (or_blank task.query_text) (or_blank task.query_job_id) model_name
            encode)
          (λ e. pure false)
