-- ===== src/Dispatch.antt =====
-- The dispatchers, src/event_driven_rag_service/dispatchers: what each does with one event. Tasks are
-- published to an exchange with a routing key; object ids are given by the receiver, and fresh
-- task ids are drawn from a sequence. Spans and queue-lag metrics are left out.
pub mod Changes
pub mod Routing
mod Tests
use event_driven_rag_pipelin.Prelude.{
  ℕ, ◌+◌, Text, text, Bool, true, false, ◌||◌, ◌&&◌, Option, none, some, List, [], ◌∷◌, ◌++◌,
  contains, if◌then◌else◌, Dict, lookup, insert, map,
}
use event_driven_rag_pipelin.Prelude.Action.{
  Exception, other, Outcome, returned, raised, Action, pure, raise, lift, attempt, modify, ◌>>=◌,
  ◌>>◌,
}
use event_driven_rag_pipelin.Config.{EmbedConfig, RerankConfig, embed_configs, rerank_configs}
use event_driven_rag_pipelin.Tasks.{
  BaseTask, ChunkKind, body, title, summary_title, analysis, EmbedKind, chunk, query, Task,
  chunk_task, embed_task, search_run_task, search_rank_task, search_finalize_task,
  CandidateChunkRef, is_blank, no_items,
}
use event_driven_rag_pipelin.Embed.{SearchQueryEmbeddedEvent}

-- what every event carries
pub record Trace : Type 0 where
  pub event_id : Option Text
  pub trace_id : Option Text

pub record PostSyncedEvent : Type 0 where
  pub trace : Trace
  pub post_id : ℕ
  pub post_table : Text
  pub fields_changed : List Text
  pub has_summary : Bool

pub record ChunksCreatedEvent : Type 0 where
  pub trace : Trace
  pub post_id : ℕ
  pub post_table : Text
  pub chunk_ids : List Text
  pub chunk_table : Text
  pub task_type : Text
  pub chunk_count : ℕ

pub record SearchJobCreatedEvent : Type 0 where
  pub trace : Trace
  pub query_job_id : Text
  pub query : Text
  pub embedding_profile : Text

pub record SearchCandidatesRetrievedEvent (S : Type 0) : Type 0 where
  pub trace : Trace
  pub query_job_id : Text
  pub candidates : List (CandidateChunkRef S)
  pub rerank : Bool
  pub rerank_profile : Option Text

pub record Message (S : Type 0) : Type 0 where
  pub exchange : Text
  pub routing_key : Text
  pub task : Task S

pub record World (S : Type 0) : Type 0 where
  pub drawn : ℕ
  pub published : List (Message S)

pub record Deps (S : Type 0) : Type 0 where
  pub uuid : ℕ → Text
  pub publish_fails : Message S → Option Exception
  pub propagate_trace : Option Text → Option Text × Option Text

abbrev pub kind_name : ChunkKind → Text
kind_name body = text "body"
kind_name title = text "title"
kind_name summary_title = text "summary_title"
kind_name analysis = text "analysis"

-- `EMBED_CONFIGS[name]`
abbrev pub required : {A : Type 0} → Option A → Outcome A
required none = raised (other (text "KeyError"))
required (some a) = returned a

abbrev pub or_body : Option EmbedConfig → Option EmbedConfig → Option EmbedConfig
or_body none b = b
or_body (some c) b = some c

-- `EMBED_CONFIGS.get(task_type, EMBED_CONFIGS["body"])`
unfoldable pub config_of : Text → Option EmbedConfig
config_of task_type = or_body (lookup task_type embed_configs) (lookup (text "body") embed_configs)

-- `_MODEL_TO_CONFIG`
unfoldable pub model_to_config : Dict EmbedConfig → Dict EmbedConfig → Dict EmbedConfig
model_to_config [] d = d
model_to_config ((ty, cfg) ∷ configs) d = model_to_config configs (insert cfg.primary cfg d)

-- the fields that were changed, or none for all
abbrev pub changed : List Text → List Text → Bool
changed [] fields = true
changed (f ∷ rest) fields = any_in fields (f ∷ rest)
  where
    any_in : List Text → List Text → Bool
    any_in [] l = false
    any_in (g ∷ gs) l = contains g l || any_in gs l

-- which chunk tasks an event asks for
pub is_changed : PostSyncedEvent → ChunkKind → Bool
is_changed e body = changed e.fields_changed (text "body_text" ∷ text "custom_body" ∷ [])
is_changed e title = changed e.fields_changed (text "title" ∷ text "custom_title" ∷ [])
is_changed e summary_title =
    e.has_summary
    && changed e.fields_changed (text "summary" ∷ text "title" ∷ text "custom_title" ∷ [])
is_changed e analysis = false

module _ {S : Type 0} (d : Deps S) where
  abbrev pub draw : Action (World S) Text
  draw w = (returned (d.uuid w.drawn), record w { drawn = w.drawn + 1 })

  abbrev pub sent : Option Exception → Message S → Action (World S) (Unit {0})
  sent none m = modify (λ w. record w { published = w.published ++ (m ∷ []) })
  sent (some e) m = raise e

  unfoldable pub publish : Message S → Action (World S) (Unit {0})
  publish m = sent (d.publish_fails m) m

  -- a ChunkTask of one kind, published on the route of chunk tasks
  pub publish_chunk :
      PostSyncedEvent → Option Text × Option Text → ChunkKind → Action (World S) (Unit {0})
  unfolding publish embed_configs
  publish_chunk e ids kind = do
    cfg ← lift (required (lookup (kind_name kind) embed_configs))
    task_id ← draw
    publish (record {
      exchange = text "ingestion";
      routing_key = text "cpu.chunk.post";
      task = chunk_task (record {
        base = record {
          task_id = task_id;
          trace_id = ids.0;
          parent_span_id = ids.1;
          source_event_id = e.trace.event_id;
        };
        task_type = kind;
        post_id = e.post_id;
        post_table = e.post_table;
        embed_model = cfg.primary;
        analysis_text = none;
      });
    })

  pub publish_changed :
      PostSyncedEvent → Option Text × Option Text → List ChunkKind → Action (World S) (Unit {0})
  unfolding publish_chunk is_changed
  publish_changed e ids [] = pure tt
  publish_changed e ids (kind ∷ kinds) = do
    if is_changed e kind then publish_chunk e ids kind else pure tt
    publish_changed e ids kinds

  -- `_dispatch_chunk_tasks`
  pub dispatch_chunk_tasks : PostSyncedEvent → Action (World S) (Unit {0})
  unfolding publish_changed
  dispatch_chunk_tasks e =
      publish_changed e (d.propagate_trace e.trace.trace_id) (body ∷ title ∷ summary_title ∷ [])

  -- one turn of `_handle_post_synced`, which logs an exception and goes on
  pub handle_post_synced : PostSyncedEvent → Action (World S) (Unit {0})
  unfolding dispatch_chunk_tasks
  handle_post_synced e = attempt (dispatch_chunk_tasks e) (λ x. pure tt)

  -- `_dispatch_embedding`
  unfoldable pub dispatch_embedding : ChunksCreatedEvent → Action (World S) (Unit {0})
  unfolding publish config_of
  dispatch_embedding e = do
    cfg ← lift (required (config_of e.task_type))
    task_id ← draw
    publish (record {
      exchange = text "embedding";
      routing_key = cfg.queue;
      task = embed_task (record {
        ident = 0;
        base = record {
          task_id = task_id;
          trace_id = (d.propagate_trace e.trace.trace_id).0;
          parent_span_id = (d.propagate_trace e.trace.trace_id).1;
          source_event_id = e.trace.event_id;
        };
        task_type = chunk;
        model_name = cfg.primary;
        post_id = some e.post_id;
        post_table = some e.post_table;
        chunk_ids = e.chunk_ids;
        chunk_table = some e.chunk_table;
        query_text = none;
        query_job_id = none;
      });
    })

  -- one turn of `_handle_chunks_created`, which logs an exception and goes on
  pub handle_chunks_created : ChunksCreatedEvent → Action (World S) (Unit {0})
  unfolding dispatch_embedding
  handle_chunks_created e = attempt (dispatch_embedding e) (λ x. pure tt)

  abbrev plain_base : Text → Option Text → BaseTask
  plain_base task_id trace_id = record {
    task_id = task_id;
    trace_id = trace_id;
    parent_span_id = none;
    source_event_id = none;
  }

  abbrev query_for : SearchJobCreatedEvent → Option EmbedConfig → Action (World S) (Unit {0})
  query_for e none = pure tt
  query_for e (some cfg) = do
    task_id ← draw
    publish (record {
      exchange = text "embedding";
      routing_key = cfg.queue;
      task = embed_task (record {
        ident = 0;
        base = plain_base task_id e.trace.trace_id;
        task_type = query;
        model_name = cfg.primary;
        post_id = none;
        post_table = none;
        chunk_ids = [];
        chunk_table = none;
        query_text = some e.query;
        query_job_id = some e.query_job_id;
      });
    })

  -- one turn of `_run_job_created`: an unknown profile is skipped
  unfoldable pub handle_job_created : SearchJobCreatedEvent → Action (World S) (Unit {0})
  unfolding publish model_to_config embed_configs
  handle_job_created e = query_for e (lookup e.embedding_profile (model_to_config embed_configs []))

  -- `event.get("rerank_profile") or "default"`
  abbrev pub profile_of : Option Text → Text
  profile_of none = text "default"
  profile_of (some []) = text "default"
  profile_of (some (c ∷ p)) = c ∷ p

  abbrev rank_for :
      SearchCandidatesRetrievedEvent S → Text → Option RerankConfig → Action (World S) (Unit {0})
  rank_for e profile none = pure tt
  rank_for e profile (some cfg) = do
    task_id ← draw
    publish (record {
      exchange = text "embedding";
      routing_key = cfg.queue;
      task = search_rank_task (record {
        base = plain_base task_id e.trace.trace_id;
        job_id = e.query_job_id;
        candidates = e.candidates;
        rerank_profile = some profile;
      });
    })

  abbrev finalize_for : SearchCandidatesRetrievedEvent S → Action (World S) (Unit {0})
  finalize_for e = do
    task_id ← draw
    publish (record {
      exchange = text "search";
      routing_key = text "cpu.search.finalize";
      task = search_finalize_task (record {
        base = plain_base task_id e.trace.trace_id;
        job_id = e.query_job_id;
        candidates = e.candidates;
      });
    })

  -- one turn of `_run_candidates_retrieved`
  pub handle_candidates_retrieved : SearchCandidatesRetrievedEvent S → Action (World S) (Unit {0})
  unfolding publish rerank_configs
  handle_candidates_retrieved e =
      if e.rerank
      then rank_for e (profile_of e.rerank_profile)
          (lookup (profile_of e.rerank_profile) rerank_configs)
      else finalize_for e

  -- one turn of EmbeddingDispatcher's loop
  pub handle_query_embedded : SearchQueryEmbeddedEvent → Action (World S) (Unit {0})
  unfolding publish
  handle_query_embedded e = do
    task_id ← draw
    publish (record {
      exchange = text "search";
      routing_key = text "cpu.search.run";
      task =
          search_run_task
            (record { base = plain_base task_id e.trace_id; job_id = e.query_job_id });
    })
