-- ===== src/Chunks/Handler.antt =====
-- `ChunkPostHandler` of src/event_driven_rag_service/handlers/chunk_handler.py over the chunk tables.
-- The post fetcher, SHA-256, the supply of UUIDs and the event bus are parameters, and so is the
-- chunking strategy with its fallback, which returns the windows of a text or raises; one that does not
-- end has no counterpart here. Spans, logs and metrics are left out.
pub mod Stored
pub mod Announced
pub mod Again
use event_driven_rag_pipelin.Prelude.{
  ℕ, ◌+◌, Text, text, is_empty, Bool, true, false, not, Option, none, some, is_some, List, [], ◌∷◌,
  ◌++◌, map, keep, length, if◌then◌else◌, Dict, lookup,
}
use event_driven_rag_pipelin.Prelude.Action.{
  Exception, Outcome, returned, raised, Action, pure, raise, modify, lift, ◌>>=◌, ◌>>◌,
}
use event_driven_rag_pipelin.Config.{EmbedConfig, embed_configs}
use event_driven_rag_pipelin.Tasks.{ChunkKind, ChunkTask}
use event_driven_rag_pipelin.Posts.{Post, resolve_text}
use event_driven_rag_pipelin.TableNames.{build_chunk_table_name}
use event_driven_rag_pipelin.Dispatch.{ChunksCreatedEvent, kind_name}
use event_driven_rag_pipelin.Chunks.{Chunk, Db, ensure_table, get_text_hashes, bulk_insert}

pub record World (V : Type 0) : Type 0 where
  pub db : Db V
  pub drawn : ℕ
  pub published : List ChunksCreatedEvent

pub record Deps : Type 0 where
  pub fetch_post : ℕ → Text → Outcome (Option Post)
  pub windows : ChunkKind → Text → Outcome (List Text)
  pub estimate_tokens : Text → ℕ
  pub sha256 : Text → Text
  pub uuid : ℕ → Text
  pub publish_fails : ChunksCreatedEvent → Option Exception
  pub propagate_trace : Option Text → Option Text × Option Text

-- `ChunkTask.chunk_table_name`
unfoldable pub chunk_table_name : ChunkTask → Text
chunk_table_name task =
    build_chunk_table_name task.post_table (kind_name task.task_type) task.embed_model

-- `c.text_hash not in existing_hashes`
abbrev pub is_new : Dict Text → Chunk → Bool
is_new existing c = not (is_some (lookup c.text_hash existing))

-- the windows of a strategy that returned
abbrev pub windows_in : Outcome (List Text) → List Text
windows_in (returned windows) = windows
windows_in (raised e) = []

module _ (d : Deps) where
  abbrev pub windows_of : ChunkKind → Text → List Text
  windows_of kind s = windows_in (d.windows kind s)

  -- the chunk of the window at an index, with the UUID that is drawn for it
  abbrev pub chunk_of : ChunkTask → Post → ℕ → ℕ → Text → Chunk
  chunk_of task post n i window = record {
    id = d.uuid n;
    post_id = task.post_id;
    post_updated_at = some post.updated_at;
    chunk_index = i;
    content = window;
    title = post.post_title;
    external_id = post.external_id;
    token_count = d.estimate_tokens window;
    text_hash = d.sha256 window;
  }

  unfoldable pub chunks_from : ChunkTask → Post → ℕ → ℕ → List Text → List Chunk
  chunks_from task post n i [] = []
  chunks_from task post n i (window ∷ windows) =
      chunk_of task post n i window ∷ chunks_from task post (n + 1) (i + 1) windows

  abbrev pub created_event : ChunkTask → List Chunk → ℕ → ChunksCreatedEvent
  created_event task new_chunks n = record {
    trace = record {
      event_id = some (d.uuid n);
      trace_id = (d.propagate_trace task.base.trace_id).0;
    };
    post_id = task.post_id;
    post_table = task.post_table;
    chunk_ids = map (λ c. c.id) new_chunks;
    chunk_table = chunk_table_name task;
    task_type = kind_name task.task_type;
    chunk_count = length new_chunks;
  }

  module _ {V : Type 0} where
    -- a statement on the database
    abbrev pub on_db : {A : Type 0} → Action (Db V) A → Action (World V) A
    on_db f w = ((f w.db).0, record w { db = (f w.db).1 })

    abbrev pub built : ChunkTask → Post → List Text → Action (World V) (List Chunk)
    built task post windows w = (
      returned (chunks_from task post w.drawn 0 windows),
      record w { drawn = w.drawn + length windows },
    )

    -- `_build_chunks`
    unfoldable pub build_chunks : ChunkTask → Post → Text → Action (World V) (List Chunk)
    unfolding chunks_from
    build_chunks task post s = lift (d.windows task.task_type s) >>= built task post

    abbrev pub sent : Option Exception → ChunksCreatedEvent → Action (World V) (Unit {0})
    sent none e w =
        (returned tt, record w { drawn = w.drawn + 1; published = w.published ++ (e ∷ []) })
    sent (some x) e w = (raised x, record w { drawn = w.drawn + 1 })

    unfoldable pub publish_created : ChunkTask → List Chunk → Action (World V) (Unit {0})
    unfolding chunk_table_name
    publish_created task new_chunks w =
        let e = created_event task new_chunks w.drawn in sent (d.publish_fails e) e w

    unfoldable pub store_new : ChunkTask → List Chunk → Action (World V) (List Text)
    unfolding publish_created
    store_new task [] = pure []
    store_new task (c ∷ new_chunks) = do
      on_db (bulk_insert (c ∷ new_chunks) (chunk_table_name task))
      publish_created task (c ∷ new_chunks)
      pure (map (λ x. x.id) (c ∷ new_chunks))

    -- from the creation of the table on
    unfoldable pub chunk_into : ChunkTask → Post → Text → ℕ → Action (World V) (List Text)
    unfolding store_new build_chunks
    chunk_into task post s vector_dim = do
      on_db (λ db. (returned tt, ensure_table (chunk_table_name task) vector_dim db))
      existing ← on_db (get_text_hashes task.post_id (chunk_table_name task))
      all_chunks ← build_chunks task post s
      store_new task (keep (is_new existing) all_chunks)

    abbrev pub with_config :
        ChunkTask → Post → Text → Option EmbedConfig → Action (World V) (List Text)
    with_config task post s none = pure []
    with_config task post s (some cfg) = chunk_into task post s cfg.dim

    abbrev pub with_text : ChunkTask → Post → Option Text → Action (World V) (List Text)
    with_text task post none = pure []
    with_text task post (some []) = pure []
    with_text task post (some (c ∷ s)) =
        with_config task post (c ∷ s) (lookup (kind_name task.task_type) embed_configs)

    abbrev pub with_post : ChunkTask → Option Post → Action (World V) (List Text)
    with_post task none = pure []
    with_post task (some post) =
        with_text task post (resolve_text task.task_type task.analysis_text post)

    -- `handle`: the ids of the chunks that were inserted
    unfoldable pub handle : ChunkTask → Action (World V) (List Text)
    unfolding chunk_into
    handle task = do post ← lift (d.fetch_post task.post_id task.post_table); with_post task post
