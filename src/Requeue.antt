-- ===== src/Requeue.antt =====
-- src/event_driven_rag_service/services/requeue_service.py and chunk_backfill_service.py. The readers and
-- the publishers are parameters: what a call returns, and the exception that it raises. Task ids are
-- drawn from a sequence. Logging is left out.
pub mod Groups
pub mod Runs
pub mod Backfill
pub mod Returns
mod Tests
use event_driven_rag_pipelin.Prelude.{
  ℕ, ◌+◌, ◌==◌, Text, text, Option, none, some, List, [], ◌∷◌, ◌++◌, length, if◌then◌else◌, Dict,
  Bool, true, false,
}
use event_driven_rag_pipelin.Prelude.Action.{
  Exception, Outcome, returned, raised, Action, pure, raise, modify, lift, ◌>>=◌, ◌>>◌,
}
use event_driven_rag_pipelin.Config.{EmbedConfig, embed_configs, qwen3_4b_embed_cfg}
use event_driven_rag_pipelin.Tasks.{BaseTask, EmbedTask, chunk, ChunkTask, ChunkKind}
use event_driven_rag_pipelin.TableNames.{build_chunk_table_suffix_map, parse_chunk_table_name}

pub record RequeueResult : Type 0 where
  pub requeued_chunks : ℕ
  pub tasks_published : ℕ
  pub tables_scanned : ℕ
  pub tables_skipped : ℕ
  pub skipped_table_names : List Text

-- The tasks that were published, with their routing keys.
pub record World (T : Type 0) : Type 0 where
  pub drawn : ℕ
  pub published : List (Text × T)

pub record Publisher (T : Type 0) : Type 0 where
  pub uuid : ℕ → Text
  pub publish_fails : Text × T → Option Exception

abbrev pub sent : {T : Type 0} → Option Exception → Text × T → Action (World T) (Unit {0})
sent none m = modify (λ w. record w { published = w.published ++ (m ∷ []) })
sent (some e) m = raise e

-- a task with a fresh id
unfoldable pub publish :
    {T : Type 0} → Publisher T → Text → (BaseTask → T) → Action (World T) (Unit {0})
publish {T} d routing_key task w =
    let m : Text × T = (
      routing_key,
      task (record {
        task_id = d.uuid w.drawn;
        trace_id = none;
        parent_span_id = none;
        source_event_id = none;
      }),
    ) in
    sent (d.publish_fails m) m (record w { drawn = w.drawn + 1 })

-- `by_post[post_id].append(chunk_id)`
unfoldable pub add_chunk : Text → ℕ → List (ℕ × List Text) → List (ℕ × List Text)
add_chunk chunk_id post_id [] = (post_id, chunk_id ∷ []) ∷ []
add_chunk chunk_id post_id ((p, ids) ∷ groups) =
    if p == post_id
    then (p, ids ++ (chunk_id ∷ [])) ∷ groups
    else (p, ids) ∷ add_chunk chunk_id post_id groups

unfoldable pub by_post : List (Text × ℕ) → List (ℕ × List Text) → List (ℕ × List Text)
unfolding add_chunk
by_post [] groups = groups
by_post ((chunk_id, post_id) ∷ unembedded) groups =
    by_post unembedded (add_chunk chunk_id post_id groups)

-- the task of a group; the receiver gives the object its identity
abbrev pub task_of : Text → Text → EmbedConfig → ℕ × List Text → BaseTask → EmbedTask
task_of post_table chunk_table cfg (post_id, chunk_ids) base = record {
  ident = 0;
  base = base;
  task_type = chunk;
  model_name = cfg.primary;
  post_id = some post_id;
  post_table = some post_table;
  chunk_ids = chunk_ids;
  chunk_table = some chunk_table;
  query_text = none;
  query_job_id = none;
}

module _ (d : Publisher EmbedTask) where
  unfoldable pub publish_groups :
      Text → Text → EmbedConfig → List (ℕ × List Text) → Action (World EmbedTask) (Unit {0})
  unfolding publish
  publish_groups post_table chunk_table cfg [] = pure tt
  publish_groups post_table chunk_table cfg (g ∷ groups) = do
    publish d cfg.queue (task_of post_table chunk_table cfg g)
    publish_groups post_table chunk_table cfg groups

  -- `_publish_tasks`
  unfoldable pub publish_tasks :
      Text → Text → EmbedConfig → List (Text × ℕ) → Action (World EmbedTask) ℕ
  unfolding publish_groups by_post
  publish_tasks post_table chunk_table cfg unembedded = do
    publish_groups post_table chunk_table cfg (by_post unembedded [])
    pure (length (by_post unembedded []))

  -- one turn of the loop over the tables, for a table whose name was parsed
  abbrev pub skipped_table : Text → RequeueResult → RequeueResult
  skipped_table table_name r = record r {
    tables_skipped = r.tables_skipped + 1;
    skipped_table_names = r.skipped_table_names ++ (table_name ∷ []);
  }

  abbrev pub requeued : ℕ → ℕ → RequeueResult → RequeueResult
  requeued chunks tasks r = record r {
    requeued_chunks = r.requeued_chunks + chunks;
    tasks_published = r.tasks_published + tasks;
  }

  unfoldable pub requeue_rows :
      Text
      → Text
      → EmbedConfig
      → RequeueResult
      → List (Text × ℕ)
      → Action (World EmbedTask) RequeueResult
  unfolding publish_tasks
  requeue_rows post_table table_name cfg r [] = pure r
  requeue_rows post_table table_name cfg r (row ∷ unembedded) = do
    n ← publish_tasks post_table table_name cfg (row ∷ unembedded)
    pure (requeued (length (row ∷ unembedded)) n r)

  abbrev pub requeue_parsed :
      (Text → Outcome (List (Text × ℕ)))
      → Text
      → RequeueResult
      → Option (Text × Text × EmbedConfig)
      → Action (World EmbedTask) RequeueResult
  requeue_parsed fetch table_name r none = pure (skipped_table table_name r)
  requeue_parsed fetch table_name r (some (post_table, task_type, cfg)) = do
    unembedded ← lift (fetch table_name)
    requeue_rows post_table table_name cfg r unembedded

  unfoldable pub scan_tables :
      (Text → Outcome (List (Text × ℕ)))
      → List Text
      → RequeueResult
      → Action (World EmbedTask) RequeueResult
  unfolding requeue_rows
  scan_tables fetch [] r = pure r
  scan_tables fetch (table_name ∷ tables) r = do
    r' ←
        requeue_parsed fetch table_name r
          (parse_chunk_table_name table_name (build_chunk_table_suffix_map embed_configs))
    scan_tables fetch tables r'

  abbrev pub started : List Text → RequeueResult
  started tables = record {
    requeued_chunks = 0;
    tasks_published = 0;
    tables_scanned = length tables;
    tables_skipped = 0;
    skipped_table_names = [];
  }

  -- `requeue_missing_embeddings`, where `tables` is what `list_chunk_tables` returns
  unfoldable pub requeue_missing_embeddings :
      (Text → Outcome (List (Text × ℕ))) → List Text → Action (World EmbedTask) RequeueResult
  unfolding scan_tables
  requeue_missing_embeddings fetch tables = scan_tables fetch tables (started tables)

pub record ChunkBackfillResult : Type 0 where
  pub posts_scanned : ℕ
  pub tasks_published : ℕ
  pub tables_scanned : ℕ

-- the summary_title task of a post
abbrev pub summary_task : Text → ℕ → BaseTask → ChunkTask
summary_task post_table post_id base = record {
  base = base;
  task_type = ChunkKind.summary_title;
  post_id = post_id;
  post_table = post_table;
  embed_model = qwen3_4b_embed_cfg.primary;
  analysis_text = none;
}

module _ (d : Publisher ChunkTask) where
  unfoldable pub publish_posts :
      Text → List ℕ → ChunkBackfillResult → Action (World ChunkTask) ChunkBackfillResult
  unfolding publish
  publish_posts post_table [] r = pure r
  publish_posts post_table (p ∷ post_ids) r = do
    publish d (text "cpu.chunk.post") (summary_task post_table p)
    publish_posts post_table post_ids (record r { tasks_published = r.tasks_published + 1 })

  unfoldable pub scan_posts :
      (Text → Outcome (List ℕ))
      → List Text
      → ChunkBackfillResult
      → Action (World ChunkTask) ChunkBackfillResult
  unfolding publish_posts
  scan_posts fetch [] r = pure r
  scan_posts fetch (post_table ∷ tables) r = do
    post_ids ← lift (fetch post_table)
    r' ←
        publish_posts post_table post_ids
          (record r { posts_scanned = r.posts_scanned + length post_ids })
    scan_posts fetch tables r'

  -- `requeue_missing_chunks`, where `tables` is what `list_post_tables` returns
  unfoldable pub requeue_missing_chunks :
      (Text → Outcome (List ℕ)) → List Text → Action (World ChunkTask) ChunkBackfillResult
  unfolding scan_posts
  requeue_missing_chunks fetch tables =
      scan_posts fetch tables
        (record { posts_scanned = 0; tasks_published = 0; tables_scanned = length tables })
