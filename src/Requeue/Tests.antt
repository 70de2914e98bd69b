-- ===== src/Requeue/Tests.antt =====
-- A run over one chunk table with three un-embedded chunks and one table that is not known, and a
-- backfill of two posts.
use event_driven_rag_pipelin.Prelude.{
  ℕ, ◌≡◌, refl, Text, text, text_eq, none, List, [], ◌∷◌, insert, count,
}
use event_driven_rag_pipelin.Prelude.Action.{Outcome, returned}
use event_driven_rag_pipelin.Config.{embed_configs}
use event_driven_rag_pipelin.TableNames.{
  parse_chunk_table_name, build_chunk_table_suffix_map, suffixes_from, before, match_suffix,
  sanitize_model_name, lower, truncate_identifier,
}
use event_driven_rag_pipelin.Requeue.{
  Publisher, World, RequeueResult, ChunkBackfillResult, started, by_post, add_chunk, publish,
  publish_groups, publish_tasks, requeue_rows, scan_tables, requeue_missing_embeddings,
  publish_posts, scan_posts, requeue_missing_chunks,
}
use event_driven_rag_pipelin.Requeue.Groups.{posts, ids_for, by_post_lem}
use event_driven_rag_pipelin.Requeue.Runs.{Scanned}
use event_driven_rag_pipelin.Requeue.Returns.{requeue-Scanned}

abbrev publisher : {T : Type 0} → Publisher T
publisher {T} = record { uuid = λ n. n ∷ []; publish_fails = λ m. none }

abbrev empty_world : {T : Type 0} → World T
empty_world {T} = record { drawn = 0; published = [] }

abbrev rows : List (Text × ℕ)
rows = (text "a", 1) ∷ (text "b", 2) ∷ (text "c", 1) ∷ []

by_post_lem_example :
    (count 1 (posts (by_post rows [])) ≡ 1)
    × (ids_for 1 (by_post rows []) ≡ text "a" ∷ text "c" ∷ [])
by_post_lem_example = by_post_lem 1 rows

abbrev posts_of : Text → Outcome (List ℕ)
posts_of name = returned (1 ∷ 2 ∷ [])

abbrev backfilled : ChunkBackfillResult
backfilled = record { posts_scanned = 2; tasks_published = 2; tables_scanned = 1 }

backfills :
    (requeue_missing_chunks publisher posts_of (text "p" ∷ []) empty_world).0 ≡ returned backfilled
unfolding requeue_missing_chunks scan_posts publish_posts publish
backfills = refl

abbrev rows_of : Text → Outcome (List (Text × ℕ))
rows_of name = returned rows

abbrev tables : List Text
tables = text "p_chunks_title_baai_bge_small_en_v1_5" ∷ text "odd" ∷ []

requeue-Scanned_example :
    (r : RequeueResult) × ((requeue_missing_embeddings publisher rows_of tables empty_world).0
      ≡ returned r)
    × Scanned publisher rows_of tables
        (started publisher tables)
        r
        empty_world
        (requeue_missing_embeddings publisher rows_of tables empty_world).1
requeue-Scanned_example =
    requeue-Scanned publisher (λ m. refl) rows_of (λ name. (rows, refl)) tables empty_world

-- the odd table is passed over, the other one has three chunks of two posts
abbrev reported : RequeueResult
reported = record {
  requeued_chunks = 3;
  tasks_published = 2;
  tables_scanned = 2;
  tables_skipped = 1;
  skipped_table_names = text "odd" ∷ [];
}

requeues : (requeue_missing_embeddings publisher rows_of tables empty_world).0 ≡ returned reported
unfolding requeue_missing_embeddings scan_tables requeue_rows publish_tasks publish_groups publish
    by_post add_chunk parse_chunk_table_name build_chunk_table_suffix_map suffixes_from before
    match_suffix sanitize_model_name lower truncate_identifier insert text_eq embed_configs
requeues = refl
