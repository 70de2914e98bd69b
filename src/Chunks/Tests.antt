-- ===== src/Chunks/Tests.antt =====
-- A post of two windows, chunked twice, and its vectors saved.
use event_driven_rag_pipelin.Prelude.{
  All, inl, inr, ◌++◌, is_empty, ℕ, ◌≡◌, refl, ap, Text, text, text_eq, false, not, none, some,
  List, [], ◌∷◌, map, keep, length, lookup, insert,
}
use event_driven_rag_pipelin.Prelude.Action.{other, returned, raised}
use event_driven_rag_pipelin.Config.{embed_configs}
use event_driven_rag_pipelin.Tasks.{ChunkTask, title}
use event_driven_rag_pipelin.Posts.{Post, resolve_text}
use event_driven_rag_pipelin.TableNames.{
  lower, truncate_identifier, sanitize_model_name, build_chunk_table_name,
}
use event_driven_rag_pipelin.Embed.{EmbeddingRow, chunk_row}
use event_driven_rag_pipelin.Chunks.{
  Db, Chunk, ensure_table, get_text_hashes, select, hashes_from, bulk_insert, change, insert_all,
  unembedded, save_batch,
}
use event_driven_rag_pipelin.Chunks.Inserts.{rows_at, IsFresh}
use event_driven_rag_pipelin.Chunks.Embeds.{missing, is_saved}
use event_driven_rag_pipelin.Chunks.Fits.{FitsRow, save_batch_fitting}
use event_driven_rag_pipelin.Chunks.Handler.{
  World, Deps, chunk_of, chunk_table_name, chunks_from, build_chunks, publish_created, store_new,
  chunk_into, handle,
}
use event_driven_rag_pipelin.Chunks.Handler.Stored.{new_chunks, Stores}
use event_driven_rag_pipelin.Chunks.Handler.Announced.{handle-Stores}
use event_driven_rag_pipelin.Chunks.Handler.Again.{Idles, handle-Idles, unannounced-Idles}

abbrev post : Post
post = record {
  external_id = text "x";
  updated_at = 5;
  post_title = text "t";
  custom_title = none;
  body_text = none;
  custom_body = none;
  summary = none;
  analysis_text = none;
}

abbrev task : ChunkTask
task = record {
  base = record {
    task_id = text "1";
    trace_id = none;
    parent_span_id = none;
    source_event_id = none;
  };
  task_type = title;
  post_id = 7;
  post_table = text "p";
  embed_model = text "m";
  analysis_text = none;
}

abbrev deps : Deps
deps = record {
  fetch_post = λ i table. returned (some post);
  windows = λ k s. returned (s ∷ (9 ∷ s) ∷ []);
  estimate_tokens = λ s. length s;
  sha256 = λ s. 1 ∷ s;
  uuid = λ n. n ∷ [];
  publish_fails = λ e. none;
  propagate_trace = λ t. (t, none);
}

digests : (s : Text) → is_empty (deps.sha256 s) ≡ false
digests s = refl

uuid-injective : (i j : ℕ) → deps.uuid i ≡ deps.uuid j → i ≡ j
uuid-injective i j e = ap head_code e
  where
    head_code : Text → ℕ
    head_code [] = 0
    head_code (c ∷ s) = c

abbrev empty_world : World ℕ
empty_world = record { db = []; drawn = 0; published = [] }

empty_world-IsFresh : IsFresh deps.uuid 0 (rows_at (chunk_table_name task) empty_world.db)
unfolding lookup
empty_world-IsFresh = tt

abbrev ids : List Text
ids = (0 ∷ []) ∷ (1 ∷ []) ∷ []

first_run : (handle deps task empty_world).0 ≡ returned ids
unfolding handle chunk_into build_chunks chunks_from store_new publish_created chunk_table_name
    ensure_table get_text_hashes select hashes_from bulk_insert change insert_all lookup insert
    text_eq lower truncate_identifier sanitize_model_name build_chunk_table_name embed_configs
    resolve_text
first_run = refl

title_text : resolve_text task.task_type task.analysis_text post ≡ some (text "t")
unfolding resolve_text
title_text = refl

handle-Stores_example :
    ((handle deps task empty_world).0
      ≡ returned (map (λ c. c.id) (new_chunks deps task post (text "t") empty_world)))
    × Stores deps task empty_world
        (handle deps task empty_world).1
        2
        (new_chunks deps task post (text "t") empty_world)
handle-Stores_example =
    handle-Stores deps task uuid-injective post 116 [] empty_world (text "t" ∷ (9 ∷ text "t") ∷ [])
      refl title_text empty_world-IsFresh refl (λ e. refl)

handle-Idles_example :
    Idles deps task digests
      (handle deps task empty_world).1
      (handle deps task (handle deps task empty_world).1)
handle-Idles_example =
    handle-Idles deps task digests uuid-injective post 116 [] empty_world ids refl title_text
      empty_world-IsFresh first_run

-- the event bus is down
abbrev silent : Deps
silent = record deps { publish_fails = λ e. some (other (text "bus")) }

silent_new :
    new_chunks silent task post (text "t") empty_world
    ≡ chunk_of silent task post 0 0 (text "t") ∷ chunk_of silent task post 1 1 (9 ∷ text "t") ∷ []
unfolding chunks_from lookup hashes_from
silent_new = refl

unannounced-Idles_example :
    ((handle silent task empty_world).0 ≡ raised (other (text "bus")))
    × (rows_at (chunk_table_name task) (handle silent task empty_world).1.db
        ≡ rows_at (chunk_table_name task) empty_world.db
          ++ map unembedded (new_chunks silent task post (text "t") empty_world))
    × ((handle silent task empty_world).1.published ≡ [])
    × Idles silent task digests
        (handle silent task empty_world).1
        (handle silent task (handle silent task empty_world).1)
unannounced-Idles_example =
    unannounced-Idles silent task digests uuid-injective post 116 [] empty_world
      (other (text "bus")) (chunk_of silent task post 0 0 (text "t"))
      (chunk_of silent task post 1 1 (9 ∷ text "t") ∷ []) refl title_text empty_world-IsFresh
      (λ e. refl) silent_new

abbrev a_chunk : Text → Chunk
a_chunk i = record {
  id = i;
  post_id = 7;
  post_updated_at = some 5;
  chunk_index = 0;
  content = i;
  title = text "t";
  external_id = text "x";
  token_count = 1;
  text_hash = i;
}

abbrev two_rows : Db ℕ
two_rows =
    (
      text "c",
      record {
        dim = 3;
        rows = unembedded (a_chunk (text "a")) ∷ unembedded (a_chunk (text "b")) ∷ [];
      },
    )
    ∷ []

abbrev vectors : List (EmbeddingRow ℕ)
vectors = chunk_row (text "a") (text "m") 3 (text "C") ∷ chunk_row (text "b") (text "m") 4 [] ∷ []

vectors_fit : All (FitsRow (λ n. n) two_rows) vectors
unfolding lookup text_eq lower
vectors_fit = (inr (_, refl, (refl, tt)), (inl refl, tt))

save_batch_fitting_example :
    ((save_batch (λ n. n) vectors two_rows).0 ≡ returned tt)
    × (missing (λ n. n) (rows_at (text "c") (save_batch (λ n. n) vectors two_rows).1)
        ≡ keep
            (λ c. not (is_saved (λ n. n) (text "c") c.id vectors))
            (missing (λ n. n) (rows_at (text "c") two_rows)))
save_batch_fitting_example = save_batch_fitting (λ n. n) vectors two_rows (text "c") vectors_fit
