-- ===== src/Chunks.antt =====
-- src/event_driven_rag_service/repository/chunk_repository.py over a database: the chunk tables by
-- name, and each statement with what it does to them. Statements run as the server runs them, one
-- after the other; a batch of statements is a transaction. The chunk's metadata are its two fields,
-- creation times are left out, and `size` is the dimension of a vector. The HNSW index changes no
-- result and is left out. The repository is unbound: each method is called with its table name.
pub mod Inserts
pub mod Embeds
pub mod Fits
pub mod Handler
mod Tests
use event_driven_rag_pipelin.Prelude.{
  ℕ, ◌+◌, ◌-◌, ◌≡◌, ◌&&◌, ◌||◌, ◌==◌, Text, text, text_eq, contains, is_empty, Bool, true, false,
  not, Option, none, some, is_some, List, [], ◌∷◌, ◌++◌, map, keep, exists, take, length, ltb,
  if◌then◌else◌, Dict, lookup, insert,
}
use event_driven_rag_pipelin.Prelude.Action.{
  Exception, chunk_table_not_found, other, Outcome, returned, raised, Action, pure, raise, modify,
  lift, ◌>>=◌, ◌>>◌,
}
use event_driven_rag_pipelin.Prelude.Sort.{Order, sort_descending}
use event_driven_rag_pipelin.TableNames.{lower}
use event_driven_rag_pipelin.Embed.{EmbeddingRow, chunk_row, query_row}

-- data_models/chunk.py
pub record Chunk : Type 0 where
  pub id : Text
  pub post_id : ℕ
  pub post_updated_at : Option ℕ
  pub chunk_index : ℕ
  pub content : Text
  pub title : Text
  pub external_id : Text
  pub token_count : ℕ
  pub text_hash : Text

pub record ChunkRow (V : Type 0) : Type 0 where
  pub chunk : Chunk
  pub embedding : Option V

pub record Table (V : Type 0) : Type 0 where
  pub dim : ℕ
  pub rows : List (ChunkRow V)

abbrev pub Db : Type 0 → Type 0
Db V = Dict (Table V)

abbrev pub undefined_table : Exception
undefined_table = other (text "UndefinedTableError")

-- NULL or older
abbrev is_older : Option ℕ → ℕ → Bool
is_older none keep_from = true
is_older (some v) keep_from = ltb v keep_from

module _ {V : Type 0} where
  -- CREATE TABLE IF NOT EXISTS
  abbrev created : Text → ℕ → Option (Table V) → Db V → Db V
  created name dim none db = insert name (record { dim = dim; rows = [] }) db
  created name dim (some t) db = db

  unfoldable pub ensure_table : Text → ℕ → Db V → Db V
  unfolding lower
  ensure_table table_name vector_dim db =
      created (lower table_name) vector_dim (lookup (lower table_name) db) db

  unfoldable pub table_exists : Text → Db V → Bool
  unfolding lower
  table_exists table_name db = is_some (lookup (lower table_name) db)

  -- the rows that a SELECT reads, or the exception for a table that is not there
  abbrev rows_or : Exception → Option (Table V) → Action (Db V) (List (ChunkRow V))
  rows_or e none = raise e
  rows_or e (some t) = pure t.rows

  unfoldable pub select : Exception → Text → Action (Db V) (List (ChunkRow V))
  unfolding lower
  select e table_name db = rows_or e (lookup (lower table_name) db) db

  abbrev of_post : ℕ → List (ChunkRow V) → List (ChunkRow V)
  of_post post_id rows = keep (λ r. r.chunk.post_id == post_id) rows

  -- `{row["text_hash"]: row["id"] for row in rows if row["text_hash"]}`
  unfoldable pub hashes_from : List (ChunkRow V) → Dict Text → Dict Text
  hashes_from [] d = d
  hashes_from (r ∷ rows) d =
      hashes_from rows
        (if is_empty r.chunk.text_hash then d else insert r.chunk.text_hash r.chunk.id d)

  unfoldable pub get_text_hashes : ℕ → Text → Action (Db V) (Dict Text)
  unfolding select hashes_from
  get_text_hashes post_id table_name = do
    rows ← select undefined_table table_name
    pure (hashes_from (of_post post_id rows) [])

  pub get_chunk_versions : ℕ → Text → Action (Db V) (Dict (Option ℕ))
  unfolding select
  get_chunk_versions post_id table_name = do
    rows ← select undefined_table table_name
    pure (versions (of_post post_id rows) [])
    where
      versions : List (ChunkRow V) → Dict (Option ℕ) → Dict (Option ℕ)
      versions [] d = d
      versions (r ∷ rows) d = versions rows (insert r.chunk.id r.chunk.post_updated_at d)

  -- `WHERE id = ANY($1)`
  abbrev with_ids : List Text → List (ChunkRow V) → List (ChunkRow V)
  with_ids ids rows = keep (λ r. contains r.chunk.id ids) rows

  unfoldable pub get_chunks_by_ids : List Text → Text → Action (Db V) (List (ChunkRow V))
  unfolding select
  get_chunks_by_ids [] table_name = pure []
  get_chunks_by_ids (i ∷ ids) table_name = do
    rows ← select (chunk_table_not_found (lower table_name)) table_name
    pure (with_ids (i ∷ ids) rows)

  unfoldable pub fetch_texts : List Text → Text → Action (Db V) (List (Text × Text))
  unfolding select
  fetch_texts ids table_name = do
    rows ← select (chunk_table_not_found (lower table_name)) table_name
    pure (map (λ r. (r.chunk.id, r.chunk.content)) (with_ids ids rows))

  abbrev embedding_of : List (ChunkRow V) → List V
  embedding_of [] = []
  embedding_of (r ∷ rows) = elim r.embedding [
    | none ↦ embedding_of rows
    | some v ↦ v ∷ embedding_of rows
  ]

  pub get_post_embeddings : ℕ → Text → Action (Db V) (List V)
  unfolding select
  get_post_embeddings post_id table_name = do
    rows ← select (chunk_table_not_found (lower table_name)) table_name
    pure (embedding_of (of_post post_id rows))

  abbrev is_unembedded : ChunkRow V → Bool
  is_unembedded r = not (is_some r.embedding)

  -- `fetch_unembedded_chunks` of repository/maintenance_repository.py: (chunk_id, post_id)
  unfoldable pub fetch_unembedded_chunks : Text → Action (Db V) (List (Text × ℕ))
  unfolding select
  fetch_unembedded_chunks table_name = do
    rows ← select undefined_table table_name
    pure (map (λ r. (r.chunk.id, r.chunk.post_id)) (keep is_unembedded rows))

  -- a statement that changes the rows of one table
  abbrev changed : Text → Table V → Outcome (List (ChunkRow V)) → Action (Db V) (Unit {0})
  changed name t (returned rows) db = (returned tt, insert name (record t { rows = rows }) db)
  changed name t (raised e) db = (raised e, db)

  abbrev change_in :
      Text → (Table V → Outcome (List (ChunkRow V))) → Option (Table V) → Action (Db V) (Unit {0})
  change_in name f none = raise undefined_table
  change_in name f (some t) = changed name t (f t)

  unfoldable pub change : Text → (Table V → Outcome (List (ChunkRow V))) → Action (Db V) (Unit {0})
  unfolding lower
  change table_name f db = change_in (lower table_name) f (lookup (lower table_name) db) db

  abbrev pub unembedded : Chunk → ChunkRow V
  unembedded c = record { chunk = c; embedding = none }

  -- ON CONFLICT (id) DO NOTHING
  unfoldable pub insert_all : List Chunk → List (ChunkRow V) → List (ChunkRow V)
  insert_all [] rows = rows
  insert_all (c ∷ chunks) rows =
      insert_all chunks
        (if exists (λ r. text_eq r.chunk.id c.id) rows then rows else rows ++ (unembedded c ∷ []))

  unfoldable pub bulk_insert : List Chunk → Text → Action (Db V) (Unit {0})
  unfolding change insert_all
  bulk_insert [] table_name = pure tt
  bulk_insert (c ∷ chunks) table_name =
      change table_name (λ t. returned (insert_all (c ∷ chunks) t.rows))

  abbrev set_version : Text → ℕ → ChunkRow V → ChunkRow V
  set_version i v r =
      if text_eq r.chunk.id i
      then record r { chunk = record r.chunk { post_updated_at = some v } }
      else r

  pub bump_chunk_version : Text → ℕ → Text → Action (Db V) (Unit {0})
  unfolding change
  bump_chunk_version chunk_id version table_name =
      change table_name (λ t. returned (map (set_version chunk_id version) t.rows))

  abbrev is_stale : ℕ → ℕ → ChunkRow V → Bool
  is_stale post_id keep_from r =
      (r.chunk.post_id == post_id) && is_older r.chunk.post_updated_at keep_from

  -- the number of rows that are gone
  pub delete_stale_chunks : ℕ → ℕ → Text → Action (Db V) ℕ
  unfolding select change
  delete_stale_chunks post_id keep_from table_name = do
    rows ← select undefined_table table_name
    change table_name (λ t. returned (keep (λ r. not (is_stale post_id keep_from r)) t.rows))
    pure (length (keep (is_stale post_id keep_from) rows))

module _ {V : Type 0} (size : V → ℕ) where
  abbrev pub set_embedding : Text → V → ChunkRow V → ChunkRow V
  set_embedding i v r = if text_eq r.chunk.id i then record r { embedding = some v } else r

  -- UPDATE … SET embedding; a vector of another dimension does not fit the column
  abbrev put_if : Bool → Text → V → List (ChunkRow V) → Outcome (List (ChunkRow V))
  put_if true i v rows = raised (other (text "DataError"))
  put_if false i v rows = returned (map (set_embedding i v) rows)

  abbrev then_put :
      Outcome (List (ChunkRow V))
      → (List (ChunkRow V) → Outcome (List (ChunkRow V)))
      → Outcome (List (ChunkRow V))
  then_put (returned rows) f = f rows
  then_put (raised e) f = raised e

  unfoldable pub put_embeddings :
      ℕ → List (Text × V) → List (ChunkRow V) → Outcome (List (ChunkRow V))
  put_embeddings dim [] rows = returned rows
  put_embeddings dim ((i, v) ∷ params) rows =
      then_put (put_if (exists (λ r. text_eq r.chunk.id i) rows && not (size v == dim)) i v rows)
        (put_embeddings dim params)

  unfoldable pub update_embeddings : List (Text × V) → Text → Action (Db V) (Unit {0})
  unfolding change put_embeddings
  update_embeddings [] table_name = pure tt
  update_embeddings (p ∷ params) table_name =
      change table_name (λ t. put_embeddings t.dim (p ∷ params) t.rows)

  -- `by_table[table].append(row)`
  unfoldable pub add_to : Text → Text × V → Dict (List (Text × V)) → Dict (List (Text × V))
  add_to table p [] = (table, p ∷ []) ∷ []
  add_to table p ((t, ps) ∷ groups) =
      if text_eq t table then (t, ps ++ (p ∷ [])) ∷ groups else (t, ps) ∷ add_to table p groups

  -- the loop over the rows: those of queries and those without a table are passed over
  unfoldable pub by_table : List (EmbeddingRow V) → Dict (List (Text × V)) → Dict (List (Text × V))
  unfolding add_to
  by_table [] groups = groups
  by_table (query_row i m v ∷ rows) groups = by_table rows groups
  by_table (chunk_row i m v table ∷ rows) groups =
      by_table rows (if is_empty table then groups else add_to table (i, v) groups)

  unfoldable pub save_groups : Dict (List (Text × V)) → Action (Db V) (Unit {0})
  unfolding update_embeddings
  save_groups [] = pure tt
  save_groups ((table, params) ∷ groups) = do update_embeddings params table; save_groups groups

  unfoldable pub save_batch : List (EmbeddingRow V) → Action (Db V) (Unit {0})
  unfolding by_table save_groups
  save_batch rows = save_groups (by_table rows [])

-- `search_nearest`: the rows with a vector, but those of a post that is left out, by similarity to the
-- query, which `score` computes
module _ {V : Type 0} (o : Order) (score : V → o.Score) where
  abbrev is_other_post : Option ℕ → ChunkRow V → Bool
  is_other_post none r = true
  is_other_post (some p) r = not (r.chunk.post_id == p)

  unfoldable pub scored : List (ChunkRow V) → List (ChunkRow V × o.Score)
  scored [] = []
  scored (r ∷ rows) =
      let rest = scored rows in elim r.embedding [ none ↦ rest | some v ↦ (r, score v) ∷ rest ]

  unfoldable pub search_nearest : Text → ℕ → Option ℕ → Action (Db V) (List (ChunkRow V × o.Score))
  unfolding select scored
  search_nearest table_name k exclude_post_id = do
    rows ← select undefined_table table_name
    pure
        (take k (sort_descending o (λ p. p.1) (scored (keep (is_other_post exclude_post_id) rows))))
