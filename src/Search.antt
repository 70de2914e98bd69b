-- ===== src/Search.antt =====
-- src/event_driven_rag_service/repository/search_job_repository.py: the search_jobs table and the
-- updates of its rows, and the world in which the search handlers run. `S` is the type of floats.
-- A job's `k` is a natural number, as the search API demands; the text form of stored vectors and
-- results and the timestamps are left out.
pub mod Run
pub mod Finalize
pub mod Rerank
pub mod Jobs
pub mod Ranking
pub mod Best
pub mod Settled
pub mod Reranked
pub mod Failures
mod Tests
use event_driven_rag_pipelin.Prelude.{
  ℕ, Text, Bool, false, Option, none, some, List, [], ◌∷◌, ◌++◌, Dict, lookup, insert, map, true,
}
use event_driven_rag_pipelin.Prelude.Action.{
  Exception, Outcome, returned, raised, Action, raise, lift, modify, pure, ◌>>=◌, ◌>>◌,
}
use event_driven_rag_pipelin.Tasks.{CandidateChunkRef}
use event_driven_rag_pipelin.Embed.{EmbeddingRow, chunk_row, query_row}

pub data Status : Type 0 where
  embedding searching reranking complete failed : Status

-- one entry of a job's results
pub record Result (S : Type 0) : Type 0 where
  pub chunk_id : Text
  pub post_id : ℕ
  pub text : Text
  pub metadata : Option Text
  pub score : S

-- a row of search_jobs
pub record Job (S : Type 0) : Type 0 where
  pub status : Status
  pub library_id : Text
  pub query : Text
  pub k : ℕ
  pub embedding_profile : Text
  pub chunks_table : Text
  pub rerank : Bool
  pub rerank_profile : Option Text
  pub embedding : Option (List S)
  pub results : Option (List (Result S))
  pub error : Option Text
  pub error_code : Option Text

pub data Event (S : Type 0) : Type 0 where
  search_candidates_retrieved :
      (query_job_id : Text)
      → List (CandidateChunkRef S)
      → (k : ℕ) → (rerank : Bool) → (rerank_profile trace_id : Option Text) → Event S
  search_job_completed : (query_job_id : Text) → (trace_id : Option Text) → Event S

pub record World (S : Type 0) : Type 0 where
  pub jobs : Dict (Job S)
  pub published : List (Event S)

-- a row of a chunk table, as `get_chunks_by_ids` returns it
pub record ChunkRow : Type 0 where
  pub id : Text
  pub post_id : ℕ
  pub text : Text
  pub metadata : Option Text

-- the statements that the handlers run on search_jobs
pub data Statement : Type 0 where
  getting marking_searching marking_reranking completing failing : Statement

-- What the database and the event log answer: a statement on a job may raise, and the two searches
-- in the chunk tables return rows or raise.
pub record Deps (S : Type 0) : Type 0 where
  pub statement_fails : Statement → Text → Option Exception
  pub search_nearest : Text → List S → ℕ → Outcome (List (CandidateChunkRef S))
  pub get_chunks_by_ids : List Text → Text → Outcome (List ChunkRow)
  pub publish_fails : Event S → Option Exception

module _ {S : Type 0} where
  -- `UPDATE search_jobs SET ... WHERE id = job_id`: no row, no change
  abbrev pub update_found : Text → (Job S → Job S) → Option (Job S) → Dict (Job S) → Dict (Job S)
  update_found i f none jobs = jobs
  update_found i f (some j) jobs = insert i (f j) jobs

  pub update_job : Text → (Job S → Job S) → Dict (Job S) → Dict (Job S)
  update_job i f jobs = update_found i f (lookup i jobs) jobs

  -- `create_job`, under the id that was drawn
  pub create_job :
      Text → Text → ℕ → Text → Text → Text → Bool → Option Text → Dict (Job S) → Dict (Job S)
  create_job i query k embedding_profile chunks_table library_id rerank rerank_profile jobs =
      insert i
        (record {
          status = embedding;
          library_id = library_id;
          query = query;
          k = k;
          embedding_profile = embedding_profile;
          chunks_table = chunks_table;
          rerank = rerank;
          rerank_profile = rerank_profile;
          embedding = none;
          results = none;
          error = none;
          error_code = none;
        })
        jobs

  pub store_embedding : Text → List S → Dict (Job S) → Dict (Job S)
  unfolding update_job
  store_embedding i vector = update_job i (λ (j : Job S). record j { embedding = some vector })

  pub set_searching : Text → Dict (Job S) → Dict (Job S)
  unfolding update_job
  set_searching i = update_job i (λ (j : Job S). record j { status = searching })

  pub set_reranking : Text → Dict (Job S) → Dict (Job S)
  unfolding update_job
  set_reranking i = update_job i (λ (j : Job S). record j { status = reranking })

  pub set_complete : Text → List (Result S) → Dict (Job S) → Dict (Job S)
  unfolding update_job
  set_complete i results =
      update_job i (λ (j : Job S). record j { status = complete; results = some results })

  pub set_failed : Text → Text → Option Text → Dict (Job S) → Dict (Job S)
  unfolding update_job
  set_failed i error code =
      update_job i
        (λ (j : Job S). record j { status = failed; error = some error; error_code = code })

  -- `save_batch`: chunk rows are ignored
  pub save_batch : List (EmbeddingRow (List S)) → Dict (Job S) → Dict (Job S)
  unfolding store_embedding
  save_batch [] jobs = jobs
  save_batch (chunk_row c m v t ∷ rows) jobs = save_batch rows jobs
  save_batch (query_row i m v ∷ rows) jobs = save_batch rows (store_embedding i v jobs)

-- raises the exception, if there is one, and else makes the change
abbrev pub unless_fails : {W : Type 0} → Option Exception → (W → W) → Action W (Unit {0})
unless_fails none f = modify f
unless_fails (some e) f = raise e

module _ {S : Type 0} (d : Deps S) where
  abbrev pub on_jobs :
      Statement → Text → (Dict (Job S) → Dict (Job S)) → Action (World S) (Unit {0})
  on_jobs s i f = unless_fails (d.statement_fails s i) (λ w. record w { jobs = f w.jobs })

  abbrev pub found_job : Option Exception → Text → Action (World S) (Option (Job S))
  found_job none i w = (returned (lookup i w.jobs), w)
  found_job (some e) i w = (raised e, w)

  pub get_job : Text → Action (World S) (Option (Job S))
  get_job i = found_job (d.statement_fails getting i) i

  pub mark_searching : Text → Action (World S) (Unit {0})
  unfolding set_searching
  mark_searching i = on_jobs marking_searching i (set_searching i)

  pub mark_reranking : Text → Action (World S) (Unit {0})
  unfolding set_reranking
  mark_reranking i = on_jobs marking_reranking i (set_reranking i)

  pub complete_job : Text → List (Result S) → Action (World S) (Unit {0})
  unfolding set_complete
  complete_job i results = on_jobs completing i (set_complete i results)

  pub fail_job : Text → Text → Option Text → Action (World S) (Unit {0})
  unfolding set_failed
  fail_job i error code = on_jobs failing i (set_failed i error code)

  pub publish : Event S → Action (World S) (Unit {0})
  publish e =
      unless_fails (d.publish_fails e) (λ w. record w { published = w.published ++ (e ∷ []) })

-- `{r["id"]: r for r in rows}`
pub rows_by_id : List ChunkRow → Dict ChunkRow → Dict ChunkRow
unfolding insert
rows_by_id [] d = d
rows_by_id (r ∷ rows) d = rows_by_id rows (insert r.id r d)

-- `list({c.chunk_id: c.score for c in candidates}.keys())`
pub candidate_ids : {S : Type 0} → List (CandidateChunkRef S) → Dict S → List Text
unfolding insert
candidate_ids [] d = map (λ e. e.0) d
candidate_ids (c ∷ candidates) d = candidate_ids candidates (insert c.chunk_id c.score d)

-- the result of a chunk that was found
abbrev pub result_of : {S : Type 0} → Text → S → ChunkRow → Result S
result_of i score r = record {
  chunk_id = i;
  post_id = r.post_id;
  text = r.text;
  metadata = r.metadata;
  score = score;
}

abbrev pub found : Option ChunkRow → Bool
found none = false
found (some r) = true

abbrev pub add_found : {S : Type 0} → Text → S → Option ChunkRow → List (Result S) → List (Result S)
add_found i score none rest = rest
add_found i score (some r) rest = result_of i score r ∷ rest
