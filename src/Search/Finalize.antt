-- ===== src/Search/Finalize.antt =====
-- src/event_driven_rag_service/handlers/search_finalize_handler.py.
use event_driven_rag_pipelin.Prelude.{Option, none, some, List, [], ◌∷◌, take, Dict, lookup}
use event_driven_rag_pipelin.Prelude.Action.{
  Exception, message, Action, pure, raise, lift, attempt, ◌>>=◌, ◌>>◌,
}
use event_driven_rag_pipelin.Tasks.{SearchFinalizeTask, CandidateChunkRef}
use event_driven_rag_pipelin.Search.{
  Job, search_job_completed, World, Deps, ChunkRow, Result, get_job, complete_job, fail_job,
  publish, rows_by_id, candidate_ids, add_found,
}

-- the rows of the candidates that were found, in candidate order and with their ANN scores
unfoldable pub results_of :
    {S : Type 0} → Dict ChunkRow → List (CandidateChunkRef S) → List (Result S)
unfolding lookup
results_of by_id [] = []
results_of by_id (c ∷ candidates) =
    add_found c.chunk_id c.score (lookup c.chunk_id by_id) (results_of by_id candidates)

module _ {S : Type 0} (d : Deps S) (task : SearchFinalizeTask S) where
  -- the `try` block
  unfoldable pub finalize : Job S → Action (World S) (Unit {0})
  unfolding results_of rows_by_id candidate_ids complete_job publish
  finalize job = do
    let top_candidates = take job.k task.candidates
    rows ← lift (d.get_chunks_by_ids (candidate_ids top_candidates []) job.chunks_table)
    complete_job d task.job_id (results_of (rows_by_id rows []) top_candidates)
    publish d (search_job_completed task.job_id task.base.trace_id)

  unfoldable pub finalize_failed : Exception → Action (World S) (Unit {0})
  unfolding fail_job
  finalize_failed e = do fail_job d task.job_id (message e) none; raise e

  abbrev pub with_job : Option (Job S) → Action (World S) (Unit {0})
  with_job none = pure tt
  with_job (some job) = attempt (finalize job) finalize_failed

  -- `SearchFinalizeHandler.handle`
  unfoldable pub handle : Action (World S) (Unit {0})
  unfolding get_job finalize finalize_failed
  handle = get_job d task.job_id >>= with_job
