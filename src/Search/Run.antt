-- ===== src/Search/Run.antt =====
-- src/event_driven_rag_service/handlers/search_handler.py.
use event_driven_rag_pipelin.Prelude.{Text, text, ◌++◌, Option, none, some, List, ◌∷◌}
use event_driven_rag_pipelin.Prelude.Action.{
  Exception, message, Action, pure, raise, lift, attempt, ◌>>=◌, ◌>>◌,
}
use event_driven_rag_pipelin.Tasks.{SearchRunTask}
use event_driven_rag_pipelin.Search.{
  Job, search_candidates_retrieved, World, Deps, get_job, mark_searching, fail_job, publish,
}

module _ {S : Type 0} (d : Deps S) (task : SearchRunTask) where
  abbrev pub no_embedding : Text
  no_embedding = text "Job " ++ (task.job_id ++ text " has no embedding stored — cannot search")

  -- the `try` block: the candidates are announced whether or not the job asks for reranking
  unfoldable pub search : Job S → List S → Action (World S) (Unit {0})
  unfolding publish
  search job vector = do
    candidates ← lift (d.search_nearest job.chunks_table vector job.k)
    publish d (
        search_candidates_retrieved task.job_id candidates job.k job.rerank job.rerank_profile
          task.base.trace_id)

  -- `except Exception`: the job fails and the exception goes on to the worker
  unfoldable pub search_failed : Exception → Action (World S) (Unit {0})
  unfolding fail_job
  search_failed e = do fail_job d task.job_id (message e) none; raise e

  abbrev pub with_embedding : Job S → Option (List S) → Action (World S) (Unit {0})
  with_embedding job (some (x ∷ vector)) = do
    mark_searching d task.job_id
    attempt (search job (x ∷ vector)) search_failed
  with_embedding job _ = fail_job d task.job_id no_embedding none

  abbrev pub with_job : Option (Job S) → Action (World S) (Unit {0})
  with_job none = pure tt
  with_job (some job) = with_embedding job job.embedding

  -- `SearchHandler.handle`
  unfoldable pub handle : Action (World S) (Unit {0})
  unfolding get_job mark_searching search search_failed
  handle = get_job d task.job_id >>= with_job
