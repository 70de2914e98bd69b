-- ===== src/Search/Rerank.antt =====
-- src/event_driven_rag_service/handlers/rerank_handler.py. The reranker's `score` is a parameter;
-- its scores are ordered, as floats are that are not NaN.
use event_driven_rag_pipelin.Prelude.{
  Text, text, Bool, true, false, Option, none, some, List, [], ◌∷◌, map, keep, zip, take, Dict,
  lookup,
}
use event_driven_rag_pipelin.Prelude.Action.{
  Exception, chunk_table_not_found, embedding_unavailable, other, Outcome, Action, pure, lift,
  attempt, ◌>>=◌, ◌>>◌,
}
use event_driven_rag_pipelin.Prelude.Sort.{Order, sort_descending}
use event_driven_rag_pipelin.Tasks.{SearchRankTask, CandidateChunkRef}
use event_driven_rag_pipelin.Search.{
  Job, search_job_completed, World, Deps, ChunkRow, Result, get_job, mark_reranking, complete_job,
  fail_job, publish, rows_by_id, candidate_ids, found, add_found,
}

-- the text of a chunk that was found
abbrev pub text_in : Dict ChunkRow → Text → Text
text_in by_id i = elim (lookup i by_id) [ none ↦ [] | some r ↦ r.text ]

module _ (o : Order) where
  -- `[c for c in task.candidates if c.chunk_id in rows_by_id]`
  unfoldable pub survivors :
      Dict ChunkRow → List (CandidateChunkRef o.Score) → List (CandidateChunkRef o.Score)
  survivors by_id candidates = keep (λ c. found (lookup c.chunk_id by_id)) candidates

  -- candidates with their new scores, best first
  unfoldable pub rank :
      List (CandidateChunkRef o.Score) → List o.Score → List (CandidateChunkRef o.Score × o.Score)
  unfolding sort_descending
  rank ordered scores = sort_descending o (λ p. p.1) (zip ordered scores)

  unfoldable pub results_of :
      Dict ChunkRow → List (CandidateChunkRef o.Score × o.Score) → List (Result o.Score)
  unfolding lookup
  results_of by_id [] = []
  results_of by_id ((c, score) ∷ ranked) =
      add_found c.chunk_id score (lookup c.chunk_id by_id) (results_of by_id ranked)

  module _ (d : Deps o.Score) (task : SearchRankTask o.Score)
      (score : Text → List Text → Outcome (List o.Score)) where
    unfoldable pub publish_completed : Action (World o.Score) (Unit {0})
    unfolding publish
    publish_completed = publish d (search_job_completed task.job_id task.base.trace_id)

    abbrev pub finish : List (Result o.Score) → Action (World o.Score) Bool
    finish results = do complete_job d task.job_id results; publish_completed; pure true

    -- from the candidates that survived hydration
    unfoldable pub rank_survivors :
        Job o.Score → Dict ChunkRow → List (CandidateChunkRef o.Score) → Action (World o.Score) Bool
    unfolding complete_job publish_completed rank results_of
    rank_survivors job by_id [] = finish []
    rank_survivors job by_id (c ∷ ordered) = do
      scores ← lift (
          score job.query
            (map (λ (x : CandidateChunkRef o.Score). text_in by_id x.chunk_id) (c ∷ ordered)))
      finish (results_of by_id (take job.k (rank (c ∷ ordered) scores)))

    -- the `try` block
    unfoldable pub rerank : Job o.Score → Action (World o.Score) Bool
    unfolding rank_survivors survivors rows_by_id candidate_ids
    rerank job = do
      rows ← lift (d.get_chunks_by_ids (candidate_ids task.candidates []) job.chunks_table)
      rank_survivors job (rows_by_id rows []) (survivors (rows_by_id rows []) task.candidates)

    -- the two `except` branches: an unavailable reranker is acked with its code, the rest is nacked
    abbrev pub failed_with : Text → Option Text → Bool → Action (World o.Score) Bool
    failed_with error code b = do fail_job d task.job_id error code; pure b

    unfoldable pub rerank_failed : Exception → Action (World o.Score) Bool
    unfolding fail_job
    rerank_failed (embedding_unavailable m) =
        failed_with (text "The reranker is not available right now.")
          (some (text "rerank_unavailable")) true
    rerank_failed (chunk_table_not_found m) = failed_with m none false
    rerank_failed (other m) = failed_with m none false

    abbrev pub attempted : Job o.Score → Action (World o.Score) Bool
    attempted job = do mark_reranking d task.job_id; attempt (rerank job) rerank_failed

    abbrev pub with_job : Option (Job o.Score) → Action (World o.Score) Bool
    with_job none = pure true
    with_job (some job) = attempted job

    -- `RerankHandler.handle`
    unfoldable pub handle : Action (World o.Score) Bool
    unfolding get_job mark_reranking rerank rerank_failed
    handle = get_job d task.job_id >>= with_job
