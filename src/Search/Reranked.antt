-- ===== src/Search/Reranked.antt =====
-- How rerank_handler.py leaves a job, and that it does not raise.
use event_driven_rag_pipelin.Prelude.{
  ◌≡◌, refl, sym, subst, Text, Bool, true, false, Option, none, some, List, [], ◌∷◌, Dict, lookup,
}
use event_driven_rag_pipelin.Prelude.Action.{
  Exception, chunk_table_not_found, embedding_unavailable, other, Outcome, returned, raised, rescue,
  lift, >>=-returned,
}
use event_driven_rag_pipelin.Prelude.Sort.{Order}
use event_driven_rag_pipelin.Tasks.{SearchRankTask, CandidateChunkRef}
use event_driven_rag_pipelin.Search.{
  Job, World, Deps, Result, ChunkRow, getting, marking_reranking, failing, mark_reranking,
  complete_job, fail_job, publish,
}
use event_driven_rag_pipelin.Search.Rerank
use event_driven_rag_pipelin.Search.Settled.{
  IsEnded, then-Ended, publish-Ended, complete_job-Ended, get_then-Ended, no_job-Ended,
  attempt-Ended, fail_then-Ended, get_job-found,
}

module _ (o : Order) (d : Deps o.Score) (task : SearchRankTask o.Score)
    (score : Text → List Text → Outcome (List o.Score)) where
  finish-Ended :
      (results : List (Result o.Score)) (w : World o.Score) {b : Bool}
      → (Rerank.finish o d task score results w).0 ≡ returned b
      → IsEnded task.job_id (Rerank.finish o d task score results w).1
  unfolding Rerank.publish_completed
  finish-Ended results w h =
      then-Ended d task.job_id (complete_job d task.job_id results) _ w
        (λ v e k.
          then-Ended d task.job_id (publish d _) _ _
            (λ x e' k'.
              publish-Ended d task.job_id _ _ (complete_job-Ended d task.job_id results w e))
            k)
        h

  rank_survivors-Ended :
      (job : Job o.Score) (by_id : Dict ChunkRow) (ordered : List (CandidateChunkRef o.Score))
      (w : World o.Score) {b : Bool}
      → (Rerank.rank_survivors o d task score job by_id ordered w).0 ≡ returned b
      → IsEnded task.job_id (Rerank.rank_survivors o d task score job by_id ordered w).1
  unfolding Rerank.rank_survivors
  rank_survivors-Ended job by_id [] w h = finish-Ended [] w h
  rank_survivors-Ended job by_id (c ∷ ordered) w h =
      then-Ended d task.job_id (lift (score job.query _)) _ w (λ scores e k. finish-Ended _ w k) h

  rerank-Ended :
      (job : Job o.Score) (w : World o.Score) (b : Bool)
      → (Rerank.rerank o d task score job w).0 ≡ returned b
      → IsEnded task.job_id (Rerank.rerank o d task score job w).1
  unfolding Rerank.rerank
  rerank-Ended job w b h =
      then-Ended d task.job_id (lift (d.get_chunks_by_ids _ job.chunks_table)) _ w
        (λ rows e k. rank_survivors-Ended job _ _ w k) h

  rerank_failed-Ended :
      (e : Exception) (w : World o.Score)
      → d.statement_fails failing task.job_id ≡ none
      → IsEnded task.job_id (Rerank.rerank_failed o d task score e w).1
  unfolding Rerank.rerank_failed
  rerank_failed-Ended (embedding_unavailable m) w fails =
      fail_then-Ended d task.job_id _ _ (returned true) w fails
  rerank_failed-Ended (chunk_table_not_found m) w fails =
      fail_then-Ended d task.job_id _ _ (returned false) w fails
  rerank_failed-Ended (other m) w fails = fail_then-Ended d task.job_id _ _ (returned false) w fails

  marked-returned :
      (w : World o.Score)
      → d.statement_fails marking_reranking task.job_id ≡ none
      → (mark_reranking d task.job_id w).0 ≡ returned tt
  unfolding mark_reranking
  marked-returned w marks = rw marks refl

  -- If the job can be read and marked and a failure can be written, then reranking leaves the job
  -- complete or failed, whatever the hydration, the reranker, the completion and the event log do.
  pub rerank_settles :
      (w : World o.Score)
      → d.statement_fails getting task.job_id ≡ none
      → d.statement_fails marking_reranking task.job_id ≡ none
      → d.statement_fails failing task.job_id ≡ none
      → IsEnded task.job_id (Rerank.handle o d task score w).1
  unfolding Rerank.handle
  rerank_settles w reads marks fails =
      get_then-Ended d task.job_id (Rerank.with_job o d task score) w reads (
        no_job-Ended d task.job_id w true (Rerank.with_job o d task score) refl (λ job.
          subst (λ x. IsEnded task.job_id x.1)
            (sym (>>=-returned (mark_reranking d task.job_id) _ w (marked-returned w marks)))
            (attempt-Ended d task.job_id (Rerank.rerank o d task score job)
              (Rerank.rerank_failed o d task score) _ (rerank-Ended job _)
              (λ e w'. rerank_failed-Ended e w' fails))))

  rerank_failed-returns :
      (e : Exception) (w : World o.Score)
      → d.statement_fails failing task.job_id ≡ none
      → (b : Bool) × ((Rerank.rerank_failed o d task score e w).0 ≡ returned b)
  unfolding Rerank.rerank_failed fail_job
  rerank_failed-returns (embedding_unavailable m) w fails = (true, rw fails refl)
  rerank_failed-returns (chunk_table_not_found m) w fails = (false, rw fails refl)
  rerank_failed-returns (other m) w fails = (false, rw fails refl)

  -- Under the same conditions the handler does not raise: it reports true or false, so that the
  -- other messages of the batch are settled too.
  pub rerank_returns :
      (w : World o.Score)
      → d.statement_fails getting task.job_id ≡ none
      → d.statement_fails marking_reranking task.job_id ≡ none
      → d.statement_fails failing task.job_id ≡ none
      → (b : Bool) × ((Rerank.handle o d task score w).0 ≡ returned b)
  unfolding Rerank.handle
  rerank_returns w reads marks fails =
      rw (get_job-found d task.job_id w reads) (of_row (lookup task.job_id w.jobs))
    where
      attempted :
          (r : Outcome Bool) (w' : World o.Score)
          → (b : Bool) × ((rescue r (Rerank.rerank_failed o d task score) w').0 ≡ returned b)
      attempted (returned b) w' = (b, refl)
      attempted (raised e) w' = rerank_failed-returns e w' fails

      of_row :
          (x : Option (Job o.Score))
          → (b : Bool) × ((Rerank.with_job o d task score x w).0 ≡ returned b)
      of_row none = (true, refl)
      of_row (some job) =
          let run =
            attempted (Rerank.rerank o d task score job (mark_reranking d task.job_id w).1).0
              (Rerank.rerank o d task score job (mark_reranking d task.job_id w).1).1 in
          subst (λ x. (b : Bool) × (x.0 ≡ returned b))
            (sym (>>=-returned (mark_reranking d task.job_id) _ w (marked-returned w marks))) run
