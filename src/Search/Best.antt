-- ===== src/Search/Best.antt =====
-- What rerank_handler.py stores for a job that it can read, hydrate, score and complete.
use event_driven_rag_pipelin.Prelude.{
  ℕ, zero, suc, ◌≡◌, refl, sym, ap, ◌∙◌, subst, Text, true, Option, none, some, List, [], ◌∷◌, ◌++◌,
  map, keep, keep-passes, zip, take, take-append-drop, length-take, length-map, drop, length, min,
  Dict, lookup, All, All-take, All-mono,
}
use mathlib.Core.List.{Perm, map-append}
use mathlib.Core.List.Perm
use event_driven_rag_pipelin.Prelude.Action.{Outcome, returned, rescue, attempt, continue}
use event_driven_rag_pipelin.Prelude.Sort.{
  Order, IsDescending, sort_descending, sort_descending-perm, sort_descending-IsDescending,
  sort_descending-length, All-sort_descending,
}
use event_driven_rag_pipelin.Tasks.{SearchRankTask, CandidateChunkRef}
use event_driven_rag_pipelin.Search.{
  Job, World, Deps, Result, ChunkRow, complete, search_job_completed, getting, marking_reranking,
  completing, mark_reranking, complete_job, publish, get_job, set_complete, set_reranking,
  rows_by_id, candidate_ids, found, add_found,
}
use event_driven_rag_pipelin.Search.Jobs.{update_job_lem, map_job}
use event_driven_rag_pipelin.Search.Settled.{get_job-found}
use event_driven_rag_pipelin.Search.Ranking.{
  Shows, shown, has_row, results_of-IsDescending, results_of-Shows, results_of-All, take_above,
  take-IsDescending,
}
use event_driven_rag_pipelin.Search.Rerank

module _ (o : Order) (by_id : Dict ChunkRow) where
  abbrev Pair : Type 0
  Pair = CandidateChunkRef o.Score × o.Score

  abbrev named : Pair → Text × o.Score
  named p = (p.0.chunk_id, p.1)

  -- every pair whose chunk has a row becomes a result
  results_of-shown :
      (l : List Pair)
      → All (λ (p : Pair). has_row by_id p.0 ≡ true) l
      → map shown (Rerank.results_of o by_id l) ≡ map named l
  unfolding Rerank.results_of
  results_of-shown [] h = refl
  results_of-shown ((c, s) ∷ l) h = add (lookup c.chunk_id by_id) h.0 (results_of-shown l h.1)
    where
      add :
          (row : Option ChunkRow)
          → found row ≡ true
          → map shown (Rerank.results_of o by_id l) ≡ map named l
          → map shown (add_found c.chunk_id s row (Rerank.results_of o by_id l))
            ≡ (c.chunk_id, s) ∷ map named l
      add none f e = cc
      add (some r) f e = ap (λ k. (c.chunk_id, s) ∷ k) e

  zip-has_row :
      (ordered : List (CandidateChunkRef o.Score)) (scores : List o.Score)
      → All (λ c. has_row by_id c ≡ true) ordered
      → All (λ (p : Pair). has_row by_id p.0 ≡ true) (zip ordered scores)
  zip-has_row [] scores h = tt
  zip-has_row (c ∷ ordered) [] h = tt
  zip-has_row (c ∷ ordered) (s ∷ scores) h = (h.0, zip-has_row ordered scores h.1)

  zip-named :
      (ordered : List (CandidateChunkRef o.Score)) (scores : List o.Score)
      → map named (zip ordered scores) ≡ zip (map (λ c. c.chunk_id) ordered) scores
  zip-named [] scores = refl
  zip-named (c ∷ ordered) [] = refl
  zip-named (c ∷ ordered) (s ∷ scores) = ap (λ l. (c.chunk_id, s) ∷ l) (zip-named ordered scores)

  -- The best `k` of the scored chunks: some of them, as many as there are up to `k`, best first; none
  -- that is left has a better score; and each shows the row of its chunk.
  pub record IsBest (k : ℕ) (scored : List (Text × o.Score)) (results : List (Result o.Score))
      : Type 0 where
    pub left : List (Text × o.Score)
    pub all : Perm (map shown results ++ left) scored
    pub as_many : length results ≡ min k (length scored)
    pub descending : IsDescending o (λ r. r.score) results
    pub above : All (λ r. All (λ p. o.le p.1 r.score ≡ true) left) results
    pub rows : All (Shows by_id) results

  All-named :
      (P : o.Score → Type 0) (l : List Pair)
      → All (λ (p : Pair). P p.1) l
      → All (λ (q : Text × o.Score). P q.1) (map named l)
  All-named P [] h = tt
  All-named P (p ∷ l) h = (h.0, All-named P l h.1)

  results_of-IsBest :
      (k : ℕ) (ordered : List (CandidateChunkRef o.Score)) (scores : List o.Score)
      → All (λ c. has_row by_id c ≡ true) ordered
      → IsBest k
          (zip (map (λ c. c.chunk_id) ordered) scores)
          (Rerank.results_of o by_id (take k (Rerank.rank o ordered scores)))
  unfolding Rerank.rank
  results_of-IsBest k ordered scores h = record {
    left = map named (drop k ranked);
    all =
        subst (λ l. Perm l (zip (map (λ c. c.chunk_id) ordered) scores))
          (sym (
            ap (λ l. l ++ map named (drop k ranked)) (results_of-shown (take k ranked) have_rows)
            ∙ sym (map-append named (take k ranked) (drop k ranked))
            ∙ ap (map named) (take-append-drop k ranked)))
          (subst (λ l. Perm (map named ranked) l) (zip-named ordered scores)
            (Perm.map named (sort_descending-perm o (λ p. p.1) (zip ordered scores))));
    as_many =
        sym (length-map shown results)
        ∙ ap length (results_of-shown (take k ranked) have_rows)
        ∙ length-map named (take k ranked)
        ∙ length-take k ranked
        ∙ ap (min k) (
            sort_descending-length o (λ (p : Pair). p.1) (zip ordered scores)
            ∙ sym (length-map named (zip ordered scores))
            ∙ ap length (zip-named ordered scores));
    descending =
        results_of-IsDescending o by_id (take k ranked)
          (take-IsDescending o (λ p. p.1) k ranked sorted);
    above =
        results_of-All o by_id (λ s. All (λ p. o.le p.1 s ≡ true) (map named (drop k ranked)))
          (take k ranked)
          (All-mono _ _ (take k ranked)
            (λ (p : Pair). All-named (λ x. o.le x p.1 ≡ true) (drop k ranked))
            (take_above o (λ (p : Pair). p.1) k ranked sorted));
    rows = results_of-Shows o by_id (take k ranked);
  }
    where
      ranked : List Pair
      ranked = Rerank.rank o ordered scores

      results : List (Result o.Score)
      results = Rerank.results_of o by_id (take k ranked)

      sorted : IsDescending o (λ p. p.1) ranked
      sorted = sort_descending-IsDescending o (λ p. p.1) (zip ordered scores)

      have_rows : All (λ (p : Pair). has_row by_id p.0 ≡ true) (take k ranked)
      have_rows =
          All-take (λ (p : Pair). has_row by_id p.0 ≡ true) k ranked
            (All-sort_descending o (λ p. p.1) (λ p. has_row by_id p.0 ≡ true) (zip ordered scores)
              (zip-has_row ordered scores h))

take_nil : {A : Type 0} (k : ℕ) → take {A = A} k [] ≡ []
take_nil zero = refl
take_nil (suc k) = refl

module _ (o : Order) (d : Deps o.Score) (task : SearchRankTask o.Score)
    (score : Text → List Text → Outcome (List o.Score)) where
  finish-returned :
      (results : List (Result o.Score)) (w : World o.Score)
      → d.statement_fails completing task.job_id ≡ none
      → d.publish_fails (search_job_completed task.job_id task.base.trace_id) ≡ none
      → Rerank.finish o d task score results w ≡ (
        returned true,
        record w {
          jobs = set_complete task.job_id results w.jobs;
          published = w.published ++ (search_job_completed task.job_id task.base.trace_id ∷ []);
        },
      )
  unfolding Rerank.publish_completed complete_job publish
  finish-returned results w c p = rw (c, p) refl

  rank_survivors-returned :
      (job : Job o.Score) (by_id : Dict ChunkRow) (ordered : List (CandidateChunkRef o.Score))
      (scores : List o.Score) (w : World o.Score)
      → score job.query (map (λ c. Rerank.text_in by_id c.chunk_id) ordered) ≡ returned scores
      → d.statement_fails completing task.job_id ≡ none
      → d.publish_fails (search_job_completed task.job_id task.base.trace_id) ≡ none
      → Rerank.rank_survivors o d task score job by_id ordered w ≡ (
        returned true,
        record w {
          jobs =
              set_complete task.job_id
                (Rerank.results_of o by_id (take job.k (Rerank.rank o ordered scores)))
                w.jobs;
          published = w.published ++ (search_job_completed task.job_id task.base.trace_id ∷ []);
        },
      )
  unfolding Rerank.rank_survivors Rerank.rank Rerank.results_of sort_descending
  rank_survivors-returned job by_id [] scores w s c p =
      finish-returned [] w c p
      ∙ ap
          (λ l. (
            returned true,
            record w {
              jobs = set_complete task.job_id (Rerank.results_of o by_id l) w.jobs;
              published = w.published ++ (search_job_completed task.job_id task.base.trace_id ∷ []);
            },
          ))
          (sym (take_nil job.k))
  rank_survivors-returned job by_id (x ∷ ordered) scores w s c p = rw s (
      finish-returned (Rerank.results_of o by_id (take job.k (Rerank.rank o (x ∷ ordered) scores)))
        w c p)

  -- the rows by id and the candidates that have one, for the rows that are fetched
  abbrev pub rows_of : List ChunkRow → Dict ChunkRow
  rows_of rows = rows_by_id rows []

  abbrev pub hydrated : List ChunkRow → List (CandidateChunkRef o.Score)
  hydrated rows = keep (has_row (rows_of rows)) task.candidates

  rerank-returned :
      (job : Job o.Score) (rows : List ChunkRow) (scores : List o.Score) (w : World o.Score)
      → d.get_chunks_by_ids (candidate_ids task.candidates []) job.chunks_table ≡ returned rows
      → score job.query (map (λ c. Rerank.text_in (rows_of rows) c.chunk_id) (hydrated rows))
        ≡ returned scores
      → d.statement_fails completing task.job_id ≡ none
      → d.publish_fails (search_job_completed task.job_id task.base.trace_id) ≡ none
      → Rerank.rerank o d task score job w ≡ (
        returned true,
        record w {
          jobs =
              set_complete task.job_id
                (Rerank.results_of o
                  (rows_of rows)
                  (take job.k (Rerank.rank o (hydrated rows) scores)))
                w.jobs;
          published = w.published ++ (search_job_completed task.job_id task.base.trace_id ∷ []);
        },
      )
  unfolding Rerank.rerank Rerank.survivors
  rerank-returned job rows scores w h s c p =
      rw h (rank_survivors-returned job (rows_of rows) (hydrated rows) scores w s c p)

  handle-rerank :
      (w : World o.Score) (job : Job o.Score)
      → lookup task.job_id w.jobs ≡ some job
      → d.statement_fails getting task.job_id ≡ none
      → d.statement_fails marking_reranking task.job_id ≡ none
      → Rerank.handle o d task score w
        ≡ attempt
            (Rerank.rerank o d task score job)
            (Rerank.rerank_failed o d task score)
            (record w { jobs = set_reranking task.job_id w.jobs })
  unfolding Rerank.handle get_job mark_reranking
  handle-rerank w job j g m =
      ap (λ r. continue r.0 (Rerank.with_job o d task score) r.1) (get_job-found d task.job_id w g)
      ∙ ap (λ x. Rerank.with_job o d task score x w) j
      ∙ rw m refl

  -- If a job is stored and can be read, marked and completed, its candidates' chunks are fetched, the
  -- reranker scores those that were found, and the completion can be announced, then the handler
  -- returns true and leaves the job complete with the best `k` of the scored chunks: each result is one
  -- of them with its score, best first, as many as there are up to `k`, none left out has a better
  -- score, and each shows the row that was fetched for its chunk.
  pub rerank-IsBest :
      (w : World o.Score) (job : Job o.Score) (rows : List ChunkRow) (scores : List o.Score)
      → lookup task.job_id w.jobs ≡ some job
      → d.statement_fails getting task.job_id ≡ none
      → d.statement_fails marking_reranking task.job_id ≡ none
      → d.statement_fails completing task.job_id ≡ none
      → d.publish_fails (search_job_completed task.job_id task.base.trace_id) ≡ none
      → d.get_chunks_by_ids (candidate_ids task.candidates []) job.chunks_table ≡ returned rows
      → score job.query (map (λ c. Rerank.text_in (rows_of rows) c.chunk_id) (hydrated rows))
        ≡ returned scores
      → ((Rerank.handle o d task score w).0 ≡ returned true)
        × ((results : List (Result o.Score)) × (lookup task.job_id
                (Rerank.handle o d task score w).1.jobs
              ≡ some (record job { status = complete; results = some results }))
            × IsBest o
                (rows_of rows)
                job.k
                (zip (map (λ c. c.chunk_id) (hydrated rows)) scores)
                results)
  unfolding set_complete set_reranking
  rerank-IsBest w job rows scores j g m c p h s =
      let marked : World o.Score = record w { jobs = set_reranking task.job_id w.jobs } in
      let results : List (Result o.Score) =
        Rerank.results_of o (rows_of rows) (take job.k (Rerank.rank o (hydrated rows) scores)) in
      let run = rerank-returned job rows scores marked h s c p in
      let end : Rerank.handle o d task score w ≡ (
        returned true,
        record w {
          jobs = set_complete task.job_id results marked.jobs;
          published = w.published ++ (search_job_completed task.job_id task.base.trace_id ∷ []);
        },
      ) =
        handle-rerank w job j g m
        ∙ ap (λ r. rescue r.0 (Rerank.rerank_failed o d task score) r.1) run in
      (
        ap (λ r. r.0) end,
        (
          results,
          ap (λ r. lookup task.job_id r.1.jobs) end
              ∙ (update_job_lem task.job_id task.job_id _ marked.jobs).0
              ∙ ap (map_job _)
                  ((update_job_lem task.job_id task.job_id _ w.jobs).0 ∙ ap (map_job _) j),
          results_of-IsBest o (rows_of rows) job.k (hydrated rows) scores
              (keep-passes (has_row (rows_of rows)) task.candidates),
        ),
      )
