-- ===== src/Search/Tests.antt =====
-- The search handlers on one job with two candidates, with numbers for scores.
use event_driven_rag_pipelin.Prelude.{
  ℕ, ◌≡◌, refl, Text, text, true, none, some, List, [], ◌∷◌, map, keep, lookup, insert, text_eq,
  zip, length, Dict, leb, arith,
}
use event_driven_rag_pipelin.Prelude.Action.{
  other, embedding_unavailable, Outcome, returned, raised,
}
use event_driven_rag_pipelin.Prelude.Sort.{Order}
use event_driven_rag_pipelin.Tasks.{
  BaseTask, CandidateChunkRef, SearchRunTask, SearchRankTask, SearchFinalizeTask,
}
use event_driven_rag_pipelin.Search.{
  searching, complete, Job, Result, World, Deps, ChunkRow, rows_by_id,
}
use event_driven_rag_pipelin.Search.Ranking.{has_row}
use event_driven_rag_pipelin.Search.Best.{IsBest, rerank-IsBest}
use event_driven_rag_pipelin.Search.Settled.{IsEnded, finalize_settles}
use event_driven_rag_pipelin.Search.Reranked.{rerank_settles}
use event_driven_rag_pipelin.Search.Finalize
use event_driven_rag_pipelin.Search.Rerank

abbrev numbers : Order
numbers = record {
  Score = ℕ;
  le = λ a b. leb a b;
  total = λ a b h. ground (arith, h);
  trans = λ a b c h k. ground (arith, h, k);
}

abbrev job_id : Text
job_id = text "j"

abbrev base : BaseTask
base = record { task_id = text "t"; trace_id = none; parent_span_id = none; source_event_id = none }

abbrev candidates : List (CandidateChunkRef ℕ)
candidates =
    record { chunk_id = text "x"; score = 9 }
    ∷ record { chunk_id = text "y"; score = 8 }
    ∷ record { chunk_id = text "z"; score = 7 }
    ∷ []

abbrev chunk_of : Text → ChunkRow
chunk_of i = record { id = i; post_id = 1; text = i; metadata = none }

abbrev by_id : Dict ChunkRow
by_id = (text "x", chunk_of (text "x")) ∷ ((text "y", chunk_of (text "y")) ∷ [])

abbrev hydrate : List Text → Text → Outcome (List ChunkRow)
hydrate ids table = returned (chunk_of (text "x") ∷ chunk_of (text "y") ∷ [])

abbrev deps : Deps ℕ
deps = record {
  statement_fails = λ s i. none;
  search_nearest = λ t v k. returned candidates;
  get_chunks_by_ids = hydrate;
  publish_fails = λ e. some (other (text "event log down"));
}

abbrev stored_job : Job ℕ
stored_job = record {
  status = searching;
  library_id = text "l";
  query = text "why";
  k = 2;
  embedding_profile = text "m";
  chunks_table = text "c";
  rerank = true;
  rerank_profile = none;
  embedding = some (1 ∷ []);
  results = none;
  error = none;
  error_code = none;
}

abbrev world : World ℕ
world = record { jobs = (job_id, stored_job) ∷ []; published = [] }

abbrev score_lengths : Text → List Text → Outcome (List ℕ)
score_lengths q l = returned (map (λ t. length t) l)

abbrev down : Text → List Text → Outcome (List ℕ)
down q l = raised (embedding_unavailable (text "down"))

abbrev rank_task : SearchRankTask ℕ
rank_task = record { base = base; job_id = job_id; candidates = candidates; rerank_profile = none }

abbrev finalize_task : SearchFinalizeTask ℕ
finalize_task = record { base = base; job_id = job_id; candidates = candidates }

finalize_settles_example : IsEnded job_id (Finalize.handle deps finalize_task world).1
finalize_settles_example = finalize_settles deps finalize_task world refl refl

rerank_settles_example : IsEnded job_id (Rerank.handle numbers deps rank_task down world).1
rerank_settles_example = rerank_settles numbers deps rank_task down world refl refl refl

-- the event log is up, and the third candidate's chunk is gone
abbrev announcing : Deps ℕ
announcing = record deps { publish_fails = λ e. none }

abbrev stored_rows : List ChunkRow
stored_rows = chunk_of (text "x") ∷ chunk_of (text "y") ∷ []

rerank-IsBest_example :
    ((Rerank.handle numbers announcing rank_task score_lengths world).0 ≡ returned true)
    × ((results : List (Result ℕ)) × (lookup job_id
            (Rerank.handle numbers announcing rank_task score_lengths world).1.jobs
          ≡ some (record stored_job { status = complete; results = some results }))
        × IsBest numbers
            (rows_by_id stored_rows [])
            2
            (zip
              (map (λ c. c.chunk_id) (keep (has_row (rows_by_id stored_rows [])) candidates))
              (1 ∷ 1 ∷ []))
            results)
unfolding lookup text_eq rows_by_id insert
rerank-IsBest_example =
    rerank-IsBest numbers announcing rank_task score_lengths world stored_job stored_rows
      (1 ∷ 1 ∷ []) refl refl refl refl refl refl refl

abbrev run_task : SearchRunTask
run_task = record { base = base; job_id = job_id }
