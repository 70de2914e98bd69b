-- ===== src/Search/Failures.antt =====
-- What search_handler.py leaves behind when it raises and its message goes to the dead letters.
use event_driven_rag_pipelin.Prelude.{
  ◌≡◌, refl, sym, subst, Option, none, some, List, [], ◌∷◌, lookup,
}
use event_driven_rag_pipelin.Prelude.Action.{
  message, Outcome, returned, raised, rescue, attempt, continue, lift, ◌>>=◌, >>=-returned,
}
use event_driven_rag_pipelin.Tasks.{SearchRunTask}
use event_driven_rag_pipelin.Search.{
  Job, World, Deps, getting, marking_searching, failing, mark_searching, fail_job,
}
use event_driven_rag_pipelin.Search.Run
use event_driven_rag_pipelin.Search.Settled.{
  IsEnded, get_job-found, fail_job-Ended, fail_then-Ended,
}

module _ {S : Type 0} (d : Deps S) (task : SearchRunTask) where
  abbrev pub Recorded : Outcome (Unit {0}) × World S → Type 0
  Recorded (returned u, w) = Unit
  Recorded (raised e, w) = IsEnded task.job_id w

  tried-Recorded :
      (r : Outcome (Unit {0})) (w : World S)
      → d.statement_fails failing task.job_id ≡ none
      → Recorded (rescue r (Run.search_failed d task) w)
  unfolding Run.search_failed
  tried-Recorded (returned u) w fails = tt
  tried-Recorded (raised e) w fails =
      of_result (fail_then w) (fail_then-Ended d task.job_id (message e) none (raised e) w fails)
    where
      fail_then : World S → Outcome (Unit {0}) × World S
      fail_then = fail_job d task.job_id (message e) none >>= λ _. lift (raised e)

      of_result : (r : Outcome (Unit {0}) × World S) → IsEnded task.job_id r.1 → Recorded r
      of_result (returned u, w) h = tt
      of_result (raised x, w) h = h

  no_embedding-Recorded :
      (w : World S)
      → d.statement_fails failing task.job_id ≡ none
      → Recorded (fail_job d task.job_id (Run.no_embedding d task) none w)
  no_embedding-Recorded w fails =
      of_result _ (fail_job-Ended d task.job_id (Run.no_embedding d task) none w fails).0
    where
      of_result : (r : Outcome (Unit {0}) × World S) → r.0 ≡ returned tt → Recorded r
      of_result (returned u, w) h = tt
      of_result (raised x, w) h = cc

  with_job-Recorded :
      (o : Option (Job S)) (w : World S)
      → (mark_searching d task.job_id w).0 ≡ returned tt
      → d.statement_fails failing task.job_id ≡ none
      → Recorded (Run.with_job d task o w)
  with_job-Recorded none w marks fails = tt
  with_job-Recorded (some job) w marks fails = of_embedding job.embedding
    where
      of_embedding : (v : Option (List S)) → Recorded (Run.with_embedding d task job v w)
      of_embedding none = no_embedding-Recorded w fails
      of_embedding (some []) = no_embedding-Recorded w fails
      of_embedding (some (x ∷ vector)) =
          subst Recorded
            (sym (
              >>=-returned (mark_searching d task.job_id)
                (λ _. attempt (Run.search d task job (x ∷ vector)) (Run.search_failed d task)) w
                marks))
            (tried-Recorded
              (Run.search d task job (x ∷ vector) (mark_searching d task.job_id w).1).0
              (Run.search d task job (x ∷ vector) (mark_searching d task.job_id w).1).1 fails)

  -- If the job can be read and marked and a failure can be written, then a search that raises, so
  -- that its message goes to the dead letters, has left its job failed or complete, or there is no
  -- such job: no such job waits forever as searching.
  pub search_records :
      (w : World S)
      → d.statement_fails getting task.job_id ≡ none
      → d.statement_fails marking_searching task.job_id ≡ none
      → d.statement_fails failing task.job_id ≡ none
      → Recorded (Run.handle d task w)
  unfolding Run.handle mark_searching
  search_records w reads marks fails =
      subst (λ r. Recorded (continue r.0 (Run.with_job d task) r.1))
        (sym (get_job-found d task.job_id w reads))
        (with_job-Recorded (lookup task.job_id w.jobs) w (rw marks refl) fails)
