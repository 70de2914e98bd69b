-- ===== src/Search/Settled.antt =====
-- How the search handlers leave a job: search_handler.py, search_finalize_handler.py and
-- rerank_handler.py over the rows of search_job_repository.py.
use event_driven_rag_pipelin.Prelude.{
  ◌≡◌, refl, sym, subst, ◌⊎◌, inl, inr, Text, Option, none, some, List, [], ◌∷◌, ◌++◌, Dict, lookup,
}
use event_driven_rag_pipelin.Prelude.Action.{
  Exception, message, Outcome, returned, raised, Action, continue, rescue, attempt, pure, lift,
  ◌>>=◌, >>=-eq-returned, >>=-returned, Outcome-cases,
}
use event_driven_rag_pipelin.Tasks.{SearchFinalizeTask}
use event_driven_rag_pipelin.Search.{
  complete, failed, Job, Event, World, Deps, Result, getting, failing, unless_fails, update_job,
  set_complete, set_failed, get_job, complete_job, fail_job, publish,
}
use event_driven_rag_pipelin.Search.Jobs.{map_job, update_job_lem}
use event_driven_rag_pipelin.Search.Finalize

-- The job has ended, or is not there.
abbrev pub Ended : {S : Type 0} → Option (Job S) → Type 0
Ended none = Unit
Ended (some j) = (j.status ≡ complete) ⊎ (j.status ≡ failed)

abbrev pub IsEnded : {S : Type 0} → Text → World S → Type 0
IsEnded i w = Ended (lookup i w.jobs)

module _ {S : Type 0} (d : Deps S) (i : Text) where
  map_job-Ended :
      (f : Job S → Job S)
      → ((j : Job S) → ((f j).status ≡ complete) ⊎ ((f j).status ≡ failed))
      → (o : Option (Job S)) → Ended (map_job f o)
  map_job-Ended f h none = tt
  map_job-Ended f h (some j) = h j

  update_job-Ended :
      (f : Job S → Job S)
      → ((j : Job S) → ((f j).status ≡ complete) ⊎ ((f j).status ≡ failed))
      → (jobs : Dict (Job S)) → Ended (lookup i (update_job i f jobs))
  update_job-Ended f h jobs =
      subst Ended (sym (update_job_lem i i f jobs).0) (map_job-Ended f h (lookup i jobs))

  unless_fails-Ended :
      (o : Option Exception) (f : World S → World S) (w : World S) {u : Unit {0}}
      → (unless_fails o f w).0 ≡ returned u
      → IsEnded i (f w)
      → IsEnded i (unless_fails o f w).1
  unless_fails-Ended none f w e h = h
  unless_fails-Ended (some x) f w e h = cc

  pub complete_job-Ended :
      (results : List (Result S)) (w : World S) {u : Unit {0}}
      → (complete_job d i results w).0 ≡ returned u
      → IsEnded i (complete_job d i results w).1
  unfolding complete_job set_complete
  complete_job-Ended results w e =
      unless_fails-Ended _ (λ w. record w { jobs = set_complete i results w.jobs }) w e
        (update_job-Ended (λ (j : Job S). record j { status = complete; results = some results })
          (λ j. inl refl) w.jobs)

  pub fail_job-Ended :
      (error : Text) (code : Option Text) (w : World S)
      → d.statement_fails failing i ≡ none
      → (fail_job d i error code w).0 ≡ returned tt × IsEnded i (fail_job d i error code w).1
  unfolding fail_job set_failed
  fail_job-Ended error code w ok = rw ok (
    refl,
    update_job-Ended
        (λ (j : Job S). record j { status = failed; error = some error; error_code = code })
        (λ j. inr refl) w.jobs,
  )

  unless_fails-jobs :
      (o : Option Exception) (e : Event S) (w : World S)
      → (unless_fails o
          (λ (x : World S). record x { published = x.published ++ (e ∷ []) })
          w).1.jobs
        ≡ w.jobs
  unless_fails-jobs none e w = refl
  unless_fails-jobs (some x) e w = refl

  pub publish-Ended : (e : Event S) (w : World S) → IsEnded i w → IsEnded i (publish d e w).1
  unfolding publish
  publish-Ended e w h =
      subst (λ j. Ended (lookup i j)) (sym (unless_fails-jobs (d.publish_fails e) e w)) h

  -- A block that leaves the job ended when it returns, with a handler that always does.
  pub attempt-Ended :
      {A : Type 0} (m : Action (World S) A) (handler : Exception → Action (World S) A) (w : World S)
      → ((a : A) → (m w).0 ≡ returned a → IsEnded i (m w).1)
      → ((e : Exception) (w : World S) → IsEnded i (handler e w).1)
      → IsEnded i (attempt m handler w).1
  attempt-Ended m handler w h k = elim (Outcome-cases (m w).0) [
    | inl (a, e) ↦ subst (λ r. IsEnded i (rescue r handler (m w).1).1) (sym e) (h a e)
    | inr (x, e) ↦ subst (λ r. IsEnded i (rescue r handler (m w).1).1) (sym e) (k x (m w).1)
  ]

  pub fail_then-Ended :
      {A : Type 0} (error : Text) (code : Option Text) (r : Outcome A) (w : World S)
      → d.statement_fails failing i ≡ none
      → IsEnded i ((fail_job d i error code >>= λ _. lift r) w).1
  fail_then-Ended error code r w ok =
      let (e, h) = fail_job-Ended error code w ok in
      subst (λ x. IsEnded i x.1) (sym (>>=-returned (fail_job d i error code) (λ _. lift r) w e)) h

  -- A read of the job keeps the world, and finds what is stored.
  pub get_job-found :
      (w : World S)
      → d.statement_fails getting i ≡ none
      → get_job d i w ≡ (returned (lookup i w.jobs), w)
  unfolding get_job
  get_job-found w ok = rw ok refl

  -- A block that returns, whose rest leaves the job ended after the first call.
  pub then-Ended :
      {A B : Type 0} (m : Action (World S) A) (f : A → Action (World S) B) (w : World S) {b : B}
      → ((a : A) → (m w).0 ≡ returned a → (f a (m w).1).0 ≡ returned b → IsEnded i (f a (m w).1).1)
      → ((m >>= f) w).0 ≡ returned b
      → IsEnded i ((m >>= f) w).1
  then-Ended m f w k h =
      let (a, e, h') = >>=-eq-returned m f w h in
      subst (λ x. IsEnded i x.1) (sym (>>=-returned m f w e)) (k a e h')

  -- A handler that found its job ran the rest on it, and one that found none did nothing.
  pub get_then-Ended :
      {A : Type 0} (f : Option (Job S) → Action (World S) A) (w : World S)
      → d.statement_fails getting i ≡ none
      → IsEnded i (f (lookup i w.jobs) w).1
      → IsEnded i ((get_job d i >>= f) w).1
  get_then-Ended f w ok h =
      subst (λ r. IsEnded i (continue r.0 f r.1).1) (sym (get_job-found w ok)) h

  pub no_job-Ended :
      {A : Type 0} (w : World S) (a : A) (g : Option (Job S) → Action (World S) A)
      → g none ≡ pure a
      → ((j : Job S) → IsEnded i (g (some j) w).1)
      → IsEnded i (g (lookup i w.jobs) w).1
  no_job-Ended w a g e h = of_row (lookup i w.jobs) refl
    where
      of_row : (o : Option (Job S)) → lookup i w.jobs ≡ o → IsEnded i (g o w).1
      of_row none n = subst (λ m. IsEnded i (m w).1) (sym e) (subst Ended (sym n) tt)
      of_row (some j) n = h j

module _ {S : Type 0} (d : Deps S) (task : SearchFinalizeTask S) where
  finalize-Ended :
      (job : Job S) (w : World S) (u : Unit {0})
      → (Finalize.finalize d task job w).0 ≡ returned u
      → IsEnded task.job_id (Finalize.finalize d task job w).1
  unfolding Finalize.finalize
  finalize-Ended job w u h =
      then-Ended d task.job_id (lift (d.get_chunks_by_ids _ job.chunks_table)) _ w
        (λ rows e k.
          then-Ended d task.job_id (complete_job d task.job_id _) _ w
            (λ v e' k'. publish-Ended d task.job_id _ _ (complete_job-Ended d task.job_id _ w e'))
            k)
        h

  -- If the job can be read and a failure can be written, then finalizing leaves the job complete or
  -- failed, whatever the hydration, the completion and the event log do.
  pub finalize_settles :
      (w : World S)
      → d.statement_fails getting task.job_id ≡ none
      → d.statement_fails failing task.job_id ≡ none
      → IsEnded task.job_id (Finalize.handle d task w).1
  unfolding Finalize.handle
  finalize_settles w reads fails = get_then-Ended d task.job_id (Finalize.with_job d task) w reads (
      no_job-Ended d task.job_id w tt (Finalize.with_job d task) refl (λ job.
        attempt-Ended d task.job_id (Finalize.finalize d task job) (Finalize.finalize_failed d task)
          w (finalize-Ended job w)
          (λ e w'.
            unfold Finalize.finalize_failed in
            fail_then-Ended d task.job_id (message e) none (raised e) w' fails)))
