-- ===== src/Search/Jobs.antt =====
-- What the updates of search_job_repository.py do to the rows of the search_jobs table.
use event_driven_rag_pipelin.Prelude.{
  ◌≡◌, refl, ◌∙◌, ◌≢◌, Text, text_eq, text_eq_refl, text_eq_ne, Option, none, some, List, [], ◌∷◌,
  Dict, lookup, lookup-insert, if◌then◌else◌,
}
use event_driven_rag_pipelin.Embed.{EmbeddingRow, chunk_row, query_row}
use event_driven_rag_pipelin.Search.{Job, update_job, update_found}

abbrev pub map_job : {A : Type 0} → (A → A) → Option A → Option A
map_job f none = none
map_job f (some a) = some (f a)

module _ {S : Type 0} where
  update_job-own :
      (i : Text) (f : Job S → Job S) (jobs : Dict (Job S))
      → lookup i (update_job i f jobs) ≡ map_job f (lookup i jobs)
  unfolding update_job
  update_job-own i f jobs = of_row (lookup i jobs) refl
    where
      of_row :
          (o : Option (Job S))
          → lookup i jobs ≡ o
          → lookup i (update_found i f o jobs) ≡ map_job f o
      of_row none e = e
      of_row (some j) e = lookup-insert i i (f j) jobs ∙ rw (text_eq_refl i) refl

  update_job-other :
      (i k : Text) (f : Job S → Job S) (jobs : Dict (Job S))
      → i ≢ k
      → lookup k (update_job i f jobs) ≡ lookup k jobs
  unfolding update_job
  update_job-other i k f jobs n = of_row (lookup i jobs)
    where
      of_row : (o : Option (Job S)) → lookup k (update_found i f o jobs) ≡ lookup k jobs
      of_row none = refl
      of_row (some j) = lookup-insert i k (f j) jobs ∙ rw (text_eq_ne i k n) refl

  -- An update changes the named row, if it is there, and no other, and adds none.
  pub update_job_lem :
      (i k : Text) (f : Job S → Job S) (jobs : Dict (Job S))
      → (lookup i (update_job i f jobs) ≡ map_job f (lookup i jobs))
        × (i ≢ k → lookup k (update_job i f jobs) ≡ lookup k jobs)
  update_job_lem i k f jobs = (update_job-own i f jobs, update_job-other i k f jobs)

  -- the vector that a batch stores for a job: the last of its rows
  abbrev pub last_vector : Text → List (EmbeddingRow (List S)) → Option (List S) → Option (List S)
  last_vector k [] v = v
  last_vector k (chunk_row c m x t ∷ rows) v = last_vector k rows v
  last_vector k (query_row i m x ∷ rows) v = last_vector k rows (if text_eq i k then some x else v)
