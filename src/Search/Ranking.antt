-- ===== src/Search/Ranking.antt =====
-- The results of rerank_handler.py and search_finalize_handler.py.
use event_driven_rag_pipelin.Prelude.{
  ℕ, zero, suc, ◌≡◌, refl, ap, Text, Bool, true, Option, none, some, List, [], ◌∷◌, map, keep, take,
  drop, Dict, lookup, All, if◌then◌else◌,
}
use event_driven_rag_pipelin.Prelude.Sort.{Order, IsDescending}
use event_driven_rag_pipelin.Tasks.{CandidateChunkRef}
use event_driven_rag_pipelin.Search.{Result, ChunkRow, result_of, found, add_found}
use event_driven_rag_pipelin.Search.Finalize
use event_driven_rag_pipelin.Search.Rerank

-- The row that a result shows: that of its chunk, as it was fetched.
abbrev pub Shows : {S : Type 0} → Dict ChunkRow → Result S → Type 0
Shows by_id r =
    (row : ChunkRow) × (lookup r.chunk_id by_id ≡ some row) × (r ≡ result_of r.chunk_id r.score row)

add_found-Shows :
    {S : Type 0} (by_id : Dict ChunkRow) (i : Text) (s : S) (row : Option ChunkRow)
    (rest : List (Result S))
    → lookup i by_id ≡ row
    → All (Shows by_id) rest
    → All (Shows by_id) (add_found i s row rest)
add_found-Shows by_id i s none rest e h = h
add_found-Shows by_id i s (some r) rest e h = ((r, e, refl), h)

module _ (o : Order) (by_id : Dict ChunkRow) where
  abbrev Pair : Type 0
  Pair = CandidateChunkRef o.Score × o.Score

  pub results_of-All :
      (P : o.Score → Type 0) (l : List Pair)
      → All (λ p. P p.1) l
      → All (λ r. P r.score) (Rerank.results_of o by_id l)
  unfolding Rerank.results_of
  results_of-All P [] h = tt
  results_of-All P ((c, s) ∷ l) h = add (lookup c.chunk_id by_id) (results_of-All P l h.1)
    where
      add :
          (row : Option ChunkRow)
          → All (λ r. P r.score) (Rerank.results_of o by_id l)
          → All (λ r. P r.score) (add_found c.chunk_id s row (Rerank.results_of o by_id l))
      add none rest = rest
      add (some r) rest = (h.0, rest)

  pub results_of-IsDescending :
      (l : List Pair)
      → IsDescending o (λ p. p.1) l
      → IsDescending o (λ r. r.score) (Rerank.results_of o by_id l)
  unfolding Rerank.results_of
  results_of-IsDescending [] h = tt
  results_of-IsDescending ((c, s) ∷ l) h =
      add (lookup c.chunk_id by_id) (results_of-IsDescending l h.1)
    where
      add :
          (row : Option ChunkRow)
          → IsDescending o (λ r. r.score) (Rerank.results_of o by_id l)
          → IsDescending o (λ r. r.score) (add_found c.chunk_id s row (Rerank.results_of o by_id l))
      add none rest = rest
      add (some r) rest = (results_of-All (λ x. o.le x s ≡ true) l h.0, rest)

  pub results_of-Shows : (l : List Pair) → All (Shows by_id) (Rerank.results_of o by_id l)
  unfolding Rerank.results_of
  results_of-Shows [] = tt
  results_of-Shows ((c, s) ∷ l) =
      add_found-Shows by_id c.chunk_id s (lookup c.chunk_id by_id) _ refl (results_of-Shows l)

module _ (o : Order) {A : Type 0} (key : A → o.Score) where
  take-All : (P : A → Type 0) (k : ℕ) (l : List A) → All P l → All P (take k l)
  take-All P zero l h = tt
  take-All P (suc k) [] h = tt
  take-All P (suc k) (x ∷ l) h = (h.0, take-All P k l h.1)

  drop-All : (P : A → Type 0) (k : ℕ) (l : List A) → All P l → All P (drop k l)
  drop-All P zero l h = h
  drop-All P (suc k) [] h = tt
  drop-All P (suc k) (x ∷ l) h = drop-All P k l h.1

  pub take-IsDescending :
      (k : ℕ) (l : List A) → IsDescending o key l → IsDescending o key (take k l)
  take-IsDescending zero l h = tt
  take-IsDescending (suc k) [] h = tt
  take-IsDescending (suc k) (x ∷ l) h =
      (take-All (λ y. o.le (key y) (key x) ≡ true) k l h.0, take-IsDescending k l h.1)

  -- what is left out of the first `k` is above none of them
  pub take_above :
      (k : ℕ) (l : List A)
      → IsDescending o key l
      → All (λ x. All (λ y. o.le (key y) (key x) ≡ true) (drop k l)) (take k l)
  take_above zero l h = tt
  take_above (suc k) [] h = tt
  take_above (suc k) (x ∷ l) h =
      (drop-All (λ y. o.le (key y) (key x) ≡ true) k l h.0, take_above k l h.1)

abbrev pub has_row : {S : Type 0} → Dict ChunkRow → CandidateChunkRef S → Bool
has_row by_id c = found (lookup c.chunk_id by_id)

abbrev pub shown : {S : Type 0} → Result S → Text × S
shown r = (r.chunk_id, r.score)

abbrev pub scored : {S : Type 0} → CandidateChunkRef S → Text × S
scored c = (c.chunk_id, c.score)

-- The results of a job without reranking are the candidates whose chunk still exists, in the order
-- and with the scores of the candidates, each showing the row that was fetched for it.
pub finalize_results :
    {S : Type 0} (by_id : Dict ChunkRow) (candidates : List (CandidateChunkRef S))
    → (map shown (Finalize.results_of by_id candidates)
        ≡ map scored (keep (has_row by_id) candidates))
      × All (Shows by_id) (Finalize.results_of by_id candidates)
unfolding Finalize.results_of
finalize_results by_id [] = (refl, tt)
finalize_results {S} by_id (c ∷ candidates) = (
  same (lookup c.chunk_id by_id) (finalize_results by_id candidates).0,
  add_found-Shows by_id c.chunk_id c.score (lookup c.chunk_id by_id) _ refl
      (finalize_results by_id candidates).1,
)
  where
    same :
        (row : Option ChunkRow)
        → map shown (Finalize.results_of by_id candidates)
          ≡ map scored (keep (has_row by_id) candidates)
        → map shown (add_found c.chunk_id c.score row (Finalize.results_of by_id candidates))
          ≡ map scored (
              if found row
              then c ∷ keep (has_row by_id) candidates
              else keep (has_row by_id) candidates)
    same none h = h
    same (some r) h = ap (λ l. (c.chunk_id, c.score) ∷ l) h
