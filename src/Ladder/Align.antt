-- ===== src/Ladder/Align.antt =====
-- The scores of a rerank response, put in the order of the documents: worker/reranking.py.
use event_driven_rag_pipelin.Prelude.{
  ℕ, zero, suc, ◌<◌, ◌≡◌, refl, ap, ◌∙◌, sym, Text, List, [], ◌∷◌, length, length-map, get_elem?,
  some, All, arith, ◌==◌, if◌then◌else◌, subst,
}
use event_driven_rag_pipelin.Prelude.Action.{Outcome, returned}
use event_driven_rag_pipelin.Ladder.{
  ScoreRow, set_score, set_scores, cons_scores, then_set, align, zeros,
}

module _ {S : Type 0} where
  -- the score of the last row with an index, or `s` if no row has it
  abbrev pub score_at : S → ℕ → List (ScoreRow S) → S
  score_at s i [] = s
  score_at s i (r ∷ rows) = score_at (if r.index == i then r.score else s) i rows

  -- what a list of scores holds after an assignment
  abbrev Assigned : ℕ → S → List S → Outcome (List S) → Type 0
  Assigned i s l r =
      (l' : List S) × (r ≡ returned l')
      × (length l' ≡ length l)
      × ((j : ℕ) (x : S) → get_elem? l j ≡ some x → get_elem? l' j ≡ some (if i == j then s else x))

  set_score_lem : (i : ℕ) (s : S) (l : List S) → i < length l → Assigned i s l (set_score i s l)
  unfolding set_score
  set_score_lem i s [] h = absurd (omega arith)
  set_score_lem zero s (x ∷ l) h = (s ∷ l, refl, refl, at_index)
    where
      at_index :
          (j : ℕ) (y : S)
          → get_elem? (x ∷ l) j ≡ some y
          → get_elem? (s ∷ l) j ≡ some (if 0 == j then s else y)
      at_index zero y e = refl
      at_index (suc j) y e = ground (arith, e)
  set_score_lem (suc i) s (x ∷ l) h =
      let (l', e, n, f) = set_score_lem i s l (omega (arith, h)) in
      (x ∷ l', ap (cons_scores x) e, ap suc n, at_index l' f)
    where
      at_index :
          (l' : List S)
          → ((j : ℕ) (y : S)
              → get_elem? l j ≡ some y
              → get_elem? l' j ≡ some (if i == j then s else y))
          → (j : ℕ) (y : S) → get_elem? (x ∷ l) j ≡ some y
          → get_elem? (x ∷ l') j ≡ some (if suc i == j then s else y)
      at_index l' f zero y e = ground (arith, e)
      at_index l' f (suc j) y e = ground (arith, f j y e)

  abbrev Aligned : List (ScoreRow S) → List S → Outcome (List S) → Type 0
  Aligned rows l r =
      (l' : List S) × (r ≡ returned l')
      × (length l' ≡ length l)
      × ((j : ℕ) (x : S) → get_elem? l j ≡ some x → get_elem? l' j ≡ some (score_at x j rows))

  set_scores_lem :
      (rows : List (ScoreRow S)) (l : List S)
      → All (λ r. r.index < length l) rows
      → Aligned rows l (set_scores rows l)
  unfolding set_scores
  set_scores_lem [] l h = (l, refl, refl, λ j x e. e)
  set_scores_lem (r ∷ rows) l h =
      let (l1, e1, n1, f1) = set_score_lem r.index r.score l h.0 in
      let (l2, e2, n2, f2) =
        set_scores_lem rows l1 (subst (λ n. All (λ x. x.index < n) rows) (sym n1) h.1) in
      (l2, ap (λ o. then_set o (set_scores rows)) e1 ∙ e2, n2 ∙ n1, λ j x e. f2 j _ (f1 j x e))

get_elem?-zeros :
    {S : Type 0} (nought : S) (documents : List Text) (i : ℕ)
    → i < length documents
    → get_elem? (zeros nought documents) i ≡ some nought
get_elem?-zeros nought [] i h = absurd (omega arith)
get_elem?-zeros nought (d ∷ documents) zero h = refl
get_elem?-zeros nought (d ∷ documents) (suc i) h =
    get_elem?-zeros nought documents i (omega (arith, h))

-- A response whose rows all name a document, in whatever order, is put in the order of the documents:
-- one score for each document, the one of the last row with its index, and zero where no row has it.
pub align_lem :
    {S : Type 0} (nought : S) (documents : List Text) (rows : List (ScoreRow S))
    → All (λ r. r.index < length documents) rows
    → (l : List S) × (align nought documents rows ≡ returned l)
      × (length l ≡ length documents)
      × ((i : ℕ) → i < length documents → get_elem? l i ≡ some (score_at nought i rows))
unfolding align
align_lem nought documents rows h =
    let n = length-map (λ (d : Text). nought) documents in
    let (l, e, m, f) =
      set_scores_lem rows (zeros nought documents)
        (subst (λ k. All (λ x. x.index < k) rows) (sym n) h) in
    (l, e, m ∙ n, λ i k. f i nought (get_elem?-zeros nought documents i k))
