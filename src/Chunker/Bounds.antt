-- ===== src/Chunker/Bounds.antt =====
-- Where the helpers of utils/chunk_strategies.py look and stop: words, breaks and the split at the limit.
use event_driven_rag_pipelin.Prelude.{
  ℕ, zero, suc, ◌+◌, ◌≤◌, ◌<◌, ◌≡◌, refl, ap, ◌∙◌, subst, ◌⊎◌, inl, inr, Text, is_empty, Bool, true,
  false, some, List, [], ◌∷◌, ◌++◌, keep, keep-passes, All, get_elem?, length, ltb, if◌then◌else◌,
  Bool-cases, arith,
}
use event_driven_rag_pipelin.Posts.{is_space}
use event_driven_rag_pipelin.Chunker.Integers.{ℤ, pos, distance}
use event_driven_rag_pipelin.Chunker.{
  words_from, word_count, find_breaks, nearest, nearest_of, nearest_break, within, judge,
  is_separator, back_off,
}

words_from-length :
    (word s : Text) → length (words_from word s) ≤ length s + (if is_empty word then 0 else 1)
unfolding words_from
words_from-length [] [] = omega arith
words_from-length (d ∷ word) [] = omega arith
words_from-length [] (c ∷ s) = elim (Bool-cases (is_space c)) [
  | inl e ↦ let rest = words_from-length [] s in rw e (omega (arith, rest))
  | inr e ↦ let rest = words_from-length (c ∷ []) s in rw e (omega (arith, rest))
]
words_from-length (d ∷ word) (c ∷ s) = elim (Bool-cases (is_space c)) [
  | inl e ↦ let rest = words_from-length [] s in rw e (omega (arith, rest))
  | inr e ↦ let rest = words_from-length (d ∷ (word ++ (c ∷ []))) s in rw e (omega (arith, rest))
]

pub word_count-length : (s : Text) → word_count s ≤ length s
unfolding word_count
word_count-length s = omega (arith, words_from-length [] s)

nearest-All :
    (P : ℕ → Type 0) (target : ℤ) (best : ℕ) (candidates : List ℕ)
    → P best
    → All P candidates
    → P (nearest target best candidates)
unfolding nearest
nearest-All P target best [] p h = p
nearest-All P target best (q ∷ candidates) p h =
    nearest-All P target (if ltb (distance q target) (distance best target) then q else best)
      candidates (chosen (ltb (distance q target) (distance best target))) h.1
  where
    chosen : (b : Bool) → P (if b then q else best)
    chosen true = h.0
    chosen false = p

-- a break lies in the window that was searched
pub nearest_break-within :
    (s : Text) (target lo hi : ℤ) (l : List Text) (p : ℕ)
    → nearest_break s target lo hi l ≡ some p
    → within lo hi p ≡ true
unfolding nearest_break
nearest_break-within s target lo hi [] p h = cc
nearest_break-within s target lo hi (marker ∷ l) p h =
    of_candidates (keep (within lo hi) (find_breaks marker 0 s))
      (keep-passes (within lo hi) (find_breaks marker 0 s))
      (nearest_break-within s target lo hi l p) h
  where
    unwrap : {a b : ℕ} → some a ≡ some b → a ≡ b
    unwrap e = cc

    of_candidates :
        (c : List ℕ)
        → All (λ x. within lo hi x ≡ true) c
        → (nearest_break s target lo hi l ≡ some p → within lo hi p ≡ true)
        → nearest_of target c (nearest_break s target lo hi l) ≡ some p
        → within lo hi p ≡ true
    of_candidates [] a ih e = ih e
    of_candidates (q ∷ c) a ih e =
        subst (λ x. within lo hi x ≡ true) (unwrap e)
          (nearest-All (λ x. within lo hi x ≡ true) target q c a.0 a.1)

get_elem?-some : (s : Text) (i : ℕ) → i < length s → (c : ℕ) × (get_elem? s i ≡ some c)
get_elem?-some [] i h = absurd (omega (arith, h))
get_elem?-some (c ∷ s) zero h = (c, refl)
get_elem?-some (c ∷ s) (suc i) h = get_elem?-some s i (omega (arith, h))

-- within the text there is no IndexError
pub back_off-some :
    (s : Text) (c n : ℕ) → c + n ≤ length s → (j : ℕ) × (back_off s (pos c) n ≡ some j)
unfolding back_off
back_off-some s c zero h = (0, refl)
back_off-some s c (suc n) h =
    let (d, e) = get_elem?-some s (c + n) (omega (arith, h)) in
    let (j, f) = back_off-some s c n (omega (arith, h)) in
    let (k, g) = judged d (Bool-cases (is_separator d)) j in
    (k, ap (λ o. judge o (suc n) (back_off s (pos c) n)) e ∙ ap (judge (some d) (suc n)) f ∙ g)
  where
    judged :
        (d : ℕ)
        → (is_separator d ≡ true) ⊎ (is_separator d ≡ false)
        → (j : ℕ) → (k : ℕ) × (judge (some d) (suc n) (some j) ≡ some k)
    judged d (inl b) j = (suc n, ap (λ x. if x then some (suc n) else some j) b)
    judged d (inr b) j = (j, ap (λ x. if x then some (suc n) else some j) b)
