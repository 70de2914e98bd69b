-- ===== src/Chunker/Pieces.antt =====
-- The pieces of `SplitTextAtIndexStrategy`, and the turn of `chunk_at_boundaries` that goes back.
use event_driven_rag_pipelin.Prelude.{
  ℕ, zero, suc, ◌+◌, ◌-◌, ◌≤◌, ◌<◌, ◌≡◌, refl, ap, ◌∙◌, inl, inr, Text, true, false, none, some,
  List, [], ◌∷◌, ◌++◌, append-nil, keep_none, All, All-intro, length, length-take, length-drop,
  take, drop, take-append-drop, leb, Bool-cases, arith,
}
use event_driven_rag_pipelin.Chunker.Integers.{ℤ, pos, negsuc, ◌+ℤ◌, minus, ltb_int}
use event_driven_rag_pipelin.Chunker.{
  Rounding, word_count, find_breaks, nearest_of, nearest_break, within, markers, hard_split,
  ends_at, effective, split_turn, pieces, split_at_index,
}
use event_driven_rag_pipelin.Chunker.Bounds.{word_count-length}

abbrev pub IsSplit : ℕ → Text → List Text → Type 0
IsSplit max_chars s l = (joined l ≡ s) × All (λ p. length p ≤ max_chars) l
  where
    joined : List Text → Text
    joined [] = []
    joined (p ∷ l) = p ++ joined l

pieces-IsSplit :
    (fuel max_chars : ℕ) (s : Text)
    → 1 ≤ max_chars
    → length s ≤ fuel
    → IsSplit max_chars s (pieces fuel max_chars s)
unfolding pieces
pieces-IsSplit zero m [] h f = (refl, tt)
pieces-IsSplit zero m (c ∷ s) h f = absurd (omega (arith, f))
pieces-IsSplit (suc fuel) m [] h f = (refl, tt)
pieces-IsSplit (suc fuel) m (c ∷ s) h f =
    let (j, a) =
      pieces-IsSplit fuel m (drop m (c ∷ s)) h (omega (arith, f, h, length-drop m (c ∷ s))) in
    (
      ap (λ x. take m (c ∷ s) ++ x) j ∙ take-append-drop m (c ∷ s),
      (omega (arith, length-take m (c ∷ s)), a),
    )

-- The pieces of a text, joined, are the text, and each has at most the given number of characters,
-- which is positive.
pub split_at_index-IsSplit :
    (max_chars : ℕ) (s : Text) → 1 ≤ max_chars → IsSplit max_chars s (split_at_index max_chars s)
unfolding split_at_index
split_at_index-IsSplit m s h = elim (Bool-cases (leb (length s) m)) [
  | inl e ↦ rw e (append-nil s, (ground (arith, e), tt))
  | inr e ↦ rw e (pieces-IsSplit (length s) m s h (omega arith))
]

nearest_break-none :
    (s : Text) (target lo hi : ℤ) (l : List Text)
    → ((p : ℕ) → within lo hi p ≡ false)
    → nearest_break s target lo hi l ≡ none
unfolding nearest_break
nearest_break-none s target lo hi [] h = refl
nearest_break-none s target lo hi (marker ∷ l) h =
    ap (λ c. nearest_of target c (nearest_break s target lo hi l))
      (keep_none (within lo hi) (find_breaks marker 0 s)
        (All-intro (λ p. within lo hi p ≡ false) h (find_breaks marker 0 s)))
    ∙ nearest_break-none s target lo hi l h

-- a negative number of words has a negative number of characters
pub record IsSigned (r : Rounding) : Type 0 where
  pub hi_negative :
      (n m chars words : ℕ)
      → 1 ≤ chars
      → words ≤ chars
      → (h : ℕ) × (r.hi_chars n (negsuc m) chars words ≡ negsuc h)
  pub hard_negative :
      (m chars words : ℕ)
      → 1 ≤ chars
      → words ≤ chars
      → (h : ℕ) × (r.hard_chars (negsuc m) chars words ≡ negsuc h)

module _ (r : Rounding) (target hard_limit : ℕ) (signed : IsSigned r) where
  minus-negative : (w : ℕ) → hard_limit < w → minus hard_limit w ≡ negsuc (w - hard_limit - 1)
  minus-negative w h = ground (arith, h)

  outside : (c lo h p : ℕ) → within (pos (c + lo)) (pos c +ℤ negsuc h) p ≡ false
  outside c lo h p = elim (Bool-cases (leb (h + 1) c)) [
    | inl e ↦ rw e (ground (arith, e))
    | inr e ↦ rw e (ground (arith, e))
  ]

  before : (c h : ℕ) → ltb_int (pos c +ℤ negsuc h) (pos c) ≡ true
  before c h = elim (Bool-cases (leb (h + 1) c)) [
    | inl e ↦ rw e (ground (arith, e))
    | inr e ↦ rw e refl
  ]

  -- When the overlap prefix has more words than the hard limit, the turn ends its chunk before the
  -- position at which it begins, whatever the text: the loop goes back.
  pub split_turn_back :
      (s prefix remaining : Text) (c : ℕ)
      → 1 ≤ length remaining
      → hard_limit < word_count prefix
      → (h : ℕ) × (split_turn r target hard_limit s prefix (pos c) remaining
          ≡ ends_at r target hard_limit s prefix (pos c) (some (pos c +ℤ negsuc h)))
        × (ltb_int (pos c +ℤ negsuc h) (pos c) ≡ true)
  unfolding split_turn hard_split
  split_turn_back s prefix remaining c l h =
      let n = length remaining in
      let w = word_count remaining in
      let m = word_count prefix - hard_limit - 1 in
      let (j, hi) =
        signed.hi_negative (effective r target hard_limit prefix) m n w l
          (word_count-length remaining) in
      let (k, hard) = signed.hard_negative m n w l (word_count-length remaining) in
      let none_near =
        nearest_break-none s (pos (c + r.target_chars (effective r target hard_limit prefix) n w))
          (pos (c + r.lo_chars (effective r target hard_limit prefix) n w)) (pos c +ℤ negsuc j)
          markers (outside c _ j) in
      (k, rw (minus-negative (word_count prefix) h, hi, hard, none_near) refl, before c k)
