-- ===== src/Chunker/Progress.antt =====
-- The loop of `chunk_at_boundaries` ends.
use event_driven_rag_pipelin.Prelude.{
  ℕ, zero, suc, ◌+◌, ◌-◌, ◌≤◌, ◌<◌, ◌≡◌, refl, sym, subst, ◌⊎◌, inl, inr, ◌&&◌, Text, Bool, true,
  false, Option, none, some, List, [], ◌∷◌, ◌++◌, length, length-drop, drop, leb, ltb,
  if◌then◌else◌, Bool-cases, arith,
}
use event_driven_rag_pipelin.Prelude.Action.{Outcome, returned, raised}
use event_driven_rag_pipelin.Posts.{strip}
use event_driven_rag_pipelin.Chunker.Integers.{ℤ, pos, ◌+ℤ◌, minus, leb_int, min_int}
use event_driven_rag_pipelin.Chunker.{
  normalise, start, words_from, word_count, nearest_break, within, markers, slice_from, Rounding,
  Turn, stop, fails, last_chunk, go_on, back_off, overlap_prefix, nonzero_split, hard_split,
  ends_at, break_at, effective, split_turn, turn, add_chunk_of, follow, chunk_loop,
  chunk_at_boundaries,
}
use event_driven_rag_pipelin.Chunker.Bounds.{word_count-length, nearest_break-within, back_off-some}

-- What is known of the rounding: an average word has a character at least, so that at least ten words
-- less the tolerance have one, and so has any positive number of words.
pub record IsRounding (r : Rounding) : Type 0 where
  pub lo_positive :
      (n chars words : ℕ) → 10 ≤ n → 1 ≤ chars → words ≤ chars → 1 ≤ r.lo_chars n chars words
  pub hard_positive :
      (m chars words : ℕ)
      → 1 ≤ chars
      → words ≤ chars
      → (h : ℕ) × (r.hard_chars (pos (suc m)) chars words ≡ pos (suc h))

-- a turn that goes on from a position goes on from a later one
abbrev pub Advances : ℕ → Turn → Type 0
Advances c stop = Unit
Advances c fails = ⊥
Advances c (last_chunk chunk) = Unit
Advances c (go_on chunk raw_chunk cursor) = (k : ℕ) × (cursor ≡ pos k) × (c < k)

suc_not_less : (n : ℕ) → ltb (suc n) 0 ≡ false
suc_not_less n = ground arith

module _ (r : Rounding) (target hard_limit : ℕ) (sound : IsRounding r) where
  abbrev Later : ℕ → Option ℤ → Type 0
  Later c o = (k : ℕ) × (o ≡ some (pos k)) × (c < k)

  hard_split-Later :
      (s : Text) (c h n : ℕ)
      → c + suc n ≤ length s
      → Later c (hard_split r target hard_limit s (pos c) (pos (suc h)) (suc n))
  unfolding hard_split
  hard_split-Later s c h n l = by_min (Bool-cases (leb (suc h) (suc n)))
    where
      nonzero :
          (o : Option ℕ)
          → ((j : ℕ) × (o ≡ some j))
          → Later c (nonzero_split r target hard_limit (pos c) (pos (suc h)) o)
      nonzero none (j, e) = cc
      nonzero (some zero) e = (c + suc h, refl, omega arith)
      nonzero (some (suc j)) e = (c + suc j, refl, omega arith)

      by_min :
          (leb (suc h) (suc n) ≡ true) ⊎ (leb (suc h) (suc n) ≡ false)
          → Later c (hard_split r target hard_limit s (pos c) (pos (suc h)) (suc n))
      by_min (inl e) =
          rw (e, suc_not_less h)
            (nonzero (back_off s (pos c) (suc h))
              (back_off-some s c (suc h) (ground (arith, e, l))))
      by_min (inr e) =
          rw (e, suc_not_less n)
            (nonzero (back_off s (pos c) (suc n)) (back_off-some s c (suc n) l))

  hard_split-Later_at :
      (s : Text) (c n m words : ℕ)
      → 1 ≤ n
      → c + n ≤ length s
      → words ≤ n
      → Later c (hard_split r target hard_limit s (pos c) (r.hard_chars (pos (suc m)) n words) n)
  hard_split-Later_at s c zero m words h l w = absurd (omega (arith, h))
  hard_split-Later_at s c (suc n) m words h l w =
      let (hard, e) = sound.hard_positive m (suc n) words (omega arith) w in
      subst (λ x. Later c (hard_split r target hard_limit s (pos c) x (suc n))) (sym e)
        (hard_split-Later s c hard n l)

  ends_at-Advances :
      (s prefix : Text) (c : ℕ) (o : Option ℤ)
      → Later c o
      → Advances c (ends_at r target hard_limit s prefix (pos c) o)
  ends_at-Advances s prefix c o (k, e, l) =
      subst (λ x. Advances c (ends_at r target hard_limit s prefix (pos c) x)) (sym e) (k, refl, l)

  minus-positive : (w : ℕ) → w < hard_limit → minus hard_limit w ≡ pos (suc (hard_limit - w - 1))
  minus-positive w h = ground (arith, h)

  split_turn-Advances :
      (s prefix remaining : Text) (c : ℕ)
      → 1 ≤ length remaining
      → c + length remaining ≤ length s
      → word_count prefix < hard_limit
      → Advances c (split_turn r target hard_limit s prefix (pos c) remaining)
  unfolding split_turn
  split_turn-Advances s prefix remaining c h i l =
      by_break
        (nearest_break s (pos (c + r.target_chars (effective r target hard_limit prefix) n w))
          (pos (c + lo)) hi markers)
        (λ p.
          nearest_break-within s
            (pos (c + r.target_chars (effective r target hard_limit prefix) n w)) (pos (c + lo)) hi
            markers p)
    where
      n : ℕ
      n = length remaining

      w : ℕ
      w = word_count remaining

      lo : ℕ
      lo = r.lo_chars (effective r target hard_limit prefix) n w

      hi : ℤ
      hi =
          pos c
          +ℤ min_int
              (r.hi_chars (effective r target hard_limit prefix)
                (minus hard_limit (word_count prefix)) n w)
              (pos n)

      hard : ℤ
      hard = r.hard_chars (minus hard_limit (word_count prefix)) n w

      by_break :
          (o : Option ℕ)
          → ((p : ℕ) → o ≡ some p → within (pos (c + lo)) hi p ≡ true)
          → Advances c (break_at r target hard_limit s prefix (pos c) hard n o)
      by_break (some p) inside = (
        p,
        refl,
        after (leb_int (pos p) hi) (inside p refl)
            (sound.lo_positive _ n w (omega arith) h (word_count-length remaining)),
      )
        where
          after : (b : Bool) → leb (c + lo) p && b ≡ true → 1 ≤ lo → c < p
          after b e q = ground (arith, e, q)
      by_break none inside =
          ends_at-Advances s prefix c (hard_split r target hard_limit s (pos c) hard n) (
            subst (λ x. Later c (hard_split r target hard_limit s (pos c) (r.hard_chars x n w) n))
              (sym (minus-positive (word_count prefix) l))
              (hard_split-Later_at s c n _ w h i (word_count-length remaining)))

  turn-Advances :
      (s prev : Text) (c : ℕ)
      → word_count (overlap_prefix r target hard_limit prev) < hard_limit
      → Advances c (turn r target hard_limit s (pos c) prev)
  unfolding turn slice_from
  turn-Advances s prev c l = elim (Bool-cases (ltb c (length s))) [
    | inr e ↦ rw e tt
    | inl e ↦ rw e (
        by_limit (leb (word_count (overlap_prefix r target hard_limit prev ++ drop c s)) hard_limit)
          (rest e) (inside e))
  ]
    where
      rest : ltb c (length s) ≡ true → 1 ≤ length (drop c s)
      rest e = ground (arith, e, length-drop c s)

      inside : ltb c (length s) ≡ true → c + length (drop c s) ≤ length s
      inside e = ground (arith, e, length-drop c s)

      by_limit :
          (b : Bool)
          → 1 ≤ length (drop c s)
          → c + length (drop c s) ≤ length s
          → Advances c (
              if b
              then last_chunk (strip (some (overlap_prefix r target hard_limit prev ++ drop c s)))
              else split_turn r target hard_limit s
                  (overlap_prefix r target hard_limit prev)
                  (pos c)
                  (drop c s))
      by_limit true h i = tt
      by_limit false h i =
          split_turn-Advances s (overlap_prefix r target hard_limit prev) (drop c s) c h i l

turn-stop :
    (r : Rounding) (target hard_limit : ℕ) (s : Text) (c : ℕ) (prev : Text)
    → ltb c (length s) ≡ false
    → turn r target hard_limit s (pos c) prev ≡ stop
unfolding turn
turn-stop r target hard_limit s c prev e = rw e refl

module _ (r : Rounding) (target hard_limit : ℕ) (s : Text) where
  -- the positions and previous chunks that the loop comes to
  pub data Reached : ℤ → Text → Type 0 where
    begins : Reached (pos (start r s)) []
    goes :
        {cursor next : ℤ} {prev chunk raw_chunk : Text}
        → Reached cursor prev
        → turn r target hard_limit s cursor prev ≡ go_on chunk raw_chunk next
        → Reached next raw_chunk

  abbrev pub Short : Type 0
  Short =
      (cursor : ℤ) (prev : Text)
      → Reached cursor prev
      → word_count (overlap_prefix r target hard_limit prev) < hard_limit

  add_chunk_of-some :
      (chunk : Text) (o : Option (Outcome (List Text)))
      → ((l : List Text) × (o ≡ some (returned l)))
      → (l : List Text) × (add_chunk_of r target hard_limit chunk o ≡ some (returned l))
  add_chunk_of-some chunk none (l, e) = cc
  add_chunk_of-some chunk (some (raised x)) (l, e) = cc
  add_chunk_of-some [] (some (returned x)) h = (x, refl)
  add_chunk_of-some (c ∷ chunk) (some (returned x)) h = ((c ∷ chunk) ∷ x, refl)

  loop-ends :
      (sound : IsRounding r) (short : Short) (fuel c : ℕ) (prev : Text)
      → Reached (pos c) prev
      → length s < c + fuel
      → 1 ≤ fuel
      → (chunks : List Text) × (chunk_loop r target hard_limit fuel s (pos c) prev
          ≡ some (returned chunks))
  unfolding chunk_loop
  loop-ends sound short zero c prev reached h f = absurd (omega (arith, f))
  loop-ends sound short (suc fuel) c prev reached h f =
      by_turn (turn r target hard_limit s (pos c) prev) refl
        (turn-Advances r target hard_limit sound s prev c (short (pos c) prev reached))
        (loop-ends sound short fuel)
    where
      by_turn :
          (t : Turn)
          → turn r target hard_limit s (pos c) prev ≡ t
          → Advances c t
          → ((k : ℕ) (p : Text)
              → Reached (pos k) p
              → length s < k + fuel
              → 1 ≤ fuel
              → (chunks : List Text) × (chunk_loop r target hard_limit fuel s (pos k) p
                  ≡ some (returned chunks)))
          → (chunks : List Text) × (follow r target hard_limit t
                (chunk_loop r target hard_limit fuel s)
              ≡ some (returned chunks))
      by_turn stop e a ih = ([], refl)
      by_turn fails e a ih = absurd a
      by_turn (last_chunk chunk) e a ih = add_chunk_of-some chunk (some (returned [])) ([], refl)
      by_turn (go_on chunk raw_chunk next) e (k, q, l) ih =
          add_chunk_of-some chunk (chunk_loop r target hard_limit fuel s next raw_chunk)
            (later (Bool-cases (ltb c (length s))))
        where
          reached_next : Reached (pos k) raw_chunk
          reached_next = subst (λ z. Reached z raw_chunk) q (goes reached e)

          later :
              (ltb c (length s) ≡ true) ⊎ (ltb c (length s) ≡ false)
              → (chunks : List Text) × (chunk_loop r target hard_limit fuel s next raw_chunk
                  ≡ some (returned chunks))
          later (inl b) =
              subst
                (λ z.
                  (chunks : List Text) × (chunk_loop r target hard_limit fuel s z raw_chunk
                    ≡ some (returned chunks)))
                (sym q) (ih k raw_chunk reached_next (omega (arith, h, l)) (enough b))
            where
              enough : ltb c (length s) ≡ true → 1 ≤ fuel
              enough x = ground (arith, h, x)
          later (inr b) = let halts = turn-stop r target hard_limit s c prev b in cc

-- the chunker ends, however floats are rounded within these bounds
pub chunk_at_boundaries-ends :
    (r : Rounding) (target hard_limit : ℕ) (s : Text)
    → IsRounding r
    → Short r target hard_limit (normalise s)
    → (chunks : List Text) × (chunk_at_boundaries r target hard_limit s ≡ some (returned chunks))
unfolding chunk_at_boundaries
chunk_at_boundaries-ends r target hard_limit s sound short =
    loop-ends r target hard_limit (normalise s) sound short (suc (length (normalise s)))
      (start r (normalise s)) [] begins (omega arith) (omega arith)

-- without an overlap no prefix has words
pub no_overlap-Short :
    (r : Rounding) (target hard_limit : ℕ) (s : Text)
    → r.has_overlap ≡ false
    → 1 ≤ hard_limit
    → Short r target hard_limit s
unfolding overlap_prefix word_count words_from
no_overlap-Short r target hard_limit s e h cursor prev reached = rw e (omega (arith, h))
