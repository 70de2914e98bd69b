-- ===== src/Chunker/Tests.antt =====
-- The chunker with rounding by whole characters: each word counts as one character.
use event_driven_rag_pipelin.Prelude.{
  ℕ, ◌+◌, ◌-◌, ◌/◌, ◌≡◌, refl, sym, ap, ◌∙◌, ◌⊎◌, inl, inr, Text, text, true, false, some, List, [],
  ◌∷◌, min, arith,
}
use event_driven_rag_pipelin.Prelude.Action.{returned}
use event_driven_rag_pipelin.Posts.{strip}
use event_driven_rag_pipelin.Chunker.Integers.{ℤ, pos, negsuc, ◌+ℤ◌, ltb_int}
use event_driven_rag_pipelin.Chunker.{
  Rounding, go_on, last_chunk, start, char_after, normalise, word_count, words_from, ends_at,
  split_turn, chunk_at_boundaries, chunk_loop, turn, slice_from, slice, overlap_prefix, hard_split,
  back_off, nearest_break, find_breaks, nearest, replace_from, split_at_index,
}
use event_driven_rag_pipelin.Chunker.Exact.{exact}
use event_driven_rag_pipelin.Chunker.Ends.{chunk_at_boundaries-exact-ends}
use event_driven_rag_pipelin.Chunker.Progress.{Short, Reached, begins, goes}
use event_driven_rag_pipelin.Chunker.Pieces.{
  IsSplit, split_at_index-IsSplit, IsSigned, split_turn_back,
}

abbrev at_most : ℕ → ℤ → ℤ
at_most n (pos k) = pos (min n k)
at_most n (negsuc k) = negsuc k

abbrev rounding : Rounding
rounding = record {
  has_offset = false;
  skipped_words = λ n. n;
  has_overlap = false;
  fraction_words = λ n. n;
  overlap_words = λ n. n;
  tenth = λ n. n / 10;
  target_chars = λ n chars words. n;
  lo_chars = λ n chars words. n - 2;
  hi_chars = λ n left chars words. at_most (n + 2) left;
  hard_chars = λ left chars words. left;
}

rounding-IsSigned : IsSigned rounding
rounding-IsSigned = record {
  hi_negative = λ n m chars words k l. (m, refl);
  hard_negative = λ m chars words k l. (m, refl);
}

abbrev sample : Text
sample = text "one two three. four five"

-- fourteen words at a limit of twelve: two chunks, the second with three words of the first
abbrev letters : Text
letters = text "a b c d e f g h i j k l m n"

abbrev first_letters : Text
first_letters = text "a b c d e f g h i j k"

first_turn :
    turn (exact 0 20 30) 5 12 (normalise letters) (pos 0) []
    ≡ go_on first_letters first_letters (pos 22)
unfolding exact turn slice_from slice overlap_prefix hard_split back_off split_turn nearest_break
    find_breaks nearest replace_from normalise word_count words_from strip
first_turn = refl

second_turn :
    turn (exact 0 20 30) 5 12 (normalise letters) (pos 22) first_letters
    ≡ last_chunk (text "i j k l m n")
unfolding exact turn slice_from slice overlap_prefix hard_split back_off split_turn nearest_break
    find_breaks nearest replace_from normalise word_count words_from strip char_after
second_turn = refl

letters-start : start (exact 0 20 30) (normalise letters) ≡ 0
unfolding exact start
letters-start = refl

abbrev Turns : ℤ → Text → Type 0
Turns cursor prev = ((cursor ≡ pos 0) × (prev ≡ [])) ⊎ ((cursor ≡ pos 22) × (prev ≡ first_letters))

letters-Turns :
    {cursor : ℤ} {prev : Text}
    → Reached (exact 0 20 30) 5 12 (normalise letters) cursor prev
    → Turns cursor prev
letters-Turns begins = inl (ap pos letters-start, refl)
letters-Turns (goes {cursor} {next} {prev} {chunk} {raw_chunk} reached e) =
    after (letters-Turns reached) e
  where
    after :
        Turns cursor prev
        → turn (exact 0 20 30) 5 12 (normalise letters) cursor prev ≡ go_on chunk raw_chunk next
        → Turns next raw_chunk
    after (inl (c, p)) e =
        let same : go_on first_letters first_letters (pos 22) ≡ go_on chunk raw_chunk next =
          sym first_turn ∙ (rw (c, p) at e) in
        inr (cc, cc)
    after (inr (c, p)) e =
        let same : last_chunk (text "i j k l m n") ≡ go_on chunk raw_chunk next =
          sym second_turn ∙ (rw (c, p) at e) in
        cc

letters-Short : Short (exact 0 20 30) 5 12 (normalise letters)
unfolding exact overlap_prefix nearest_break find_breaks nearest char_after words_from word_count
    strip
letters-Short cursor prev reached = elim (letters-Turns reached) [
  | inl (c, p) ↦ rw p (omega arith)
  | inr (c, p) ↦ rw p (omega arith)
]

chunk_at_boundaries-exact-ends_example :
    (chunks : List Text) × (chunk_at_boundaries (exact 0 20 30) 5 12 letters
      ≡ some (returned chunks))
chunk_at_boundaries-exact-ends_example =
    chunk_at_boundaries-exact-ends 0 20 30 5 12 letters (omega arith) (omega arith) (omega arith)
      letters-Short

-- no break in the window, so that the text is split at the last space within the limit
splits :
    chunk_at_boundaries rounding 2 4 (text "ab cd efg hi jkl")
    ≡ some (returned (text "ab" ∷ text "cd efg hi jkl" ∷ []))
unfolding chunk_at_boundaries chunk_loop turn slice_from slice overlap_prefix hard_split back_off
    split_turn nearest_break find_breaks nearest replace_from normalise word_count words_from strip
splits = refl

split_at_index-IsSplit_example : IsSplit 2 sample (split_at_index 2 sample)
split_at_index-IsSplit_example = split_at_index-IsSplit 2 sample (omega arith)

two_words : word_count (text "a b") ≡ 2
unfolding word_count words_from
two_words = refl

split_turn_back_example :
    (h : ℕ) × (split_turn rounding 2 1 sample (text "a b") (pos 4) (text "two")
      ≡ ends_at rounding 2 1 sample (text "a b") (pos 4) (some (pos 4 +ℤ negsuc h)))
    × (ltb_int (pos 4 +ℤ negsuc h) (pos 4) ≡ true)
split_turn_back_example =
    split_turn_back rounding 2 1 rounding-IsSigned sample (text "a b") (text "two") 4 (omega arith)
      (omega (arith, two_words))
