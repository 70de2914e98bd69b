-- ===== src/Chunker.antt =====
-- src/event_driven_rag_service/utils/chunk_strategies.py: the boundary chunker and the strategy that
-- splits at an index. Positions are Python's integers, which may be negative; a slice counts a negative
-- index from the end. What the code rounds from floats is a record, which Chunker/Exact.antt fills with
-- the code's formulas.
pub mod Integers
pub mod Exact
pub mod Bounds
pub mod Progress
pub mod Ends
pub mod Pieces
mod Tests
use event_driven_rag_pipelin.Prelude.{
  ℕ, zero, suc, ◌+◌, ◌-◌, ◌≤◌, ◌&&◌, ◌||◌, ◌==◌, max, Text, text, is_empty, Bool, true, false, not,
  Option, none, some, List, [], ◌∷◌, ◌++◌, map, keep, length, take, drop, get_elem?, leb, ltb,
  if◌then◌else◌,
}
use event_driven_rag_pipelin.Prelude.Action.{Outcome, returned, raised, other}
use event_driven_rag_pipelin.Posts.{is_space, strip}
use event_driven_rag_pipelin.TableNames.{starts_with}
use event_driven_rag_pipelin.Chunker.Integers.{
  ℤ, pos, negsuc, ◌+ℤ◌, minus, leb_int, ltb_int, min_int, to_nat, distance,
}

-- `s.replace(old, new)`, from left to right; `skip` characters of an occurrence are still to come
unfoldable pub replace_from : Text → Text → ℕ → Text → Text
replace_from old new skip [] = []
replace_from old new zero (c ∷ s) =
    (if starts_with old (c ∷ s) then new else c ∷ [])
    ++ replace_from old new (if starts_with old (c ∷ s) then length old - 1 else 0) s
replace_from old new (suc skip) (c ∷ s) = replace_from old new skip s

-- the escapes that stand in the text as two characters
unfoldable pub normalise : Text → Text
unfolding replace_from
normalise s = replace_from (92 ∷ 114 ∷ []) (13 ∷ []) 0 (
    replace_from (92 ∷ 110 ∷ []) (10 ∷ []) 0
      (replace_from (92 ∷ 110 ∷ 92 ∷ 110 ∷ []) (10 ∷ 10 ∷ []) 0 s))

abbrev close_word : Text → List Text → List Text
close_word [] rest = rest
close_word (c ∷ word) rest = (c ∷ word) ∷ rest

abbrev close_if : Bool → Text → List Text → List Text
close_if true word rest = close_word word rest
close_if false word rest = rest

-- `text.split()`, where `word` has begun
unfoldable pub words_from : Text → Text → List Text
words_from word [] = close_word word []
words_from word (c ∷ s) =
    close_if (is_space c) word (words_from (if is_space c then [] else word ++ (c ∷ [])) s)

unfoldable pub word_count : Text → ℕ
unfolding words_from
word_count s = length (words_from [] s)

-- `find_breaks`, from a position on
unfoldable pub find_breaks : Text → ℕ → Text → List ℕ
find_breaks marker i [] = []
find_breaks marker i (c ∷ s) =
    let rest = find_breaks marker (i + 1) s in
    if starts_with marker (c ∷ s) then (i + length marker) ∷ rest else rest

-- `min(candidates, key=…)`: the first of the nearest
unfoldable pub nearest : ℤ → ℕ → List ℕ → ℕ
nearest target best [] = best
nearest target best (p ∷ candidates) =
    nearest target (if ltb (distance p target) (distance best target) then p else best) candidates

abbrev pub markers : List Text
markers = text "***" ∷ text "---" ∷ (10 ∷ 10 ∷ []) ∷ (10 ∷ []) ∷ text "." ∷ []

abbrev pub within : ℤ → ℤ → ℕ → Bool
within lo hi p = leb_int lo (pos p) && leb_int (pos p) hi

abbrev pub nearest_of : ℤ → List ℕ → Option ℕ → Option ℕ
nearest_of target [] rest = rest
nearest_of target (p ∷ candidates) rest = some (nearest target p candidates)

unfoldable pub nearest_break : Text → ℤ → ℤ → ℤ → List Text → Option ℕ
unfolding find_breaks nearest
nearest_break s target lo hi [] = none
nearest_break s target lo hi (marker ∷ rest) =
    nearest_of target (keep (within lo hi) (find_breaks marker 0 s))
      (nearest_break s target lo hi rest)

-- `char_for_word_fraction`, where the word to stop after is given: the loop over the characters
unfoldable pub char_after : ℕ → ℕ → Bool → ℕ → Text → ℕ
char_after target count in_word i [] = i
char_after target count true i (c ∷ s) =
    let rest =
      char_after target (if is_space c then count + 1 else count) (not (is_space c)) (i + 1) s in
    if is_space c && leb target (count + 1) then i else rest
char_after target count false i (c ∷ s) = char_after target count (not (is_space c)) (i + 1) s

-- Python's index and slice
abbrev pub from_end : ℕ → ℤ → ℕ
from_end n (pos i) = i
from_end n (negsuc i) = n - (i + 1)

unfoldable pub slice : Text → ℤ → ℤ → Text
slice s i j = take (from_end (length s) j - from_end (length s) i) (drop (from_end (length s) i) s)

unfoldable pub slice_from : Text → ℤ → Text
slice_from s i = drop (from_end (length s) i) s

-- What `chunk_at_boundaries` rounds from floats: of the tolerance, the overlap and the average number
-- of characters in a word, which is given by a length and a number of words. The overlap and the start
-- offset are below one.
pub record Rounding : Type 0 where
  pub has_offset : Bool
  -- int(len(words) * start_offset)
  pub skipped_words : ℕ → ℕ
  pub has_overlap : Bool
  -- int(len(words) * (1.0 - overlap)) and int(len(prev_words) * overlap)
  pub fraction_words : ℕ → ℕ
  pub overlap_words : ℕ → ℕ
  -- int(len(prev_chunk_text) * 0.10)
  pub tenth : ℕ → ℕ
  -- int(n * avg_chars) and int(n * (1 - tolerance) * avg_chars)
  pub target_chars : (n chars words : ℕ) → ℕ
  pub lo_chars : (n chars words : ℕ) → ℕ
  -- int(min(n * (1 + tolerance), left) * avg_chars) and int(left * avg_chars)
  pub hi_chars : (n : ℕ) (left : ℤ) (chars words : ℕ) → ℤ
  pub hard_chars : (left : ℤ) (chars words : ℕ) → ℤ

-- what one turn of the loop does: it ends, with a last chunk or none, fails with an IndexError, or goes
-- on from a position
pub data Turn : Type 0 where
  stop fails : Turn
  last_chunk : Text → Turn
  go_on : (chunk raw_chunk : Text) (cursor : ℤ) → Turn

abbrev pub or_else : ℕ → Option ℕ → ℕ
or_else n none = n
or_else n (some p) = p

abbrev offset_markers : List Text
offset_markers = (10 ∷ 10 ∷ []) ∷ (10 ∷ []) ∷ text "." ∷ []

-- where the loop begins: behind the words that the start offset skips, at the nearest break if one is
-- near
unfoldable pub start : Rounding → Text → ℕ
unfolding nearest_break char_after words_from
start r s =
    if r.has_offset
    then (let offset = char_after (r.skipped_words (length (words_from [] s))) 0 false 0 s in
        let hi = if leb (offset + 300) (length s) then offset + 300 else length s in
        or_else offset (nearest_break s (pos offset) (pos offset) (pos hi) offset_markers))
    else 0

abbrev join : List Text → Text
join [] = []
join (w ∷ []) = w
join (w ∷ v ∷ ws) = w ++ (32 ∷ join (v ∷ ws))

abbrev pub is_separator : ℕ → Bool
is_separator c = (c == 32) || (c == 10)

-- `s[i]`, none for an IndexError
abbrev pub char_at : Text → ℤ → Option ℕ
char_at s (pos i) = get_elem? s i
char_at s (negsuc i) = if ltb i (length s) then get_elem? s (length s - (i + 1)) else none

abbrev pub judge : Option ℕ → ℕ → Option ℕ → Option ℕ
judge none n rest = none
judge (some c) n rest = if is_separator c then some n else rest

-- `while end > cursor and …`: how far from the cursor the split stands, at most `n` characters; none
-- for an IndexError
unfoldable pub back_off : Text → ℤ → ℕ → Option ℕ
back_off s cursor zero = some zero
back_off s cursor (suc n) =
    let rest = back_off s cursor n in judge (char_at s (cursor +ℤ pos n)) (suc n) rest

module _ (r : Rounding) (target hard_limit : ℕ) where
  -- the prefix when a marker is near the start of the overlap, and when none is
  abbrev snapped_prefix : Text → Option ℕ → Text
  snapped_prefix prev (some snap) = strip (some (drop snap prev)) ++ (32 ∷ [])
  snapped_prefix prev none =
      let prev_words = words_from [] prev in
      join (drop (length prev_words - max 1 (r.overlap_words (length prev_words))) prev_words)
      ++ (32 ∷ [])

  -- the tail of the previous chunk
  unfoldable pub overlap_prefix : Text → Text
  unfolding nearest_break char_after words_from strip
  overlap_prefix prev =
      if r.has_overlap && not (is_empty prev)
      then (let target_start =
            char_after (r.fraction_words (length (words_from [] prev))) 0 false 0 prev in
          let slack = max 30 (r.tenth (length prev)) in
          let hi =
            if leb (target_start + slack) (length prev)
            then target_start + slack
            else length prev in
          snapped_prefix prev
            (nearest_break prev (pos target_start) (pos (target_start - slack)) (pos hi) markers))
      else []

  -- the split at the hard limit
  abbrev pub nonzero_split : ℤ → ℤ → Option ℕ → Option ℤ
  nonzero_split cursor hard none = none
  nonzero_split cursor hard (some zero) = some (cursor +ℤ hard)
  nonzero_split cursor hard (some (suc n)) = some (cursor +ℤ pos (suc n))

  unfoldable pub hard_split : Text → ℤ → ℤ → ℕ → Option ℤ
  unfolding back_off
  hard_split s cursor hard remaining =
      if ltb_int (min_int hard (pos remaining)) (pos 0)
      then some (cursor +ℤ min_int hard (pos remaining))
      else nonzero_split cursor hard (back_off s cursor (to_nat (min_int hard (pos remaining))))

  -- the chunk that ends at a position
  abbrev pub ends_at : Text → Text → ℤ → Option ℤ → Turn
  ends_at s prefix cursor none = fails
  ends_at s prefix cursor (some end) =
      go_on (strip (some (prefix ++ strip (some (slice s cursor end)))))
        (strip (some (slice s cursor end))) end

  abbrev pub break_at : Text → Text → ℤ → ℤ → ℕ → Option ℕ → Turn
  break_at s prefix cursor hard remaining (some p) = ends_at s prefix cursor (some (pos p))
  break_at s prefix cursor hard remaining none =
      ends_at s prefix cursor (hard_split s cursor hard remaining)

  abbrev pub effective : Text → ℕ
  effective prefix = max 10 (target - word_count prefix)

  -- a turn whose prefix and remaining text do not fit the limit
  unfoldable pub split_turn : Text → Text → ℤ → Text → Turn
  unfolding word_count nearest_break hard_split slice strip
  split_turn s prefix cursor remaining =
      let n = length remaining in
      let w = word_count remaining in
      let left = minus hard_limit (word_count prefix) in
      break_at s prefix cursor (r.hard_chars left n w) n (
        nearest_break s (cursor +ℤ pos (r.target_chars (effective prefix) n w))
          (cursor +ℤ pos (r.lo_chars (effective prefix) n w))
          (cursor +ℤ min_int (r.hi_chars (effective prefix) left n w) (pos n)) markers)

  -- a turn of the loop for a text, a position and the previous chunk
  unfoldable pub turn : Text → ℤ → Text → Turn
  unfolding overlap_prefix split_turn slice_from word_count strip
  turn s cursor prev =
      if ltb_int cursor (pos (length s))
      then (let prefix = overlap_prefix prev in
          let remaining = slice_from s cursor in
          if leb (word_count (prefix ++ remaining)) hard_limit
          then last_chunk (strip (some (prefix ++ remaining)))
          else split_turn s prefix cursor remaining)
      else stop

  abbrev pub add_chunk_of : Text → Option (Outcome (List Text)) → Option (Outcome (List Text))
  add_chunk_of chunk none = none
  add_chunk_of chunk (some (raised e)) = some (raised e)
  add_chunk_of [] (some (returned chunks)) = some (returned chunks)
  add_chunk_of (c ∷ chunk) (some (returned chunks)) = some (returned ((c ∷ chunk) ∷ chunks))

  abbrev pub follow :
      Turn → (ℤ → Text → Option (Outcome (List Text))) → Option (Outcome (List Text))
  follow stop rest = some (returned [])
  follow fails rest = some (raised (other (text "string index out of range")))
  follow (last_chunk chunk) rest = add_chunk_of chunk (some (returned []))
  follow (go_on chunk raw_chunk cursor) rest = add_chunk_of chunk (rest cursor raw_chunk)

  -- the loop, none if the fuel runs out
  unfoldable pub chunk_loop : ℕ → Text → ℤ → Text → Option (Outcome (List Text))
  unfolding turn
  chunk_loop zero s cursor prev = none
  chunk_loop (suc fuel) s cursor prev = follow (turn s cursor prev) (chunk_loop fuel s)

  -- `chunk_at_boundaries`, with fuel for one turn at each character
  unfoldable pub chunk_at_boundaries : Text → Option (Outcome (List Text))
  unfolding chunk_loop start
  chunk_at_boundaries s =
      chunk_loop (suc (length (normalise s))) (normalise s) (pos (start r (normalise s))) []

-- `SplitTextAtIndexStrategy.chunk`; `max_chars` is positive, or `range` raises
unfoldable pub pieces : ℕ → ℕ → Text → List Text
pieces zero max_chars s = []
pieces (suc fuel) max_chars [] = []
pieces (suc fuel) max_chars (c ∷ s) =
    take max_chars (c ∷ s) ∷ pieces fuel max_chars (drop max_chars (c ∷ s))

unfoldable pub split_at_index : ℕ → Text → List Text
unfolding pieces
split_at_index max_chars s =
    if leb (length s) max_chars then s ∷ [] else pieces (length s) max_chars s
