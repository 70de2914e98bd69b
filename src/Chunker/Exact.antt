-- ===== src/Chunker/Exact.antt =====
-- The formulas of `chunk_at_boundaries` in utils/chunk_strategies.py, in exact arithmetic: the start
-- offset, the tolerance and the overlap are whole percents, and the average word length is a quotient
-- of two numbers. `int` of a product is taken after the whole product. The tolerance is at most 100, the other two
-- are below it.
use event_driven_rag_pipelin.Prelude.{ℕ, ◌+◌, ◌-◌, ◌*◌, ◌/◌, max, ltb}
use event_driven_rag_pipelin.Chunker.Integers.{ℤ, pos, negsuc, minus, min_int}
use event_driven_rag_pipelin.Chunker.{Rounding}

-- int(n * chars / words), towards zero
abbrev pub scale : ℤ → ℕ → ℕ → ℤ
scale (pos n) chars words = pos (n * chars / words)
scale (negsuc n) chars words = minus 0 ((n + 1) * chars / words)

abbrev hundredfold : ℤ → ℤ
hundredfold (pos n) = pos (100 * n)
hundredfold (negsuc n) = negsuc (100 * n + 99)

unfoldable pub exact : (start_offset tolerance overlap : ℕ) → Rounding
exact start_offset tolerance overlap = record {
  has_offset = ltb 0 start_offset;
  skipped_words = λ n. n * start_offset / 100;
  has_overlap = ltb 0 overlap;
  fraction_words = λ n. n * (100 - overlap) / 100;
  overlap_words = λ n. n * overlap / 100;
  tenth = λ n. n * 10 / 100;
  target_chars = λ n chars words. n * chars / max words 1;
  lo_chars = λ n chars words. n * (100 - tolerance) * chars / (100 * max words 1);
  hi_chars = λ n left chars words.
      scale (min_int (pos (n * (100 + tolerance))) (hundredfold left)) chars (100 * max words 1);
  hard_chars = λ left chars words. scale left chars (max words 1);
}
