-- ===== src/Chunker/Ends.antt =====
-- The loop of `chunk_at_boundaries` ends, with the code's formulas for the sizes of a chunk.
use native.Mathlib.Nat.{le-div_iff_mul-le, mul-le-mul}
use event_driven_rag_pipelin.Prelude.{
  ℕ, zero, suc, ◌-◌, ◌*◌, ◌/◌, ◌≤◌, ◌<◌, ◌≡◌, refl, max, Text, some, List, arith,
}
use event_driven_rag_pipelin.Prelude.Action.{returned}
use event_driven_rag_pipelin.Chunker.Integers.{pos}
use event_driven_rag_pipelin.Chunker.{normalise, chunk_at_boundaries}
use event_driven_rag_pipelin.Chunker.Exact.{exact}
use event_driven_rag_pipelin.Chunker.Progress.{IsRounding, Short, chunk_at_boundaries-ends}

-- a quotient by what fits into the dividend is positive
div-positive : (a b : ℕ) → 1 ≤ b → b ≤ a → 1 ≤ a / b
div-positive a b h k = (le-div_iff_mul-le {k = b} {x = 1} {y = a} h).1 (omega (arith, k))

positive-suc : (n : ℕ) → 1 ≤ n → (k : ℕ) × (pos n ≡ pos (suc k))
positive-suc zero h = absurd (omega (arith, h))
positive-suc (suc n) h = (n, refl)

words_fit : (chars words : ℕ) → 1 ≤ chars → words ≤ chars → max words 1 ≤ chars
words_fit chars words h k = omega (arith, h, k)

lo_fits :
    (n t chars words : ℕ)
    → 10 ≤ n
    → t ≤ 80
    → max words 1 ≤ chars
    → 100 * max words 1 ≤ n * (100 - t) * chars
lo_fits n t chars words h k l =
    mul-le-mul {n₁ = 100} {n₂ = n * (100 - t)}
      (mul-le-mul {n₁ = 10} {m₁ = 10} {n₂ = n} {m₂ = 100 - t} h (omega (arith, k))) l

hard_fits : (m chars words : ℕ) → max words 1 ≤ chars → max words 1 ≤ suc m * chars
hard_fits m chars words h =
    omega (arith, mul-le-mul {n₁ = 1} {m₁ = max words 1} {n₂ = suc m} {m₂ = chars} (omega arith) h)

exact-IsRounding :
    (start_offset tolerance overlap : ℕ)
    → tolerance ≤ 80
    → IsRounding (exact start_offset tolerance overlap)
unfolding exact
exact-IsRounding start_offset tolerance overlap k = record {
  lo_positive = λ n chars words h c w.
      div-positive (n * (100 - tolerance) * chars) (100 * max words 1) (omega arith)
        (lo_fits n tolerance chars words h k (words_fit chars words c w));
  hard_positive = λ m chars words c w. positive-suc (suc m * chars / max words 1) (
      div-positive (suc m * chars) (max words 1) (omega arith)
        (hard_fits m chars words (words_fit chars words c w)));
}

-- In exact arithmetic, with a tolerance of at most 0.8 and a start offset and an overlap below one: if
-- at no position that the loop comes to the overlap prefix has as many words as the hard limit, then the
-- chunker ends with chunks, and not with an IndexError; one turn for each character and one more are
-- enough.
pub chunk_at_boundaries-exact-ends :
    (start_offset tolerance overlap target hard_limit : ℕ) (s : Text)
    → start_offset < 100
    → tolerance ≤ 80
    → overlap < 100
    → Short (exact start_offset tolerance overlap) target hard_limit (normalise s)
    → (chunks : List Text) × (chunk_at_boundaries
          (exact start_offset tolerance overlap)
          target
          hard_limit
          s
        ≡ some (returned chunks))
chunk_at_boundaries-exact-ends start_offset tolerance overlap target hard_limit s o k v short =
    chunk_at_boundaries-ends (exact start_offset tolerance overlap) target hard_limit s
      (exact-IsRounding start_offset tolerance overlap k) short
