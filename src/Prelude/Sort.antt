-- ===== src/Prelude/Sort.antt =====
-- Python's stable `sorted(..., reverse=True)` over keys of an abstract order, and what it keeps.
use mathlib.Core.Path.{◌≡◌, refl}
use Prim.Native.Nat.{◌+◌}
use native.Mathlib.Omega.{arith}
use mathlib.Core.Bool.{Bool, true, false}
use mathlib.Core.List.{List, [], ◌∷◌, Perm}
use mathlib.Core.List.Perm
use mathlib.Core.Logic.{inl, inr}
use event_driven_rag_pipelin.Prelude.Tests.{if◌then◌else◌, Bool-cases}
use event_driven_rag_pipelin.Prelude.Lists.{All, All-mono, length}

-- Scores that can be compared: `le a b` is Python's `a <= b` on floats that are not NaN.
pub record Order : Type 1 where
  pub Score : Type 0
  pub le : Score → Score → Bool
  pub total : (a b : Score) → le a b ≡ false → le b a ≡ true
  pub trans : (a b c : Score) → le a b ≡ true → le b c ≡ true → le a c ≡ true

module _ (o : Order) {A : Type 0} (key : A → o.Score) where
  -- before the first element that is not above it; equal elements keep their order
  unfoldable pub place : A → List A → List A
  place x [] = x ∷ []
  place x (y ∷ ys) = if o.le (key y) (key x) then x ∷ y ∷ ys else y ∷ place x ys

  unfoldable pub sort_descending : List A → List A
  unfolding place
  sort_descending [] = []
  sort_descending (x ∷ xs) = place x (sort_descending xs)

  abbrev pub IsDescending : List A → Type 0
  IsDescending [] = Unit
  IsDescending (x ∷ xs) = All (λ y. o.le (key y) (key x) ≡ true) xs × IsDescending xs

  pub place-perm : (x : A) (l : List A) → Perm (place x l) (x ∷ l)
  unfolding place
  place-perm x [] = Perm.refl (x ∷ [])
  place-perm x (y ∷ ys) = elim (Bool-cases (o.le (key y) (key x))) [
    | inl e ↦ rw e (Perm.refl (x ∷ y ∷ ys))
    | inr e ↦ rw e (Perm.trans (Perm.cons y (place-perm x ys)) (Perm.swap x y ys))
  ]

  -- Sorting loses and invents nothing.
  pub sort_descending-perm : (l : List A) → Perm (sort_descending l) l
  unfolding sort_descending
  sort_descending-perm [] = Perm.refl []
  sort_descending-perm (x ∷ xs) =
      Perm.trans (place-perm x (sort_descending xs)) (Perm.cons x (sort_descending-perm xs))

  place-length : (x : A) (l : List A) → length (place x l) ≡ length l + 1
  unfolding place
  place-length x [] = refl
  place-length x (y ∷ ys) = elim (Bool-cases (o.le (key y) (key x))) [
    | inl e ↦ rw e (omega arith)
    | inr e ↦ let rest = place-length x ys in rw e (omega (arith, rest))
  ]

  pub sort_descending-length : (l : List A) → length (sort_descending l) ≡ length l
  unfolding sort_descending
  sort_descending-length [] = refl
  sort_descending-length (x ∷ xs) =
      omega (arith, place-length x (sort_descending xs), sort_descending-length xs)

  pub All-place : (P : A → Type 0) (x : A) (l : List A) → P x → All P l → All P (place x l)
  unfolding place
  All-place P x [] p h = (p, tt)
  All-place P x (y ∷ ys) p h = elim (Bool-cases (o.le (key y) (key x))) [
    | inl e ↦ rw e (p, h)
    | inr e ↦ rw e (h.0, All-place P x ys p h.1)
  ]

  pub All-sort_descending : (P : A → Type 0) (l : List A) → All P l → All P (sort_descending l)
  unfolding sort_descending
  All-sort_descending P [] h = tt
  All-sort_descending P (x ∷ xs) h =
      All-place P x (sort_descending xs) h.0 (All-sort_descending P xs h.1)

  place-IsDescending : (x : A) (l : List A) → IsDescending l → IsDescending (place x l)
  unfolding place
  place-IsDescending x [] h = (tt, tt)
  place-IsDescending x (y ∷ ys) h = elim (Bool-cases (o.le (key y) (key x))) [
    | inl e ↦ rw e (
      (
        e,
        All-mono (λ z. o.le (key z) (key y) ≡ true) (λ z. o.le (key z) (key x) ≡ true) ys
            (λ z p. o.trans (key z) (key y) (key x) p e) h.0,
      ),
      h,
    )
    | inr e ↦ rw e (
      All-place (λ z. o.le (key z) (key y) ≡ true) x ys (o.total (key y) (key x) e) h.0,
      place-IsDescending x ys h.1,
    )
  ]

  pub sort_descending-IsDescending : (l : List A) → IsDescending (sort_descending l)
  unfolding sort_descending
  sort_descending-IsDescending [] = tt
  sort_descending-IsDescending (x ∷ xs) =
      place-IsDescending x (sort_descending xs) (sort_descending-IsDescending xs)
