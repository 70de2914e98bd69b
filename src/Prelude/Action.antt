-- ===== src/Prelude/Action.antt =====
-- Calls that may raise, over a world that keeps what was done before the exception.
use mathlib.Core.Path.{◌≡◌, refl, ap}
use mathlib.Core.Logic.{◌⊎◌, inl, inr}
use event_driven_rag_pipelin.Prelude.Texts.{Text}

-- src/event_driven_rag_service/exceptions.py; any other exception is known by `str(exc)`
pub data Exception : Type 0 where
  chunk_table_not_found embedding_unavailable other : Text → Exception

-- `str(exc)`
abbrev pub message : Exception → Text
message (chunk_table_not_found m) = m
message (embedding_unavailable m) = m
message (other m) = m

pub data Outcome (A : Type 0) : Type 0 where
  returned : A → Outcome A
  raised : Exception → Outcome A

abbrev pub Action : Type 0 → Type 0 → Type 0
Action W A = W → Outcome A × W

module _ {W A : Type 0} where
  abbrev pub pure : A → Action W A
  pure a w = (returned a, w)

  abbrev pub raise : Exception → Action W A
  raise e w = (raised e, w)

  abbrev pub lift : Outcome A → Action W A
  lift r w = (r, w)

abbrev pub modify : {W : Type 0} → (W → W) → Action W (Unit {0})
modify f w = (returned tt, f w)

-- `try: r = m  except e: handler`
abbrev pub rescue : {W A : Type 0} → Outcome A → (Exception → Action W A) → Action W A
rescue (returned a) handler w = (returned a, w)
rescue (raised e) handler w = handler e w

module _ {W A B : Type 0} where
  abbrev pub continue : Outcome A → (A → Action W B) → Action W B
  continue (returned a) f w = f a w
  continue (raised e) f w = (raised e, w)

infixl 5 ◌>>=◌ ◌>>◌
abbrev pub ◌>>=◌ : {W A B : Type 0} → Action W A → (A → Action W B) → Action W B
◌>>=◌ m f w = continue (m w).0 f (m w).1

abbrev pub ◌>>◌ : {W A B : Type 0} → Action W A → Action W B → Action W B
m >> n = m >>= λ _. n

-- `try: m  except Exception as e: handler(e)`
abbrev pub attempt : {W A : Type 0} → Action W A → (Exception → Action W A) → Action W A
attempt m handler w = rescue (m w).0 handler (m w).1

-- A block that returns has returned from its first call, and the rest from there.
pub >>=-eq-returned :
    {W A B : Type 0} (m : Action W A) (f : A → Action W B) (w : W) {b : B}
    → ((m >>= f) w).0 ≡ returned b
    → (a : A) × ((m w).0 ≡ returned a) × ((f a (m w).1).0 ≡ returned b)
>>=-eq-returned {W} {A} {B} m f w {b} h = of_outcome (m w).0 (m w).1 h
  where
    of_outcome :
        (r : Outcome A) (w' : W)
        → (continue r f w').0 ≡ returned b
        → (a : A) × (r ≡ returned a) × ((f a w').0 ≡ returned b)
    of_outcome (returned a) w' h = (a, refl, h)
    of_outcome (raised e) w' h = cc

-- What a block whose first call returned `a` computes to.
pub >>=-returned :
    {W A B : Type 0} (m : Action W A) (f : A → Action W B) (w : W) {a : A}
    → (m w).0 ≡ returned a
    → (m >>= f) w ≡ f a (m w).1
>>=-returned m f w e = ap (λ r. continue r f (m w).1) e

-- A block whose first call raises stops there.
pub >>=-raised :
    {W A B : Type 0} (m : Action W A) (f : A → Action W B) (w : W) {e : Exception}
    → (m w).0 ≡ raised e
    → (m >>= f) w ≡ (raised e, (m w).1)
>>=-raised m f w e = ap (λ r. continue r f (m w).1) e

pub Outcome-cases :
    {A : Type 0} (r : Outcome A) → ((a : A) × (r ≡ returned a)) ⊎ ((e : Exception) × (r ≡ raised e))
Outcome-cases (returned a) = inl (a, refl)
Outcome-cases (raised e) = inr (e, refl)
