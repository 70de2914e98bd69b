-- ===== src/EventBus/Rows.antt =====
-- Rows in ascending order of their ids, and the offsets of event_bus.py's consumers.
use event_driven_rag_pipelin.Prelude.{
  ℕ, zero, suc, ◌≤◌, ◌<◌, ◌≡◌, refl, ◌≢◌, Text, text_eq_refl, Bool, true, false, some, List, [],
  ◌∷◌, ◌++◌, arith, if◌then◌else◌, keep, take, All, All-keep,
}
use event_driven_rag_pipelin.EventBus.{
  Row, Offset, insert_row, without, with_id, same_key, ensure_offset, set_offset,
}

-- Strictly ascending ids, so no id twice.
abbrev pub IsAscending : List Row → Type 0
IsAscending [] = Unit
IsAscending (r ∷ l) = All (λ x. r.id < x.id) l × IsAscending l

abbrev pub Above : ℕ → List Row → Type 0
Above n l = All (λ r. n < r.id) l

abbrev pub Below : ℕ → List Row → Type 0
Below n l = All (λ r. r.id < n) l

pub Above-mono : (m n : ℕ) (l : List Row) → m ≤ n → Above n l → Above m l
Above-mono m n [] h a = tt
Above-mono m n (r ∷ l) h a = (omega arith, Above-mono m n l h a.1)

pub Below-mono : (m n : ℕ) (l : List Row) → m ≤ n → Below m l → Below n l
Below-mono m n [] h a = tt
Below-mono m n (r ∷ l) h a = (omega arith, Below-mono m n l h a.1)

pub keep-IsAscending : (p : Row → Bool) (l : List Row) → IsAscending l → IsAscending (keep p l)
keep-IsAscending p [] h = tt
keep-IsAscending p (r ∷ l) h =
    ground (arith, keep-IsAscending p l h.1, All-keep (λ (x : Row). r.id < x.id) p l h.0)

pub take-Above : (n k : ℕ) (l : List Row) → Above n l → Above n (take k l)
take-Above n zero l h = tt
take-Above n (suc k) [] h = tt
take-Above n (suc k) (r ∷ l) h = (h.0, take-Above n k l h.1)

pub take-IsAscending : (k : ℕ) (l : List Row) → IsAscending l → IsAscending (take k l)
take-IsAscending zero l h = tt
take-IsAscending (suc k) [] h = tt
take-IsAscending (suc k) (r ∷ l) h = (take-Above r.id k l h.0, take-IsAscending k l h.1)

-- a row above all goes to the end
pub IsAscending-snoc :
    (l : List Row) (r : Row) → IsAscending l → Below r.id l → IsAscending (l ++ (r ∷ []))
IsAscending-snoc [] r h b = (tt, tt)
IsAscending-snoc (x ∷ l) r h b = (above l h.0, IsAscending-snoc l r h.1 b.1)
  where
    above : (l : List Row) → Above x.id l → Above x.id (l ++ (r ∷ []))
    above [] a = (b.0, tt)
    above (y ∷ l) a = (a.0, above l a.1)

pub Below-snoc : (n : ℕ) (l : List Row) (r : Row) → Below n l → r.id < n → Below n (l ++ (r ∷ []))
Below-snoc n [] r b h = (h, tt)
Below-snoc n (x ∷ l) r b h = (b.0, Below-snoc n l r b.1 h)

-- No row of the list has the id `i`.
abbrev pub Lacks : ℕ → List Row → Type 0
Lacks i l = All (λ r. r.id ≢ i) l

pub Lacks-snoc : (i : ℕ) (l : List Row) (r : Row) → Lacks i l → r.id ≢ i → Lacks i (l ++ (r ∷ []))
Lacks-snoc i [] r b h = (h, tt)
Lacks-snoc i (x ∷ l) r b h = (b.0, Lacks-snoc i l r b.1 h)

Above-insert_row :
    (n : ℕ) (r : Row) (l : List Row) → n < r.id → Above n l → Above n (insert_row r l)
unfolding insert_row
Above-insert_row n r [] h a = (h, tt)
Above-insert_row n r (x ∷ l) h a = ground (arith, Above-insert_row n r l h a.1)

pub insert_row-IsAscending :
    (r : Row) (l : List Row) → IsAscending l → Lacks r.id l → IsAscending (insert_row r l)
unfolding insert_row
insert_row-IsAscending r [] h d = (tt, tt)
insert_row-IsAscending r (x ∷ l) h d =
    ground
      (arith, insert_row-IsAscending r l h.1 d.1, Above-insert_row x.id r l, Above-mono r.id x.id l)

pub Below-insert_row :
    (n : ℕ) (r : Row) (l : List Row) → r.id < n → Below n l → Below n (insert_row r l)
unfolding insert_row
Below-insert_row n r [] h a = (h, tt)
Below-insert_row n r (x ∷ l) h a = ground (arith, Below-insert_row n r l h a.1)

pub Lacks-insert_row :
    (i : ℕ) (r : Row) (l : List Row) → r.id ≢ i → Lacks i l → Lacks i (insert_row r l)
unfolding insert_row
Lacks-insert_row i r [] h a = (h, tt)
Lacks-insert_row i r (x ∷ l) h a = ground (arith, Lacks-insert_row i r l h a.1)

pub insert_row_last : (r : Row) (l : List Row) → Below r.id l → insert_row r l ≡ l ++ (r ∷ [])
unfolding insert_row
insert_row_last r [] b = refl
insert_row_last r (x ∷ l) b = ground (arith, insert_row_last r l b.1)

pub Below-without : (n i : ℕ) (l : List Row) → Below n l → Below n (without i l)
Below-without n i [] h = tt
Below-without n i (r ∷ l) h = ground (arith, Below-without n i l h.1)

-- A row of `pending` that is not yet in the log.
abbrev pub IsFresh : List Row → List Row → Type 0
IsFresh log l = All (λ r. Lacks r.id log) l

pub IsFresh-without :
    (r : Row) (log l : List Row) → IsFresh log l → IsFresh (insert_row r log) (without r.id l)
IsFresh-without r log [] h = tt
IsFresh-without r log (x ∷ l) h =
    grind (arith, IsFresh-without r log l h.1, Lacks-insert_row x.id r log)

pub with_id_lem :
    (i : ℕ) (l log : List Row) {r : Row} (n : ℕ)
    → Below n l
    → IsFresh log l
    → with_id i l ≡ some r
    → (r.id < n) × Lacks r.id log
with_id_lem i [] log n b f e = cc
with_id_lem i (x ∷ l) log {r} n b f e = ground (arith, with_id_lem i l log {r = r} n b.1 f.1)

-- The position of the consumer: the value in its offset row, 0 before there is one.
abbrev pub offset_of : Text → Text → List Offset → ℕ
offset_of group topic [] = 0
offset_of group topic (o ∷ l) =
    if same_key group topic o then o.last_id else offset_of group topic l

abbrev pub has_offset : Text → Text → List Offset → Bool
has_offset group topic [] = false
has_offset group topic (o ∷ l) = if same_key group topic o then true else has_offset group topic l

module _ (group topic : Text) where
  same_key_refl : same_key group topic (record { group = group; topic = topic; last_id = 0 }) ≡ true
  same_key_refl = rw (text_eq_refl group, text_eq_refl topic)

  pub ensure_offset-eq-offset_of :
      (l : List Offset) → (ensure_offset group topic l).0 ≡ offset_of group topic l
  unfolding ensure_offset
  ensure_offset-eq-offset_of [] = refl
  ensure_offset-eq-offset_of (o ∷ l) = ground (arith, ensure_offset-eq-offset_of l)

  pub offset_of-ensure_offset :
      (l : List Offset)
      → offset_of group topic (ensure_offset group topic l).1 ≡ offset_of group topic l
  unfolding ensure_offset
  offset_of-ensure_offset [] = rw same_key_refl
  offset_of-ensure_offset (o ∷ l) = ground (arith, offset_of-ensure_offset l)

  pub has_offset-ensure_offset :
      (l : List Offset) → has_offset group topic (ensure_offset group topic l).1 ≡ true
  unfolding ensure_offset
  has_offset-ensure_offset [] = rw same_key_refl
  has_offset-ensure_offset (o ∷ l) = ground (arith, has_offset-ensure_offset l)

  pub offset_of-set_offset :
      (n : ℕ) (l : List Offset)
      → has_offset group topic l ≡ true
      → offset_of group topic (set_offset n group topic l) ≡ n
  unfolding set_offset
  offset_of-set_offset n [] h = cc
  offset_of-set_offset n (o ∷ l) h = ground (arith, offset_of-set_offset n l)

  pub has_offset-set_offset :
      (n : ℕ) (l : List Offset)
      → has_offset group topic (set_offset n group topic l) ≡ has_offset group topic l
  unfolding set_offset
  has_offset-set_offset n [] = refl
  has_offset-set_offset n (o ∷ l) = ground (arith, has_offset-set_offset n l)
