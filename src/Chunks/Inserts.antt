-- ===== src/Chunks/Inserts.antt =====
-- What the statements of chunk_repository.py leave in a table.
use event_driven_rag_pipelin.Prelude.{
  ℕ, suc, ◌+◌, ◌≡◌, ◌≢◌, refl, sym, ap, ◌∙◌, inl, inr, ◌||◌, Text, text_eq, text_eq_refl,
  text_eq_ne, is_empty, Bool, true, false, Option, none, some, is_some, List, [], ◌∷◌, ◌++◌,
  append-nil, append_assoc, map, exists, All, All-append, Dict, lookup, insert, lookup-insert,
  if◌then◌else◌, Bool-cases, arith,
}
use event_driven_rag_pipelin.TableNames.{lower}
use event_driven_rag_pipelin.Chunks.{
  Chunk, ChunkRow, Table, Db, ensure_table, created, insert_all, unembedded, hashes_from,
}

module _ {V : Type 0} where
  -- the rows of a table; none if there is no such table
  abbrev pub rows_of : Option (Table V) → List (ChunkRow V)
  rows_of none = []
  rows_of (some t) = t.rows

  abbrev pub rows_at : Text → Db V → List (ChunkRow V)
  rows_at name db = rows_of (lookup (lower name) db)

  pub ensure_table_lem :
      (name : Text) (dim : ℕ) (db : Db V)
      → (t : Table V) × (lookup (lower name) (ensure_table name dim db) ≡ some t)
        × (t.rows ≡ rows_at name db)
        × ((j : Text)
            → text_eq (lower name) j ≡ false
            → lookup j (ensure_table name dim db) ≡ lookup j db)
  unfolding ensure_table
  ensure_table_lem name dim db = by_lookup (lookup (lower name) db) refl
    where
      by_lookup :
          (o : Option (Table V))
          → lookup (lower name) db ≡ o
          → (t : Table V) × (lookup (lower name) (created (lower name) dim o db) ≡ some t)
            × (t.rows ≡ rows_of o)
            × ((j : Text)
                → text_eq (lower name) j ≡ false
                → lookup j (created (lower name) dim o db) ≡ lookup j db)
      by_lookup none h = (
        record { dim = dim; rows = [] },
        lookup-insert (lower name) (lower name) _ db
            ∙ ap (λ b. if b then some (record { dim = dim; rows = [] }) else lookup (lower name) db)
                (text_eq_refl (lower name)),
        refl,
        λ j e.
            lookup-insert (lower name) j _ db
            ∙ ap (λ b. if b then some (record { dim = dim; rows = [] }) else lookup j db) e,
      )
      by_lookup (some t) h = (t, h, refl, λ j e. refl)

  pub lookup-insert_same : (k : Text) (t : Table V) (db : Db V) → lookup k (insert k t db) ≡ some t
  lookup-insert_same k t db =
      lookup-insert k k t db ∙ ap (λ b. if b then some t else lookup k db) (text_eq_refl k)

  pub lookup-insert_other :
      (k j : Text) (t : Table V) (db : Db V)
      → text_eq k j ≡ false
      → lookup j (insert k t db) ≡ lookup j db
  lookup-insert_other k j t db e =
      lookup-insert k j t db ∙ ap (λ b. if b then some t else lookup j db) e

  abbrev pub has_id : Text → List (ChunkRow V) → Bool
  has_id i rows = exists (λ r. text_eq r.chunk.id i) rows

  -- no row has one of the UUIDs that are still to be drawn
  abbrev pub IsFresh : (ℕ → Text) → ℕ → List (ChunkRow V) → Type 0
  IsFresh uuid n rows = All (λ (r : ChunkRow V). (k : ℕ) → r.chunk.id ≢ uuid (n + k)) rows

  has_id_fresh :
      (uuid : ℕ → Text) (n k : ℕ) (rows : List (ChunkRow V))
      → IsFresh uuid n rows
      → has_id (uuid (n + k)) rows ≡ false
  has_id_fresh uuid n k [] h = refl
  has_id_fresh uuid n k (r ∷ rows) h =
      let apart = text_eq_ne r.chunk.id (uuid (n + k)) (h.0 k) in
      let rest = has_id_fresh uuid n k rows h.1 in ground arith

  -- the known hashes: those of the rows, and those that were there
  abbrev pub has_hash : Text → List (ChunkRow V) → Bool
  has_hash h rows =
      exists (λ r. if is_empty r.chunk.text_hash then false else text_eq r.chunk.text_hash h) rows

  pub hashes_from-known :
      (h : Text) (rows : List (ChunkRow V)) (d : Dict Text)
      → is_some (lookup h (hashes_from rows d)) ≡ has_hash h rows || is_some (lookup h d)
  unfolding hashes_from
  hashes_from-known h [] d = refl
  hashes_from-known h (r ∷ rows) d = elim (Bool-cases (is_empty r.chunk.text_hash)) [
    | inl e ↦ rw e (hashes_from-known h rows d)
    | inr e ↦
        let rest = hashes_from-known h rows (insert r.chunk.text_hash r.chunk.id d) in
        let inserted = ap (is_some) (lookup-insert r.chunk.text_hash h r.chunk.id d) in
        rw e (
          rest
          ∙ ap (λ b. has_hash h rows || b) inserted
          ∙ known (text_eq r.chunk.text_hash h) (has_hash h rows))
  ]
    where
      known :
          (b c : Bool)
          → c || is_some (if b then some r.chunk.id else lookup h d)
            ≡ (b || c) || is_some (lookup h d)
      known true true = refl
      known true false = refl
      known false true = refl
      known false false = refl

-- chunks whose ids are drawn one after the other, from a place on
abbrev pub IsDrawn : (ℕ → Text) → ℕ → List Chunk → Type 0
IsDrawn uuid n [] = Unit
IsDrawn uuid n (c ∷ chunks) = (k : ℕ) × (c.id ≡ uuid (n + k)) × IsDrawn uuid (n + suc k) chunks

module _ {V : Type 0} (uuid : ℕ → Text) (injective : (i j : ℕ) → uuid i ≡ uuid j → i ≡ j) where
  IsFresh-later :
      (n k : ℕ) (rows : List (ChunkRow V)) → IsFresh uuid n rows → IsFresh uuid (n + k) rows
  IsFresh-later n k [] h = tt
  IsFresh-later n k (r ∷ rows) h =
      (λ j e. h.0 (k + j) (e ∙ ap uuid (omega arith)), IsFresh-later n k rows h.1)

  -- New ids are appended, one row without a vector for each chunk.
  pub insert_all-IsDrawn :
      (n : ℕ) (chunks : List Chunk) (rows : List (ChunkRow V))
      → IsDrawn uuid n chunks
      → IsFresh uuid n rows
      → insert_all chunks rows ≡ rows ++ map unembedded chunks
  unfolding insert_all
  insert_all-IsDrawn n [] rows h f = sym (append-nil rows)
  insert_all-IsDrawn n (c ∷ chunks) rows (k, e, h) f =
      let absent : has_id c.id rows ≡ false =
        ap (λ i. has_id i rows) e ∙ has_id_fresh uuid n k rows f in
      let later : IsFresh uuid (n + suc k) (rows ++ (unembedded c ∷ [])) =
        All-append _ rows _ (IsFresh-later n (suc k) rows f)
          (λ j p. apart j (injective _ _ (sym e ∙ p)), tt) in
      ap (λ b. insert_all chunks (if b then rows else rows ++ (unembedded c ∷ []))) absent
      ∙ insert_all-IsDrawn (n + suc k) chunks (rows ++ (unembedded c ∷ [])) h later
      ∙ append_assoc rows (unembedded c ∷ []) (map unembedded chunks)
    where
      apart : (j : ℕ) → n + k ≢ (n + suc k) + j
      apart j p = omega (arith, p)
