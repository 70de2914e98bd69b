-- ===== src/Chunks/Fits.antt =====
-- When `save_batch` of chunk_repository.py returns.
use event_driven_rag_pipelin.Prelude.{
  ℕ, ◌≡◌, refl, sym, ap, ◌∙◌, subst, inl, inr, ◌⊎◌, ◌&&◌, ◌==◌, ==_iff, Text, text_eq, text_eq_iff,
  is_empty, Bool, true, false, not, some, List, [], ◌∷◌, map, exists, keep, All, All-append, Dict,
  lookup, insert, if◌then◌else◌, Bool-cases,
}
use event_driven_rag_pipelin.Prelude.Action.{returned, >>=-returned}
use event_driven_rag_pipelin.TableNames.{lower}
use event_driven_rag_pipelin.Embed.{EmbeddingRow, chunk_row, query_row}
use event_driven_rag_pipelin.Chunks.{
  ChunkRow, Table, Db, change, change_in, changed, set_embedding, put_if, then_put, put_embeddings,
  update_embeddings, add_to, by_table, save_groups, save_batch,
}
use event_driven_rag_pipelin.Chunks.Inserts.{rows_at, lookup-insert_same, lookup-insert_other}
use event_driven_rag_pipelin.Chunks.Embeds.{missing, is_saved, save_batch-missing}

module _ {V : Type 0} (size : V → ℕ) where
  -- the table is there and has the dimension of the vectors
  abbrev pub FitsTable : Db V → Text → List (Text × V) → Type 0
  FitsTable db table params =
      (t : Table V) × (lookup (lower table) db ≡ some t) × All (λ p. size p.1 ≡ t.dim) params

  abbrev pub FitsRow : Db V → EmbeddingRow V → Type 0
  FitsRow db (query_row i m v) = Unit
  FitsRow db (chunk_row i m v table) = (is_empty table ≡ true) ⊎ FitsTable db table ((i, v) ∷ [])

  abbrev FitsGroups : Db V → Dict (List (Text × V)) → Type 0
  FitsGroups db groups = All (λ g. FitsTable db g.0 g.1) groups

  same_table : {s t : Table V} → some s ≡ some t → s ≡ t
  same_table e = cc

  add_to-FitsGroups :
      (db : Db V) (table : Text) (p : Text × V) (groups : Dict (List (Text × V)))
      → FitsTable db table (p ∷ [])
      → FitsGroups db groups
      → FitsGroups db (add_to size table p groups)
  unfolding add_to
  add_to-FitsGroups db table p [] f h = (f, tt)
  add_to-FitsGroups db table p ((name, ps) ∷ groups) (t, e, k) ((u, q, a), h) =
      elim (Bool-cases (text_eq name table)) [
        | inl x ↦
            rw x ((u, q, All-append _ ps (p ∷ []) a (k.0 ∙ ap (λ y. y.dim) (joined x), tt)), h)
        | inr x ↦ rw x ((u, q, a), add_to-FitsGroups db table p groups (t, e, k) h)
      ]
    where
      joined : text_eq name table ≡ true → t ≡ u
      joined x =
          same_table
            (sym e ∙ ap (λ n. lookup (lower n) db) (sym ((text_eq_iff name table).0 x)) ∙ q)

  by_table-FitsGroups :
      (db : Db V) (rows : List (EmbeddingRow V)) (groups : Dict (List (Text × V)))
      → All (FitsRow db) rows
      → FitsGroups db groups
      → FitsGroups db (by_table size rows groups)
  unfolding by_table
  by_table-FitsGroups db [] groups f h = h
  by_table-FitsGroups db (query_row i m v ∷ rows) groups f h =
      by_table-FitsGroups db rows groups f.1 h
  by_table-FitsGroups db (chunk_row i m v table ∷ rows) groups f h =
      by_table-FitsGroups db rows
        (if is_empty table then groups else add_to size table (i, v) groups) f.1
        (grouped (is_empty table) refl f.0)
    where
      grouped :
          (b : Bool)
          → is_empty table ≡ b
          → (is_empty table ≡ true) ⊎ FitsTable db table ((i, v) ∷ [])
          → FitsGroups db (if b then groups else add_to size table (i, v) groups)
      grouped true e x = h
      grouped false e (inl x) = let odd = sym x ∙ e in cc
      grouped false e (inr x) = add_to-FitsGroups db table (i, v) groups x h

  put_embeddings-returns :
      (dim : ℕ) (params : List (Text × V)) (rows : List (ChunkRow V))
      → All (λ p. size p.1 ≡ dim) params
      → (rows' : List (ChunkRow V)) × (put_embeddings size dim params rows ≡ returned rows')
  unfolding put_embeddings
  put_embeddings-returns dim [] rows h = (rows, refl)
  put_embeddings-returns dim ((i, v) ∷ params) rows h =
      let (rows', e) = put_embeddings-returns dim params (map (set_embedding size i v) rows) h.1 in
      (
        rows',
        ap (λ b. then_put size (put_if size b i v rows) (put_embeddings size dim params))
              (fits (exists (λ r. text_eq r.chunk.id i) rows))
            ∙ e,
      )
    where
      fits : (b : Bool) → b && not (size v == dim) ≡ false
      fits true = ap not ((==_iff (size v) dim).1 h.0)
      fits false = refl

  -- tables stay, and keep their dimensions
  abbrev KeepsDims : Db V → Db V → Type 0
  KeepsDims db db' =
      (k : Text) (t : Table V)
      → lookup k db ≡ some t
      → (u : Table V) × (lookup k db' ≡ some u) × (u.dim ≡ t.dim)

  KeepsDims-insert :
      (db : Db V) (name : Text) (t : Table V) (rows : List (ChunkRow V))
      → lookup name db ≡ some t
      → KeepsDims db (insert name (record t { rows = rows }) db)
  KeepsDims-insert db name t rows e k s h = elim (Bool-cases (text_eq name k)) [
    | inl x ↦
        let same = (text_eq_iff name k).0 x in
        (
          record t { rows = rows },
          ap (λ j. lookup j (insert name (record t { rows = rows }) db)) (sym same)
              ∙ lookup-insert_same name (record t { rows = rows }) db,
          ap (λ y. y.dim) (same_table (sym e ∙ ap (λ j. lookup j db) same ∙ h)),
        )
    | inr x ↦ (s, lookup-insert_other name k (record t { rows = rows }) db x ∙ h, refl)
  ]

  update_embeddings-returns :
      (table : Text) (params : List (Text × V)) (db : Db V)
      → FitsTable db table params
      → ((update_embeddings size params table db).0 ≡ returned tt)
        × KeepsDims db (update_embeddings size params table db).1
  unfolding update_embeddings change
  update_embeddings-returns table [] db f = (refl, λ k t e. (t, e, refl))
  update_embeddings-returns table (p ∷ params) db (t, e, a) =
      let (rows, q) = put_embeddings-returns t.dim (p ∷ params) t.rows a in
      let end =
        ap (λ o. change_in (lower table) (λ x. put_embeddings size x.dim (p ∷ params) x.rows) o db)
          e
        ∙ ap (λ o. changed (lower table) t o db) q in
      (
        ap (λ o. o.0) end,
        subst (λ o. KeepsDims db o.1) (sym end) (KeepsDims-insert db (lower table) t rows e),
      )

  FitsGroups-KeepsDims :
      (db db' : Db V) (groups : Dict (List (Text × V)))
      → KeepsDims db db'
      → FitsGroups db groups
      → FitsGroups db' groups
  FitsGroups-KeepsDims db db' [] k h = tt
  FitsGroups-KeepsDims db db' ((table, ps) ∷ groups) k ((t, e, a), h) =
      let (u, q, d) = k (lower table) t e in
      (
        (u, q, subst (λ n. All (λ p. size p.1 ≡ n) ps) (sym d) a),
        FitsGroups-KeepsDims db db' groups k h,
      )

  save_groups-returns :
      (groups : Dict (List (Text × V))) (db : Db V)
      → FitsGroups db groups
      → (save_groups size groups db).0 ≡ returned tt
  unfolding save_groups
  save_groups-returns [] db h = refl
  save_groups-returns ((table, params) ∷ groups) db (f, h) =
      let (e, k) = update_embeddings-returns table params db f in
      ap (λ o. o.0)
        (>>=-returned (update_embeddings size params table) (λ y. save_groups size groups) db e)
      ∙ save_groups-returns groups (update_embeddings size params table db).1
          (FitsGroups-KeepsDims db _ groups k h)

  -- If each row of a batch that names a table names one that is there and has the dimension of the
  -- vector, then `save_batch` returns, and the chunks of each table that still want a vector are those
  -- that did before and for which no row of the batch names the table and the chunk, in the same order.
  -- Table names are compared in lower case, and a row with an empty table name saves nothing.
  pub save_batch_fitting :
      (rows : List (EmbeddingRow V)) (db : Db V) (name : Text)
      → All (FitsRow db) rows
      → ((save_batch size rows db).0 ≡ returned tt)
        × (missing size (rows_at name (save_batch size rows db).1)
            ≡ keep (λ c. not (is_saved size name c.id rows)) (missing size (rows_at name db)))
  unfolding save_batch
  save_batch_fitting rows db name f =
      let returns =
        save_groups-returns (by_table size rows []) db (by_table-FitsGroups db rows [] f tt) in
      (returns, save_batch-missing size rows db tt name returns)
