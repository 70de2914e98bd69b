-- ===== src/Chunks/Embeds.antt =====
-- What `save_batch` of chunk_repository.py leaves to be embedded.
use event_driven_rag_pipelin.Prelude.{
  ℕ, ◌≡◌, refl, sym, ap, ◌∙◌, inl, inr, ◌⊎◌, ◌||◌, ◌&&◌, ◌==◌, Text, text_eq, text_eq_iff, is_empty,
  Bool, true, false, not, Option, none, some, List, [], ◌∷◌, ◌++◌, map, keep, exists, Dict, lookup,
  insert, Bool-cases, arith,
}
use event_driven_rag_pipelin.Prelude.Action.{
  Outcome, returned, raised, >>=-eq-returned, >>=-returned,
}
use event_driven_rag_pipelin.TableNames.{lower}
use event_driven_rag_pipelin.Embed.{EmbeddingRow, chunk_row, query_row}
use event_driven_rag_pipelin.Chunks.{
  Chunk, ChunkRow, Table, Db, change, change_in, changed, set_embedding, put_if, then_put,
  put_embeddings, update_embeddings, add_to, by_table, save_groups, save_batch, is_unembedded,
}
use event_driven_rag_pipelin.Chunks.Inserts.{
  rows_of, rows_at, lookup-insert_same, lookup-insert_other,
}

-- the parameters of an UPDATE have an id
abbrev pub in_params : {V : Type 0} → Text → List (Text × V) → Bool
in_params i params = exists (λ p. text_eq i p.0) params

module _ {V : Type 0} (size : V → ℕ) where
  -- the chunks that still want a vector
  abbrev pub missing : List (ChunkRow V) → List Chunk
  missing rows = map (λ r. r.chunk) (keep is_unembedded rows)

  missing-set_embedding :
      (i : Text) (v : V) (rows : List (ChunkRow V))
      → missing (map (set_embedding size i v) rows)
        ≡ keep (λ c. not (text_eq c.id i)) (missing rows)
  missing-set_embedding i v [] = refl
  missing-set_embedding i v (r ∷ rows) =
      by_embedding r.embedding refl (Bool-cases (text_eq r.chunk.id i))
        (missing-set_embedding i v rows)
    where
      by_embedding :
          (o : Option V)
          → r.embedding ≡ o
          → (text_eq r.chunk.id i ≡ true) ⊎ (text_eq r.chunk.id i ≡ false)
          → missing (map (set_embedding size i v) rows)
            ≡ keep (λ c. not (text_eq c.id i)) (missing rows)
          → missing (map (set_embedding size i v) (r ∷ rows))
            ≡ keep (λ c. not (text_eq c.id i)) (missing (r ∷ rows))
      by_embedding none e (inl t) ih = rw (e, t) ih
      by_embedding none e (inr f) ih = rw (e, f) (ap (λ l. r.chunk ∷ l) ih)
      by_embedding (some x) e (inl t) ih = rw (e, t) ih
      by_embedding (some x) e (inr f) ih = rw (e, f) ih

  keep-keep : (p q : Chunk → Bool) (l : List Chunk) → keep q (keep p l) ≡ keep (λ c. p c && q c) l
  keep-keep p q [] = refl
  keep-keep p q (c ∷ l) = ground (arith, keep-keep p q l)

  keep_same :
      (p q : Chunk → Bool) (l : List Chunk) → ((c : Chunk) → p c ≡ q c) → keep p l ≡ keep q l
  keep_same p q [] h = refl
  keep_same p q (c ∷ l) h = ground (arith, keep_same p q l h, h c)

  keep_all : (p : Chunk → Bool) (l : List Chunk) → ((c : Chunk) → p c ≡ true) → keep p l ≡ l
  keep_all p [] h = refl
  keep_all p (c ∷ l) h = ground (arith, keep_all p l h, h c)

  put_embeddings-missing :
      (dim : ℕ) (params : List (Text × V)) (rows rows' : List (ChunkRow V))
      → put_embeddings size dim params rows ≡ returned rows'
      → missing rows' ≡ keep (λ c. not (in_params c.id params)) (missing rows)
  unfolding put_embeddings
  put_embeddings-missing dim [] rows rows' h =
      ap missing (sym (unwrap h)) ∙ sym (keep_all _ (missing rows) (λ c. refl))
    where
      unwrap : {a b : List (ChunkRow V)} → returned a ≡ returned b → a ≡ b
      unwrap e = cc
  put_embeddings-missing dim ((i, v) ∷ params) rows rows' h =
      put (exists (λ r. text_eq r.chunk.id i) rows && not (size v == dim))
        (put_embeddings-missing dim params) h
    where
      both : (a b : Bool) → not a && not b ≡ not (a || b)
      both true b = refl
      both false b = refl

      put :
          (b : Bool)
          → ((l l' : List (ChunkRow V))
              → put_embeddings size dim params l ≡ returned l'
              → missing l' ≡ keep (λ c. not (in_params c.id params)) (missing l))
          → then_put size (put_if size b i v rows) (put_embeddings size dim params) ≡ returned rows'
          → missing rows' ≡ keep (λ c. not (in_params c.id ((i, v) ∷ params))) (missing rows)
      put true ih e = cc
      put false ih e =
          ih (map (set_embedding size i v) rows) rows' e
          ∙ ap (keep (λ c. not (in_params c.id params))) (missing-set_embedding i v rows)
          ∙ keep-keep _ _ (missing rows)
          ∙ keep_same _ _ (missing rows) (λ c. both (text_eq c.id i) (in_params c.id params))

  -- what an UPDATE leaves in each table
  update_embeddings-missing :
      (params : List (Text × V)) (table : Text) (db : Db V) (u : Unit {0}) (name : Text)
      → (update_embeddings size params table db).0 ≡ returned u
      → missing (rows_at name (update_embeddings size params table db).1)
        ≡ keep
            (λ c. not (text_eq (lower table) (lower name) && in_params c.id params))
            (missing (rows_at name db))
  unfolding update_embeddings change
  update_embeddings-missing [] table db u name h =
      sym
        (keep_all _ (missing (rows_at name db)) (λ c. nothing (text_eq (lower table) (lower name))))
    where
      nothing : (b : Bool) → not (b && false) ≡ true
      nothing true = refl
      nothing false = refl
  update_embeddings-missing (p ∷ params) table db u name h =
      by_lookup (lookup (lower table) db) refl h
    where
      update : Table V → Outcome (List (ChunkRow V))
      update t = put_embeddings size t.dim (p ∷ params) t.rows

      left : Bool → List Chunk → List Chunk
      left b l = keep (λ c. not (b && in_params c.id (p ∷ params))) l

      by_name :
          (t : Table V) (rows : List (ChunkRow V))
          → lookup (lower table) db ≡ some t
          → update t ≡ returned rows
          → (b : Bool) → text_eq (lower table) (lower name) ≡ b
          → missing (rows_at name (insert (lower table) (record t { rows = rows }) db))
            ≡ left b (missing (rows_at name db))
      by_name t rows e q true n =
          let same = (text_eq_iff (lower table) (lower name)).0 n in
          ap (λ o. missing (rows_of o))
            (ap (λ k. lookup k (insert (lower table) (record t { rows = rows }) db)) (sym same)
              ∙ lookup-insert_same (lower table) (record t { rows = rows }) db)
          ∙ put_embeddings-missing t.dim (p ∷ params) t.rows rows q
          ∙ ap (λ o. left true (missing (rows_of o))) (sym e ∙ ap (λ k. lookup k db) same)
      by_name t rows e q false n =
          ap (λ o. missing (rows_of o))
            (lookup-insert_other (lower table) (lower name) (record t { rows = rows }) db n)
          ∙ sym (keep_all _ (missing (rows_at name db)) (λ c. refl))

      by_update :
          (t : Table V)
          → lookup (lower table) db ≡ some t
          → (r : Outcome (List (ChunkRow V))) → update t ≡ r
          → (changed (lower table) t r db).0 ≡ returned u
          → missing (rows_at name (changed (lower table) t r db).1)
            ≡ left (text_eq (lower table) (lower name)) (missing (rows_at name db))
      by_update t e (returned rows) q k =
          by_name t rows e q (text_eq (lower table) (lower name)) refl
      by_update t e (raised x) q k = cc

      by_lookup :
          (o : Option (Table V))
          → lookup (lower table) db ≡ o
          → (change_in (lower table) update o db).0 ≡ returned u
          → missing (rows_at name (change_in (lower table) update o db).1)
            ≡ left (text_eq (lower table) (lower name)) (missing (rows_at name db))
      by_lookup none e k = cc
      by_lookup (some t) e k = by_update t e (update t) refl k

  -- some group updates the chunk in the table
  abbrev pub in_groups : Text → Text → Dict (List (Text × V)) → Bool
  in_groups name i groups = exists (λ g. text_eq (lower g.0) (lower name) && in_params i g.1) groups

  -- some row saves a vector for the chunk in the table
  abbrev pub is_saved : Text → Text → List (EmbeddingRow V) → Bool
  is_saved name i [] = false
  is_saved name i (query_row j m v ∷ rows) = is_saved name i rows
  is_saved name i (chunk_row j m v table ∷ rows) =
      (not (is_empty table) && (text_eq (lower table) (lower name) && text_eq i j))
      || is_saved name i rows

  in_params-append :
      (i : Text) (ps : List (Text × V)) (p : Text × V)
      → in_params i (ps ++ (p ∷ [])) ≡ in_params i ps || text_eq i p.0
  in_params-append i [] p = ground arith
  in_params-append i (q ∷ ps) p = ground (arith, in_params-append i ps p)

  in_groups-add_to :
      (name i table : Text) (p : Text × V) (groups : Dict (List (Text × V)))
      → in_groups name i (add_to size table p groups)
        ≡ (text_eq (lower table) (lower name) && text_eq i p.0) || in_groups name i groups
  unfolding add_to
  in_groups-add_to name i table p [] = ground arith
  in_groups-add_to name i table p ((t, ps) ∷ groups) = elim (Bool-cases (text_eq t table)) [
    | inl e ↦
        rw (e, (text_eq_iff t table).0 e, in_params-append i ps p)
          (joined (text_eq (lower table) (lower name)) (in_params i ps) (text_eq i p.0)
            (in_groups name i groups))
    | inr e ↦
        rw (e, in_groups-add_to name i table p groups)
          (swapped (text_eq (lower t) (lower name) && in_params i ps)
            (text_eq (lower table) (lower name) && text_eq i p.0) (in_groups name i groups))
  ]
    where
      joined : (a b c g : Bool) → (a && (b || c)) || g ≡ (a && c) || ((a && b) || g)
      joined a b c g = ground arith

      swapped : (a b g : Bool) → a || (b || g) ≡ b || (a || g)
      swapped a b g = ground arith

  in_groups-by_table :
      (name i : Text) (rows : List (EmbeddingRow V)) (groups : Dict (List (Text × V)))
      → in_groups name i (by_table size rows groups)
        ≡ is_saved name i rows || in_groups name i groups
  unfolding by_table
  in_groups-by_table name i [] groups = refl
  in_groups-by_table name i (query_row j m v ∷ rows) groups = in_groups-by_table name i rows groups
  in_groups-by_table name i (chunk_row j m v table ∷ rows) groups =
      elim (Bool-cases (is_empty table)) [
        | inl e ↦ rw e (in_groups-by_table name i rows groups)
        | inr e ↦ rw e (
            in_groups-by_table name i rows (add_to size table (j, v) groups)
            ∙ ap (λ b. is_saved name i rows || b) (in_groups-add_to name i table (j, v) groups)
            ∙ swapped (is_saved name i rows) (text_eq (lower table) (lower name) && text_eq i j)
                (in_groups name i groups))
      ]
    where
      swapped : (a b g : Bool) → a || (b || g) ≡ (b || a) || g
      swapped a b g = ground arith

  save_groups-missing :
      (groups : Dict (List (Text × V))) (db : Db V) (u : Unit {0}) (name : Text)
      → (save_groups size groups db).0 ≡ returned u
      → missing (rows_at name (save_groups size groups db).1)
        ≡ keep (λ c. not (in_groups name c.id groups)) (missing (rows_at name db))
  unfolding save_groups
  save_groups-missing [] db u name h = sym (keep_all _ (missing (rows_at name db)) (λ c. refl))
  save_groups-missing ((table, params) ∷ groups) db u name h =
      let (x, e, k) =
        >>=-eq-returned (update_embeddings size params table) (λ y. save_groups size groups) db h in
      let db' = (update_embeddings size params table db).1 in
      ap (λ o. missing (rows_at name o.1))
        (>>=-returned (update_embeddings size params table) (λ y. save_groups size groups) db e)
      ∙ save_groups-missing groups db' u name k
      ∙ ap (keep (λ c. not (in_groups name c.id groups)))
          (update_embeddings-missing params table db x name e)
      ∙ keep-keep _ _ (missing (rows_at name db))
      ∙ keep_same _ _ (missing (rows_at name db)) (λ c.
        both (text_eq (lower table) (lower name) && in_params c.id params)
          (in_groups name c.id groups))
    where
      both : (a b : Bool) → not a && not b ≡ not (a || b)
      both true b = refl
      both false b = refl

  -- If `save_batch` returns, then the chunks of each table that still want a vector are those that did
  -- before and for which no row of the batch names the table and the chunk, in the same order. Table
  -- names are compared in lower case, and a row with an empty table name saves nothing.
  pub save_batch-missing :
      (rows : List (EmbeddingRow V)) (db : Db V) (u : Unit {0}) (name : Text)
      → (save_batch size rows db).0 ≡ returned u
      → missing (rows_at name (save_batch size rows db).1)
        ≡ keep (λ c. not (is_saved name c.id rows)) (missing (rows_at name db))
  unfolding save_batch
  save_batch-missing rows db u name h =
      save_groups-missing (by_table size rows []) db u name h
      ∙ keep_same _ _ (missing (rows_at name db))
          (λ c. ap not (in_groups-by_table name c.id rows [] ∙ or_false (is_saved name c.id rows)))
    where
      or_false : (b : Bool) → b || false ≡ b
      or_false true = refl
      or_false false = refl
