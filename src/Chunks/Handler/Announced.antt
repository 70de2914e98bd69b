-- ===== src/Chunks/Handler/Announced.antt =====
-- Whether a run of `ChunkPostHandler.handle` returns, and what is stored when its event is not published.
use event_driven_rag_pipelin.Prelude.{
  ℕ, ◌+◌, ◌≡◌, refl, sym, ap, ◌∙◌, subst, Text, none, some, List, [], ◌∷◌, ◌++◌, map, length,
  lookup, insert,
}
use event_driven_rag_pipelin.Prelude.Action.{
  Exception, Outcome, returned, raised, pure, continue, ◌>>◌,
}
use event_driven_rag_pipelin.Tasks.{ChunkTask}
use event_driven_rag_pipelin.Posts.{Post, resolve_text}
use event_driven_rag_pipelin.TableNames.{lower}
use event_driven_rag_pipelin.Dispatch.{ChunksCreatedEvent}
use event_driven_rag_pipelin.Chunks.{Chunk, Table, Db, insert_all, unembedded}
use event_driven_rag_pipelin.Chunks.Inserts.{
  rows_of, rows_at, ensure_table_lem, lookup-insert_same, IsFresh, IsDrawn, insert_all-IsDrawn,
}
use event_driven_rag_pipelin.Chunks.Handler.{
  World, Deps, windows_of, chunk_table_name, created_event, sent, publish_created, store_new,
  handle,
}
use event_driven_rag_pipelin.Chunks.Handler.Stored.{
  bulk_insert_lem, new_chunks, prepared, Stores, has_config, handle-chunk_into,
  chunk_into-store_new, handle_returned-Stores, keep-IsDrawn, chunks_from-IsDrawn, returned-Windows,
  new_chunks-Windows,
}

module _ {V : Type 0} (d : Deps) (task : ChunkTask) where
  -- what happens once the rows are in the table
  abbrev announce : List Chunk → Outcome (Unit {0}) × Db V → World V → Outcome (List Text) × World V
  announce new o w =
      continue o.0 (λ (u : Unit {0}). publish_created d task new >> pure (map (λ x. x.id) new))
        (record w { db = o.1 })

  store_new-announce :
      (c : Chunk) (new : List Chunk) (w : World V) (t : Table V)
      → lookup (lower (chunk_table_name task)) w.db ≡ some t
      → store_new d task (c ∷ new) w
        ≡ announce
            (c ∷ new)
            (
              returned tt,
              insert
                  (lower (chunk_table_name task))
                  (record t { rows = insert_all (c ∷ new) t.rows })
                  w.db,
            )
            w
  unfolding store_new
  store_new-announce c new w t e =
      ap (λ o. announce (c ∷ new) o w) (bulk_insert_lem c new (chunk_table_name task) w.db t e)

  store_new-returned :
      (new : List Chunk) (w : World V) (t : Table V)
      → lookup (lower (chunk_table_name task)) w.db ≡ some t
      → ((e : ChunksCreatedEvent) → d.publish_fails e ≡ none)
      → (store_new d task new w).0 ≡ returned (map (λ c. c.id) new)
  unfolding publish_created store_new
  store_new-returned [] w t e p = refl
  store_new-returned (c ∷ new) w t e p =
      ap (λ o. o.0) (store_new-announce c new w t e)
      ∙ ap
          (λ f.
            (continue (sent d f (created_event d task (c ∷ new) w.drawn) (record w { db = db' })).0
              (λ (u : Unit {0}). pure (map (λ x. x.id) (c ∷ new)))
              (sent d f (created_event d task (c ∷ new) w.drawn) (record w { db = db' })).1).0)
          (p (created_event d task (c ∷ new) w.drawn))
    where
      db' : Db V
      db' =
          insert (lower (chunk_table_name task)) (record t { rows = insert_all (c ∷ new) t.rows })
            w.db

  -- For a post with text, if the chunking strategy returns windows for it and the event can be published, the handler returns the ids of the windows
  -- whose hash the post did not have, their rows are appended without vectors to the table of the task,
  -- one event announces them unless there are none, and nothing else is written. No row has a UUID that
  -- is still to be drawn, and those are all different.
  pub handle-Stores :
      (injective : (i j : ℕ) → d.uuid i ≡ d.uuid j → i ≡ j) (post : Post) (c : ℕ) (s : Text)
      (w : World V) (windows : List Text)
      → d.fetch_post task.post_id task.post_table ≡ returned (some post)
      → resolve_text task.task_type task.analysis_text post ≡ some (c ∷ s)
      → IsFresh d.uuid w.drawn (rows_at (chunk_table_name task) w.db)
      → d.windows task.task_type (c ∷ s) ≡ returned windows
      → ((e : ChunksCreatedEvent) → d.publish_fails e ≡ none)
      → ((handle d task w).0 ≡ returned (map (λ x. x.id) (new_chunks d task post (c ∷ s) w)))
        × Stores d task w
            (handle d task w).1
            (w.drawn + length (windows_of d task.task_type (c ∷ s)))
            (new_chunks d task post (c ∷ s) w)
  handle-Stores injective post c s w windows f r fresh chunked p =
      let dim = (has_config task.task_type).0.dim in
      let (t, e, q, o) = ensure_table_lem (chunk_table_name task) dim w.db in
      let returns =
        ap (λ x. x.0)
          (handle-chunk_into d task post c s w f r
            ∙ chunk_into-store_new d task post (c ∷ s) dim w
                (returned-Windows d task (c ∷ s) windows chunked))
        ∙ store_new-returned (new_chunks d task post (c ∷ s) w) (prepared d task (c ∷ s) dim w) t e
            p in
      (returns, (handle_returned-Stores d task injective post c s w _ f r fresh returns).1)

  -- the rows of a run whose event cannot be published
  pub handle_unpublished :
      (injective : (i j : ℕ) → d.uuid i ≡ d.uuid j → i ≡ j) (post : Post) (c : ℕ) (s : Text)
      (w : World V) (x : Exception) (n : Chunk) (new : List Chunk)
      → d.fetch_post task.post_id task.post_table ≡ returned (some post)
      → resolve_text task.task_type task.analysis_text post ≡ some (c ∷ s)
      → IsFresh d.uuid w.drawn (rows_at (chunk_table_name task) w.db)
      → ((e : ChunksCreatedEvent) → d.publish_fails e ≡ some x)
      → new_chunks d task post (c ∷ s) w ≡ n ∷ new
      → ((handle d task w).0 ≡ raised x)
        × (rows_at (chunk_table_name task) (handle d task w).1.db
            ≡ rows_at (chunk_table_name task) w.db
              ++ map unembedded (new_chunks d task post (c ∷ s) w))
        × ((handle d task w).1.published ≡ w.published)
  unfolding publish_created
  handle_unpublished injective post c s w x n new f r fresh p m =
      let dim = (has_config task.task_type).0.dim in
      let (t, e, q, o) = ensure_table_lem (chunk_table_name task) dim w.db in
      let whole =
        handle-chunk_into d task post c s w f r
        ∙ chunk_into-store_new d task post (c ∷ s) dim w
            (new_chunks-Windows d task post (c ∷ s) w n new m)
        ∙ ap (λ l. store_new d task l (prepared d task (c ∷ s) dim w)) m
        ∙ store_new-announce n new (prepared d task (c ∷ s) dim w) t e in
      let drawn = subst (IsDrawn d.uuid w.drawn) m (
        keep-IsDrawn d.uuid _ w.drawn _
          (chunks_from-IsDrawn d task post w.drawn 0 (windows_of d task.task_type (c ∷ s)))) in
      let inserted =
        insert_all-IsDrawn d.uuid injective w.drawn (n ∷ new) t.rows drawn
          (subst (IsFresh d.uuid w.drawn) (sym q) fresh) in
      let table : Table V = record t { rows = insert_all (n ∷ new) t.rows } in
      let db' : Db V =
        insert (lower (chunk_table_name task)) table (prepared d task (c ∷ s) dim w).db in
      let world : World V = record (prepared d task (c ∷ s) dim w) { db = db' } in
      let event = created_event d task (n ∷ new) (prepared d task (c ∷ s) dim w).drawn in
      let fails = ap (λ g. (sent d g event >> pure (map (λ y. y.id) (n ∷ new))) world) (p event) in
      let end = whole ∙ fails in
      (
        ap (λ y. y.0) end,
        ap (λ y. rows_at (chunk_table_name task) y.1.db) end
            ∙ ap (λ y. rows_of y)
                (lookup-insert_same (lower (chunk_table_name task)) table
                  (prepared d task (c ∷ s) dim w).db)
            ∙ inserted
            ∙ ap (λ l. l ++ map unembedded (n ∷ new)) q
            ∙ ap (λ l. rows_at (chunk_table_name task) w.db ++ map unembedded l) (sym m),
        ap (λ y. y.1.published) end,
      )
