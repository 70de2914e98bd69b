-- ===== src/Chunks/Handler/Again.antt =====
-- Running `ChunkPostHandler.handle` again on an unchanged post.
use event_driven_rag_pipelin.Prelude.{
  ℕ, ◌+◌, ◌≡◌, refl, sym, ap, ◌∙◌, subst, inl, inr, ◌||◌, ◌==◌, Text, text_eq, text_eq_refl,
  is_empty, Bool, true, false, not, some, is_some, List, [], ◌∷◌, ◌++◌, map, keep, keep-append,
  keep_none, exists, All, All-mono, lookup, if◌then◌else◌, Bool-cases, arith,
}
use event_driven_rag_pipelin.Prelude.Action.{Exception, Outcome, returned, raised}
use event_driven_rag_pipelin.Tasks.{ChunkTask}
use event_driven_rag_pipelin.Posts.{Post, resolve_text}
use event_driven_rag_pipelin.TableNames.{lower}
use event_driven_rag_pipelin.Chunks.{Chunk, ChunkRow, unembedded}
use event_driven_rag_pipelin.Chunks.Inserts.{
  rows_of, rows_at, ensure_table_lem, IsFresh, has_hash, hashes_from-known,
}
use event_driven_rag_pipelin.Chunks.Handler.{
  World, Deps, windows_of, is_new, chunk_table_name, chunks_from, store_new, handle,
}
use event_driven_rag_pipelin.Dispatch.{ChunksCreatedEvent}
use event_driven_rag_pipelin.Chunks.Handler.Announced.{handle_unpublished}
use event_driven_rag_pipelin.Chunks.Handler.Stored.{
  hashes_of, new_chunks, prepared, chunk_into-store_new, handle-chunk_into, handle_returned-Stores,
  has_config, Windows, handle_returned-Windows, new_chunks-Windows,
}

module _ {V : Type 0} (p : ℕ) where
  -- the hash is known for the post
  abbrev IsKnown : List (ChunkRow V) → Text → Type 0
  IsKnown rows h = has_hash h (keep (λ r. r.chunk.post_id == p) rows) ≡ true

  known-is_new :
      (rows : List (ChunkRow V)) (c : Chunk)
      → IsKnown rows c.text_hash
      → is_new (hashes_of p rows) c ≡ false
  known-is_new rows c k = ap not (
      hashes_from-known c.text_hash (keep (λ r. r.chunk.post_id == p) rows) []
      ∙ ap (λ b. b || is_some (lookup {V = Text} c.text_hash [])) k)

  is_new-IsKnown :
      (rows : List (ChunkRow V)) (c : Chunk)
      → is_new (hashes_of p rows) c ≡ false
      → IsKnown rows c.text_hash
  unfolding lookup
  is_new-IsKnown rows c n =
      let e = hashes_from-known c.text_hash (keep (λ r. r.chunk.post_id == p) rows) [] in
      by_value _ (sym e ∙ flip _ n)
    where
      flip : (b : Bool) → not b ≡ false → b ≡ true
      flip true q = refl
      flip false q = cc

      by_value : (b : Bool) → b || false ≡ true → b ≡ true
      by_value true q = refl
      by_value false q = cc

  exists-append :
      (q : ChunkRow V → Bool) (xs ys : List (ChunkRow V))
      → exists q (xs ++ ys) ≡ exists q xs || exists q ys
  exists-append q [] ys = refl
  exists-append q (x ∷ xs) ys = ground (arith, exists-append q xs ys)

  IsKnown-append :
      (rows more : List (ChunkRow V)) (h : Text)
      → has_hash h (keep (λ r. r.chunk.post_id == p) (rows ++ more))
        ≡ has_hash h (keep (λ r. r.chunk.post_id == p) rows)
          || has_hash h (keep (λ r. r.chunk.post_id == p) more)
  IsKnown-append rows more h =
      ap (has_hash h) (keep-append (λ r. r.chunk.post_id == p) rows more)
      ∙ exists-append _ (keep (λ r. r.chunk.post_id == p) rows)
          (keep (λ r. r.chunk.post_id == p) more)

module _ (V : Type 0) (p : ℕ) (q : Chunk → Bool) where
  -- the hash of a chunk is known among the rows of some chunks
  abbrev KeptIn : List Chunk → Chunk → Type 0
  KeptIn kept c = q c ≡ true → IsKnown {V = V} p (map unembedded kept) c.text_hash

  abbrev IsOf : Chunk → Type 0
  IsOf c = (c.post_id ≡ p) × (is_empty c.text_hash ≡ false)

  KeptIn-cons : (c x : Chunk) (kept : List Chunk) → IsOf c → KeptIn kept x → KeptIn (c ∷ kept) x
  KeptIn-cons c x kept h k y = let known = k y in ground (arith, known, h)

  -- the chunks that a test keeps are known among their rows
  kept_known : (chunks : List Chunk) → All IsOf chunks → All (KeptIn (keep q chunks)) chunks
  kept_known [] h = tt
  kept_known (c ∷ chunks) h = by_test (kept_known chunks h.1) (q c) refl
    where
      by_test :
          All (KeptIn (keep q chunks)) chunks
          → (b : Bool) → q c ≡ b
          → All (KeptIn (if b then c ∷ keep q chunks else keep q chunks)) (c ∷ chunks)
      by_test ih true e = (
        (λ x. ground (arith, h.0, text_eq_refl c.text_hash)),
        All-mono _ _ chunks (λ x k. KeptIn-cons c x (keep q chunks) h.0 k) ih,
      )
      by_test ih false e = ((λ x. cc), ih)

module _ (d : Deps) (task : ChunkTask) (post : Post) where
  -- what holds of the hash of each window, whatever UUIDs are drawn for the chunks
  All-hashes :
      (P : Text → Type 0) (n i m j : ℕ) (windows : List Text)
      → All (λ (c : Chunk). P c.text_hash) (chunks_from d task post n i windows)
      → All (λ (c : Chunk). P c.text_hash) (chunks_from d task post m j windows)
  unfolding chunks_from
  All-hashes P n i m j [] h = tt
  All-hashes P n i m j (s ∷ windows) h =
      (h.0, All-hashes P (n + 1) (i + 1) (m + 1) (j + 1) windows h.1)

  chunks_from-IsOf :
      (V : Type 0)
      → ((s : Text) → is_empty (d.sha256 s) ≡ false)
      → (q : Chunk → Bool) (n i : ℕ) (windows : List Text)
      → All (IsOf V task.post_id q) (chunks_from d task post n i windows)
  unfolding chunks_from
  chunks_from-IsOf V e q n i [] = tt
  chunks_from-IsOf V e q n i (s ∷ windows) =
      ((refl, e s), chunks_from-IsOf V e q (n + 1) (i + 1) windows)

module _ {V : Type 0} (d : Deps) (task : ChunkTask)
    (non_empty : (s : Text) → is_empty (d.sha256 s) ≡ false) where
  -- once the new chunks are stored, every window is known
  new_chunks_none :
      (post : Post) (s : Text) (w w' : World V)
      → rows_at (chunk_table_name task) w'.db
        ≡ rows_at (chunk_table_name task) w.db ++ map unembedded (new_chunks d task post s w)
      → new_chunks d task post s w' ≡ []
  new_chunks_none post s w w' e =
      let chunks = chunks_from d task post w.drawn 0 (windows_of d task.task_type s) in
      let kept =
        kept_known V task.post_id old chunks (
          chunks_from-IsOf d task post V non_empty old w.drawn 0 (windows_of d task.task_type s)) in
      let known =
        All-mono _ (λ (c : Chunk). IsKnown task.post_id (rows ++ more) c.text_hash) chunks in_either
          kept in
      let again =
        All-hashes d task post (λ h. IsKnown task.post_id (rows ++ more) h) w.drawn 0 w'.drawn 0
          (windows_of d task.task_type s) known in
      keep_none _ _ (
        All-mono _ _ _
          (λ c k.
            known-is_new task.post_id (rows_at (chunk_table_name task) w'.db) c
              (subst (λ l. IsKnown task.post_id l c.text_hash) (sym e) k))
          again)
    where
      rows : List (ChunkRow V)
      rows = rows_at (chunk_table_name task) w.db

      old : Chunk → Bool
      old = is_new (hashes_of task.post_id rows)

      more : List (ChunkRow V)
      more = map unembedded (new_chunks d task post s w)

      in_either :
          (c : Chunk)
          → KeptIn V task.post_id old (new_chunks d task post s w) c
          → IsKnown task.post_id (rows ++ more) c.text_hash
      in_either c k = elim (Bool-cases (old c)) [
        | inl t ↦ IsKnown-append task.post_id rows more c.text_hash ∙ right _ _ (k t)
        | inr f ↦
            IsKnown-append task.post_id rows more c.text_hash
            ∙ left _ _ (is_new-IsKnown task.post_id rows c f)
      ]
        where
          right : (a b : Bool) → b ≡ true → a || b ≡ true
          right a b h = ground (arith, h)

          left : (a b : Bool) → a ≡ true → a || b ≡ true
          left a b h = ground (arith, h)

  -- a run that returns no ids and changes nothing but the supply of UUIDs
  abbrev pub Idles : World V → Outcome (List Text) × World V → Type 0
  Idles w o =
      (o.0 ≡ returned [])
      × (rows_at (chunk_table_name task) o.1.db ≡ rows_at (chunk_table_name task) w.db)
      × ((j : Text)
          → text_eq (lower (chunk_table_name task)) j ≡ false
          → lookup j o.1.db ≡ lookup j w.db)
      × (o.1.published ≡ w.published)

  -- a run on a table that has the new chunks of another
  stored-Idles :
      (post : Post) (c : ℕ) (s : Text) (w w' : World V)
      → Windows d task (c ∷ s)
      → d.fetch_post task.post_id task.post_table ≡ returned (some post)
      → resolve_text task.task_type task.analysis_text post ≡ some (c ∷ s)
      → rows_at (chunk_table_name task) w'.db
        ≡ rows_at (chunk_table_name task) w.db ++ map unembedded (new_chunks d task post (c ∷ s) w)
      → Idles w' (handle d task w')
  unfolding store_new
  stored-Idles post c s w w' chunked f r rows =
      let dim = (has_config task.task_type).0.dim in
      let second =
        handle-chunk_into d task post c s w' f r
        ∙ chunk_into-store_new d task post (c ∷ s) dim w' chunked
        ∙ ap (λ l. store_new d task l (prepared d task (c ∷ s) dim w'))
            (new_chunks_none post (c ∷ s) w w' rows) in
      subst (Idles w') (sym second) (ends dim)
    where
      ends : (dim : ℕ) → Idles w' (store_new d task [] (prepared d task (c ∷ s) dim w'))
      ends dim =
          let (t, e, q, o) = ensure_table_lem (chunk_table_name task) dim w'.db in
          (refl, ap (λ y. rows_of y) e ∙ q, o, refl)

  -- After a run of the handler that returned for a post with text, a second run on the unchanged post
  -- returns no ids, leaves the rows of every table as they are and announces nothing. Digests are not
  -- empty, no row has a UUID that is still to be drawn, and those are all different.
  pub handle-Idles :
      (injective : (i j : ℕ) → d.uuid i ≡ d.uuid j → i ≡ j) (post : Post) (c : ℕ) (s : Text)
      (w : World V) (ids : List Text)
      → d.fetch_post task.post_id task.post_table ≡ returned (some post)
      → resolve_text task.task_type task.analysis_text post ≡ some (c ∷ s)
      → IsFresh d.uuid w.drawn (rows_at (chunk_table_name task) w.db)
      → (handle d task w).0 ≡ returned ids
      → Idles (handle d task w).1 (handle d task (handle d task w).1)
  handle-Idles injective post c s w ids f r fresh h =
      let (i, (rows, others, events)) =
        handle_returned-Stores d task injective post c s w ids f r fresh h in
      stored-Idles post c s w (handle d task w).1
        (handle_returned-Windows d task post c s w ids f r h) f r rows

  -- If the event of a run with new chunks cannot be published, then the run raises that exception and
  -- announces nothing, but its chunks stay stored: the redelivered task returns no ids, as if there were
  -- nothing to do, and does not announce them either. The conditions are those of a second run.
  pub unannounced-Idles :
      (injective : (i j : ℕ) → d.uuid i ≡ d.uuid j → i ≡ j) (post : Post) (c : ℕ) (s : Text)
      (w : World V) (x : Exception) (n : Chunk) (new : List Chunk)
      → d.fetch_post task.post_id task.post_table ≡ returned (some post)
      → resolve_text task.task_type task.analysis_text post ≡ some (c ∷ s)
      → IsFresh d.uuid w.drawn (rows_at (chunk_table_name task) w.db)
      → ((e : ChunksCreatedEvent) → d.publish_fails e ≡ some x)
      → new_chunks d task post (c ∷ s) w ≡ n ∷ new
      → ((handle d task w).0 ≡ raised x)
        × (rows_at (chunk_table_name task) (handle d task w).1.db
            ≡ rows_at (chunk_table_name task) w.db
              ++ map unembedded (new_chunks d task post (c ∷ s) w))
        × ((handle d task w).1.published ≡ w.published)
        × Idles (handle d task w).1 (handle d task (handle d task w).1)
  unannounced-Idles injective post c s w x n new f r fresh p m =
      let (a, rows, events) =
        handle_unpublished d task injective post c s w x n new f r fresh p m in
      (
        a,
        rows,
        events,
        stored-Idles post c s w (handle d task w).1
            (new_chunks-Windows d task post (c ∷ s) w n new m) f r rows,
      )
