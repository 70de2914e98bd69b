-- ===== src/Chunks/Handler/Stored.antt =====
-- What one run of `ChunkPostHandler.handle` stores and announces.
use event_driven_rag_pipelin.Prelude.{
  ℕ, suc, ◌+◌, ◌≡◌, refl, sym, ap, ◌∙◌, subst, Text, text_eq, Bool, false, Option, none, some, List,
  [], ◌∷◌, ◌++◌, append-nil, map, keep, length, Dict, lookup, insert, inl, inr, Bool-cases, arith,
  ◌==◌,
}
use event_driven_rag_pipelin.Prelude.Action.{
  Exception, Outcome, returned, raised, lift, pure, continue, ◌>>=◌, ◌>>◌,
}
use event_driven_rag_pipelin.Config.{EmbedConfig, embed_configs}
use event_driven_rag_pipelin.Tasks.{ChunkTask, ChunkKind}
use event_driven_rag_pipelin.Posts.{Post, resolve_text}
use event_driven_rag_pipelin.TableNames.{lower}
use event_driven_rag_pipelin.Dispatch.{ChunksCreatedEvent, kind_name}
use event_driven_rag_pipelin.Chunks.{
  Chunk, ChunkRow, Table, Db, ensure_table, get_text_hashes, hashes_from, select, bulk_insert,
  change, insert_all, unembedded,
}
use event_driven_rag_pipelin.Chunks.Inserts.{
  rows_of, rows_at, ensure_table_lem, lookup-insert_same, lookup-insert_other, IsFresh, IsDrawn,
  insert_all-IsDrawn,
}
use event_driven_rag_pipelin.Chunks.Handler.{
  World, Deps, windows_in, windows_of, built, is_new, chunk_table_name, chunks_from, build_chunks,
  created_event, sent, publish_created, store_new, chunk_into, with_config, with_text, with_post,
  handle,
}

-- the hashes that `get_text_hashes` finds in some rows
abbrev pub hashes_of : {V : Type 0} → ℕ → List (ChunkRow V) → Dict Text
hashes_of post_id rows = hashes_from (keep (λ r. r.chunk.post_id == post_id) rows) []

module _ (d : Deps) (task : ChunkTask) where
  -- the strategy returns its windows
  abbrev pub Windows : Text → Type 0
  Windows s = d.windows task.task_type s ≡ returned (windows_of d task.task_type s)

  pub returned-Windows :
      (s : Text) (windows : List Text) → d.windows task.task_type s ≡ returned windows → Windows s
  returned-Windows s windows e = e ∙ ap (λ o. returned (windows_in o)) (sym e)

module _ (d : Deps) (task : ChunkTask) (post : Post) where
  pub chunks_from-IsDrawn :
      (n i : ℕ) (windows : List Text) → IsDrawn d.uuid n (chunks_from d task post n i windows)
  unfolding chunks_from
  chunks_from-IsDrawn n i [] = tt
  chunks_from-IsDrawn n i (s ∷ windows) = (
    0,
    ap d.uuid (omega arith),
    subst (λ m. IsDrawn d.uuid m (chunks_from d task post (n + 1) (i + 1) windows)) (omega arith)
        (chunks_from-IsDrawn (n + 1) (i + 1) windows),
  )

pub keep-IsDrawn :
    (uuid : ℕ → Text) (p : Chunk → Bool) (n : ℕ) (chunks : List Chunk)
    → IsDrawn uuid n chunks
    → IsDrawn uuid n (keep p chunks)
keep-IsDrawn uuid p n [] h = tt
keep-IsDrawn uuid p n (c ∷ chunks) (k, e, h) = elim (Bool-cases (p c)) [
  | inl b ↦ rw b (k, e, keep-IsDrawn uuid p (n + suc k) chunks h)
  | inr b ↦ rw b (IsDrawn-earlier n k (keep p chunks) (keep-IsDrawn uuid p (n + suc k) chunks h))
]
  where
    IsDrawn-earlier : (n k : ℕ) (l : List Chunk) → IsDrawn uuid (n + suc k) l → IsDrawn uuid n l
    IsDrawn-earlier n k [] h = tt
    IsDrawn-earlier n k (c ∷ l) (j, e, h) =
        (suc k + j, e ∙ ap uuid (omega arith), subst (λ m. IsDrawn uuid m l) (omega arith) h)

module _ {V : Type 0} where
  get_text_hashes_lem :
      (post_id : ℕ) (name : Text) (db : Db V) (t : Table V)
      → lookup (lower name) db ≡ some t
      → get_text_hashes post_id name db ≡ (returned (hashes_of post_id t.rows), db)
  unfolding get_text_hashes select
  get_text_hashes_lem post_id name db t e = rw e refl

  pub bulk_insert_lem :
      (c : Chunk) (chunks : List Chunk) (name : Text) (db : Db V) (t : Table V)
      → lookup (lower name) db ≡ some t
      → bulk_insert (c ∷ chunks) name db
        ≡ (returned tt, insert (lower name) (record t { rows = insert_all (c ∷ chunks) t.rows }) db)
  unfolding bulk_insert change
  bulk_insert_lem c chunks name db t e = rw e refl

-- the event of a run, if it inserted anything
abbrev pub events_for : Deps → ChunkTask → List Chunk → ℕ → List ChunksCreatedEvent
events_for d task [] n = []
events_for d task (c ∷ chunks) n = created_event d task (c ∷ chunks) n ∷ []

-- every kind of chunk has a model
pub has_config :
    (k : ChunkKind) → (cfg : EmbedConfig) × (lookup (kind_name k) embed_configs ≡ some cfg)
unfolding embed_configs lookup text_eq
has_config ChunkKind.body = (_, refl)
has_config ChunkKind.title = (_, refl)
has_config ChunkKind.summary_title = (_, refl)
has_config ChunkKind.analysis = (_, refl)

unwrap : {A : Type 0} {a b : A} → returned a ≡ returned b → a ≡ b
unwrap e = cc

module _ {V : Type 0} (d : Deps) (task : ChunkTask) where
  -- What a run has done to the world: `new` was appended to the table of the task, without vectors,
  -- announced by one event unless it is empty, and nothing else was written.
  abbrev pub Stores : World V → World V → ℕ → List Chunk → Type 0
  Stores w w' n new =
      (rows_at (chunk_table_name task) w'.db
        ≡ rows_at (chunk_table_name task) w.db ++ map unembedded new)
      × ((j : Text)
          → text_eq (lower (chunk_table_name task)) j ≡ false
          → lookup j w'.db ≡ lookup j w.db)
      × (w'.published ≡ w.published ++ events_for d task new n)

  store_new_lem :
      (injective : (i j : ℕ) → d.uuid i ≡ d.uuid j → i ≡ j) (n : ℕ) (new : List Chunk) (w : World V)
      (t : Table V) (ids : List Text)
      → lookup (lower (chunk_table_name task)) w.db ≡ some t
      → IsDrawn d.uuid n new
      → IsFresh d.uuid n t.rows
      → (store_new d task new w).0 ≡ returned ids
      → (ids ≡ map (λ c. c.id) new) × Stores w (store_new d task new w).1 w.drawn new
  unfolding store_new publish_created
  store_new_lem injective n [] w t ids e h f r =
      (sym (unwrap r), (sym (append-nil _), (λ j x. refl), sym (append-nil _)))
  store_new_lem injective n (c ∷ new) w t ids e h f r =
      let stored = bulk_insert_lem c new (chunk_table_name task) w.db t e in
      subst
        (λ o.
          (o.0 ≡ returned ids) → (ids ≡ map (λ x. x.id) (c ∷ new)) × Stores w o.1 w.drawn (c ∷ new))
        (sym (ap after stored))
        (by_publish (d.publish_fails (created_event d task (c ∷ new) w.drawn))) r
    where
      after : Outcome (Unit {0}) × Db V → Outcome (List Text) × World V
      after o =
          continue o.0
            (λ (u : Unit {0}). publish_created d task (c ∷ new) >> pure (map (λ x. x.id) (c ∷ new)))
            (record w { db = o.1 })

      table : Table V
      table = record t { rows = insert_all (c ∷ new) t.rows }

      rows :
          rows_at (chunk_table_name task) (insert (lower (chunk_table_name task)) table w.db)
          ≡ rows_at (chunk_table_name task) w.db ++ map unembedded (c ∷ new)
      rows =
          ap (λ o. rows_of o) (lookup-insert_same (lower (chunk_table_name task)) table w.db)
          ∙ insert_all-IsDrawn d.uuid injective n (c ∷ new) t.rows h f
          ∙ ap (λ l. l ++ map unembedded (c ∷ new)) (sym (ap (λ o. rows_of o) e))

      by_publish :
          (o : Option Exception)
          → let world : World V = record w {
            db = insert (lower (chunk_table_name task)) table w.db;
          } in
            let end =
              (sent d o (created_event d task (c ∷ new) w.drawn)
                  >> pure (map (λ x. x.id) (c ∷ new)))
                world in
            (end.0 ≡ returned ids)
            → (ids ≡ map (λ x. x.id) (c ∷ new)) × Stores w end.1 w.drawn (c ∷ new)
      by_publish none q = (
        sym (unwrap q),
        (rows, (λ j x. lookup-insert_other (lower (chunk_table_name task)) j table w.db x), refl),
      )
      by_publish (some x) q = cc

  -- the chunks of a text whose hash is not known for the post
  abbrev pub new_chunks : Post → Text → World V → List Chunk
  new_chunks post s w =
      keep (is_new (hashes_of task.post_id (rows_at (chunk_table_name task) w.db)))
        (chunks_from d task post w.drawn 0 (windows_of d task.task_type s))

  -- the world in which the new chunks are stored
  abbrev pub prepared : Text → ℕ → World V → World V
  prepared s dim w = record w {
    db = ensure_table (chunk_table_name task) dim w.db;
    drawn = w.drawn + length (windows_of d task.task_type s);
  }

  pub chunk_into-store_new :
      (post : Post) (s : Text) (dim : ℕ) (w : World V)
      → Windows d task s
      → chunk_into d task post s dim w ≡ store_new d task (new_chunks post s w) (prepared s dim w)
  unfolding chunk_into build_chunks
  chunk_into-store_new post s dim w chunked =
      let (t, e, r, o) = ensure_table_lem (chunk_table_name task) dim w.db in
      ap after (
        get_text_hashes_lem task.post_id (chunk_table_name task)
          (ensure_table (chunk_table_name task) dim w.db) t e)
      ∙ ap
          (λ (o : Outcome (List Text)).
            with_windows o (hashes_of task.post_id t.rows)
              (record w { db = ensure_table (chunk_table_name task) dim w.db }))
          chunked
      ∙ ap
          (λ rows.
            store_new d task
              (keep (is_new (hashes_of task.post_id rows))
                (chunks_from d task post w.drawn 0 (windows_of d task.task_type s)))
              (prepared s dim w))
          r
    where
      with_windows : Outcome (List Text) → Dict Text → World V → Outcome (List Text) × World V
      with_windows o existing = (lift o >>= built d task post) >>= λ all_chunks.
          store_new d task (keep (is_new existing) all_chunks)

      after : Outcome (Dict Text) × Db V → Outcome (List Text) × World V
      after o =
          continue o.0
            (λ existing. build_chunks d task post s >>= λ all_chunks.
              store_new d task (keep (is_new existing) all_chunks))
            (record w { db = o.1 })

  -- new chunks are of windows
  pub new_chunks-Windows :
      (post : Post) (s : Text) (w : World V) (n : Chunk) (new : List Chunk)
      → new_chunks post s w ≡ n ∷ new
      → Windows d task s
  unfolding chunks_from
  new_chunks-Windows post s w n new = by_windows (d.windows task.task_type s)
    where
      by_windows :
          (o : Outcome (List Text))
          → keep
              (is_new (hashes_of task.post_id (rows_at (chunk_table_name task) w.db)))
              (chunks_from d task post w.drawn 0 (windows_in o))
            ≡ n ∷ new
          → o ≡ returned (windows_in o)
      by_windows (returned l) e = refl
      by_windows (raised x) e = cc

  chunk_into_lem :
      (injective : (i j : ℕ) → d.uuid i ≡ d.uuid j → i ≡ j) (post : Post) (s : Text) (dim : ℕ)
      (w : World V) (ids : List Text)
      → IsFresh d.uuid w.drawn (rows_at (chunk_table_name task) w.db)
      → Windows d task s
      → (chunk_into d task post s dim w).0 ≡ returned ids
      → (ids ≡ map (λ c. c.id) (new_chunks post s w))
        × Stores w
            (chunk_into d task post s dim w).1
            (w.drawn + length (windows_of d task.task_type s))
            (new_chunks post s w)
  chunk_into_lem injective post s dim w ids f chunked h =
      let (t, e, r, o) = ensure_table_lem (chunk_table_name task) dim w.db in
      let same = chunk_into-store_new post s dim w chunked in
      let drawn =
        keep-IsDrawn d.uuid _ w.drawn _
          (chunks_from-IsDrawn d task post w.drawn 0 (windows_of d task.task_type s)) in
      let (i, (a, b, c)) =
        store_new_lem injective w.drawn (new_chunks post s w) (prepared s dim w) t ids e drawn
          (subst (IsFresh d.uuid w.drawn) (sym r) f) (sym (ap (λ x. x.0) same) ∙ h) in
      subst
        (λ x.
          (ids ≡ map (λ c. c.id) (new_chunks post s w))
          × Stores w x.1 (w.drawn + length (windows_of d task.task_type s)) (new_chunks post s w))
        (sym same)
        (
          i,
          (
            a ∙ ap (λ l. l ++ map unembedded (new_chunks post s w)) (ap (λ x. rows_of x) e ∙ r),
            (λ j x. b j x ∙ o j x),
            c,
          ),
        )

  pub handle-chunk_into :
      (post : Post) (c : ℕ) (s : Text) (w : World V)
      → d.fetch_post task.post_id task.post_table ≡ returned (some post)
      → resolve_text task.task_type task.analysis_text post ≡ some (c ∷ s)
      → handle d task w ≡ chunk_into d task post (c ∷ s) (has_config task.task_type).0.dim w
  unfolding handle
  handle-chunk_into post c s w f r =
      ap (λ (o : Outcome (Option Post)). continue o (with_post d task) w) f
      ∙ ap (λ o. with_text d task post o w) r
      ∙ ap (λ o. with_config d task post (c ∷ s) o w) (has_config task.task_type).1

  -- a strategy that raises raises out of the handler
  chunk_into-Windows :
      (post : Post) (s : Text) (dim : ℕ) (w : World V) (ids : List Text)
      → (chunk_into d task post s dim w).0 ≡ returned ids
      → Windows d task s
  unfolding chunk_into build_chunks
  chunk_into-Windows post s dim w ids h =
      let (t, e, r, o) = ensure_table_lem (chunk_table_name task) dim w.db in
      let hashes =
        get_text_hashes_lem task.post_id (chunk_table_name task)
          (ensure_table (chunk_table_name task) dim w.db) t e in
      by_windows (hashes_of task.post_id t.rows)
        (record w { db = ensure_table (chunk_table_name task) dim w.db })
        (d.windows task.task_type s) (sym (ap (λ x. (after x).0) hashes) ∙ h)
    where
      with_windows : Outcome (List Text) → Dict Text → World V → Outcome (List Text) × World V
      with_windows o existing = (lift o >>= built d task post) >>= λ all_chunks.
          store_new d task (keep (is_new existing) all_chunks)

      after : Outcome (Dict Text) × Db V → Outcome (List Text) × World V
      after o =
          continue o.0 (λ existing. with_windows (d.windows task.task_type s) existing)
            (record w { db = o.1 })

      by_windows :
          (existing : Dict Text) (w' : World V) (x : Outcome (List Text))
          → (with_windows x existing w').0 ≡ returned ids
          → x ≡ returned (windows_in x)
      by_windows existing w' (returned l) q = refl
      by_windows existing w' (raised y) q = cc

  pub handle_returned-Windows :
      (post : Post) (c : ℕ) (s : Text) (w : World V) (ids : List Text)
      → d.fetch_post task.post_id task.post_table ≡ returned (some post)
      → resolve_text task.task_type task.analysis_text post ≡ some (c ∷ s)
      → (handle d task w).0 ≡ returned ids
      → Windows d task (c ∷ s)
  handle_returned-Windows post c s w ids f r h =
      chunk_into-Windows post (c ∷ s) (has_config task.task_type).0.dim w ids
        (sym (ap (λ x. x.0) (handle-chunk_into post c s w f r)) ∙ h)

  -- a run that returned
  pub handle_returned-Stores :
      (injective : (i j : ℕ) → d.uuid i ≡ d.uuid j → i ≡ j) (post : Post) (c : ℕ) (s : Text)
      (w : World V) (ids : List Text)
      → d.fetch_post task.post_id task.post_table ≡ returned (some post)
      → resolve_text task.task_type task.analysis_text post ≡ some (c ∷ s)
      → IsFresh d.uuid w.drawn (rows_at (chunk_table_name task) w.db)
      → (handle d task w).0 ≡ returned ids
      → (ids ≡ map (λ x. x.id) (new_chunks post (c ∷ s) w))
        × Stores w
            (handle d task w).1
            (w.drawn + length (windows_of d task.task_type (c ∷ s)))
            (new_chunks post (c ∷ s) w)
  handle_returned-Stores injective post c s w ids f r fresh h =
      let same = handle-chunk_into post c s w f r in
      subst
        (λ x.
          (ids ≡ map (λ x. x.id) (new_chunks post (c ∷ s) w))
          × Stores w x.1 (w.drawn + length (windows_of d task.task_type (c ∷ s)))
              (new_chunks post (c ∷ s) w))
        (sym same)
        (chunk_into_lem injective post (c ∷ s) (has_config task.task_type).0.dim w ids fresh
          (handle_returned-Windows post c s w ids f r h) (sym (ap (λ x. x.0) same) ∙ h))
