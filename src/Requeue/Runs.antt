-- ===== src/Requeue/Runs.antt =====
-- What a whole run of requeue_service.py or chunk_backfill_service.py publishes and reports.
use event_driven_rag_pipelin.Prelude.{
  ℕ, ◌+◌, ◌≡◌, refl, sym, ap, ◌∙◌, subst, Text, not, Option, none, some, is_some, List, [], ◌∷◌,
  ◌++◌, append-nil, append_assoc, map, keep, length, length-append, length-map, if◌then◌else◌,
  arith,
}
use event_driven_rag_pipelin.Prelude.Action.{
  Exception, Outcome, returned, raised, pure, lift, ◌>>=◌, >>=-eq-returned, >>=-returned,
}
use event_driven_rag_pipelin.Config.{EmbedConfig, embed_configs}
use event_driven_rag_pipelin.Tasks.{BaseTask, EmbedTask}
use event_driven_rag_pipelin.TableNames.{build_chunk_table_suffix_map, parse_chunk_table_name}
use event_driven_rag_pipelin.Requeue.{
  RequeueResult, World, Publisher, sent, publish, by_post, task_of, publish_groups, publish_tasks,
  requeue_rows, requeue_parsed, scan_tables, started, requeue_missing_embeddings, requeued,
}

abbrev pub no_base : BaseTask
no_base = record { task_id = []; trace_id = none; parent_span_id = none; source_event_id = none }

-- a published task without its fresh id
abbrev pub view : Text × EmbedTask → Text × EmbedTask
view (k, t) = (k, record t { base = no_base })

abbrev pub sent_view : List (Text × EmbedTask) → List (Text × EmbedTask)
sent_view l = map view l

-- the messages for a table: one for each post, on the queue of the table's model
abbrev pub messages : Text → Text → EmbedConfig → List (ℕ × List Text) → List (Text × EmbedTask)
messages post_table name cfg groups =
    map (λ g. (cfg.queue, task_of post_table name cfg g no_base)) groups

abbrev pub rows_in : Outcome (List (Text × ℕ)) → List (Text × ℕ)
rows_in (returned rows) = rows
rows_in (raised e) = []

abbrev pub parsed : Text → Option (Text × Text × EmbedConfig)
parsed name = parse_chunk_table_name name (build_chunk_table_suffix_map embed_configs)

abbrev pub messages_for :
    Text → Option (Text × Text × EmbedConfig) → List (Text × ℕ) → List (Text × EmbedTask)
messages_for name none rows = []
messages_for name (some (post_table, task_type, cfg)) rows =
    messages post_table name cfg (by_post rows [])

abbrev pub chunks_for : Option (Text × Text × EmbedConfig) → List (Text × ℕ) → ℕ
chunks_for none rows = 0
chunks_for (some p) rows = length rows

abbrev pub expected : (Text → Outcome (List (Text × ℕ))) → List Text → List (Text × EmbedTask)
expected fetch [] = []
expected fetch (name ∷ tables) =
    messages_for name (parsed name) (rows_in (fetch name)) ++ expected fetch tables

abbrev pub expected_chunks : (Text → Outcome (List (Text × ℕ))) → List Text → ℕ
expected_chunks fetch [] = 0
expected_chunks fetch (name ∷ tables) =
    chunks_for (parsed name) (rows_in (fetch name)) + expected_chunks fetch tables

pub map-append :
    {A B : Type 0} (f : A → B) (xs ys : List A) → map f (xs ++ ys) ≡ map f xs ++ map f ys
map-append f [] ys = refl
map-append f (x ∷ xs) ys = ap (λ l. f x ∷ l) (map-append f xs ys)

module _ (d : Publisher EmbedTask) where
  publish_lem :
      (key : Text) (task : BaseTask → EmbedTask) (w : World EmbedTask) (u : Unit {0})
      → ((b : BaseTask) → view (key, task b) ≡ (key, task no_base))
      → (publish d key task w).0 ≡ returned u
      → sent_view (publish d key task w).1.published
        ≡ sent_view w.published ++ ((key, task no_base) ∷ [])
  unfolding publish
  publish_lem key task w u v h = by_failure (d.publish_fails m) h
    where
      base : BaseTask
      base = record {
        task_id = d.uuid w.drawn;
        trace_id = none;
        parent_span_id = none;
        source_event_id = none;
      }

      m : Text × EmbedTask
      m = (key, task base)

      by_failure :
          (o : Option Exception)
          → (sent o m (record w { drawn = w.drawn + 1 })).0 ≡ returned u
          → sent_view (sent o m (record w { drawn = w.drawn + 1 })).1.published
            ≡ sent_view w.published ++ ((key, task no_base) ∷ [])
      by_failure none k =
          map-append view w.published (m ∷ [])
          ∙ ap (λ x. sent_view w.published ++ (x ∷ [])) (v base)
      by_failure (some e) k = cc

  publish_groups_lem :
      (post_table name : Text) (cfg : EmbedConfig) (groups : List (ℕ × List Text))
      (w : World EmbedTask) (u : Unit {0})
      → (publish_groups d post_table name cfg groups w).0 ≡ returned u
      → sent_view (publish_groups d post_table name cfg groups w).1.published
        ≡ sent_view w.published ++ messages post_table name cfg groups
  unfolding publish_groups
  publish_groups_lem post_table name cfg [] w u h = sym (append-nil _)
  publish_groups_lem post_table name cfg (g ∷ groups) w u h =
      let (x, e, k) =
        >>=-eq-returned (publish d cfg.queue (task_of post_table name cfg g))
          (λ y. publish_groups d post_table name cfg groups) w h in
      ap (λ o. sent_view o.1.published)
        (>>=-returned (publish d cfg.queue (task_of post_table name cfg g))
          (λ y. publish_groups d post_table name cfg groups) w e)
      ∙ publish_groups_lem post_table name cfg groups
          (publish d cfg.queue (task_of post_table name cfg g) w).1 u k
      ∙ ap (λ l. l ++ messages post_table name cfg groups)
          (publish_lem cfg.queue (task_of post_table name cfg g) w x (λ b. refl) e)
      ∙ append_assoc (sent_view w.published) _ (messages post_table name cfg groups)

  abbrev Rows :
      RequeueResult
      → RequeueResult
      → World EmbedTask
      → World EmbedTask
      → Text
      → Option (Text × Text × EmbedConfig)
      → List (Text × ℕ)
      → Type 0
  Rows r r' w w' name o rows =
      (sent_view w'.published ≡ sent_view w.published ++ messages_for name o rows)
      × (r'.requeued_chunks ≡ r.requeued_chunks + chunks_for o rows)
      × (r'.tasks_published ≡ r.tasks_published + length (messages_for name o rows))
      × (r'.skipped_table_names ≡ r.skipped_table_names ++ (if is_some o then [] else name ∷ []))
      × (r'.tables_skipped ≡ r.tables_skipped + (if is_some o then 0 else 1))
      × (r'.tables_scanned ≡ r.tables_scanned)

  unwrap : {A : Type 0} {a b : A} → returned a ≡ returned b → a ≡ b
  unwrap e = cc

  requeue_rows_lem :
      (post_table name : Text) (ty : Text) (cfg : EmbedConfig) (r r' : RequeueResult)
      (rows : List (Text × ℕ)) (w : World EmbedTask)
      → (requeue_rows d post_table name cfg r rows w).0 ≡ returned r'
      → Rows r r' w
          (requeue_rows d post_table name cfg r rows w).1
          name
          (some (post_table, ty, cfg))
          rows
  unfolding requeue_rows publish_tasks by_post
  requeue_rows_lem post_table name ty cfg r r' [] w h =
      subst (λ x. Rows r x w w name (some (post_table, ty, cfg)) []) (unwrap h)
        (sym (append-nil _), omega arith, omega arith, sym (append-nil _), omega arith, refl)
  requeue_rows_lem post_table name ty cfg r r' (row ∷ rows) w h =
      let groups = by_post (row ∷ rows) [] in
      let (n, e, k) =
        >>=-eq-returned (publish_tasks d post_table name cfg (row ∷ rows))
          (λ m. pure (requeued d (length (row ∷ rows)) m r)) w h in
      let (u, e2, k2) =
        >>=-eq-returned (publish_groups d post_table name cfg groups) (λ y. pure (length groups)) w
          e in
      let sends = publish_groups_lem post_table name cfg groups w u e2 in
      let world =
        >>=-returned (publish_groups d post_table name cfg groups)
          (λ (y : Unit {0}). pure (length groups)) w e2 in
      let end =
        >>=-returned (publish_tasks d post_table name cfg (row ∷ rows))
          (λ m. pure (requeued d (length (row ∷ rows)) m r)) w e in
      let counted : length groups ≡ n = unwrap k2 in
      subst
        (λ x.
          Rows r x w (requeue_rows d post_table name cfg r (row ∷ rows) w).1 name
            (some (post_table, ty, cfg)) (row ∷ rows))
        (unwrap k)
        (
          ap (λ o. sent_view o.1.published) end ∙ ap (λ o. sent_view o.1.published) world ∙ sends,
          refl,
          ap (λ m. r.tasks_published + m)
              (sym counted
                ∙ sym (
                    length-map
                      (λ (g : ℕ × List Text). (cfg.queue, task_of post_table name cfg g no_base))
                      groups)),
          sym (append-nil _),
          omega arith,
          refl,
        )

  requeue_parsed_lem :
      (fetch : Text → Outcome (List (Text × ℕ))) (name : Text) (r r' : RequeueResult)
      (o : Option (Text × Text × EmbedConfig)) (w : World EmbedTask)
      → (requeue_parsed d fetch name r o w).0 ≡ returned r'
      → Rows r r' w (requeue_parsed d fetch name r o w).1 name o (rows_in (fetch name))
  requeue_parsed_lem fetch name r r' none w h =
      subst (λ x. Rows r x w w name none (rows_in (fetch name))) (unwrap h)
        (sym (append-nil _), omega arith, omega arith, refl, refl, refl)
  requeue_parsed_lem fetch name r r' (some (post_table, ty, cfg)) w h = by_fetch (fetch name) h
    where
      by_fetch :
          (f : Outcome (List (Text × ℕ)))
          → ((lift f >>= λ rows. requeue_rows d post_table name cfg r rows) w).0 ≡ returned r'
          → Rows r r' w
              ((lift f >>= λ rows. requeue_rows d post_table name cfg r rows) w).1
              name
              (some (post_table, ty, cfg))
              (rows_in f)
      by_fetch (returned rows) k = requeue_rows_lem post_table name ty cfg r r' rows w k
      by_fetch (raised e) k = cc

  -- What a run has published and reported, from one result to another.
  abbrev pub Scanned :
      (Text → Outcome (List (Text × ℕ)))
      → List Text
      → RequeueResult
      → RequeueResult
      → World EmbedTask
      → World EmbedTask
      → Type 0
  Scanned fetch tables r r' w w' =
      (sent_view w'.published ≡ sent_view w.published ++ expected fetch tables)
      × (r'.requeued_chunks ≡ r.requeued_chunks + expected_chunks fetch tables)
      × (r'.tasks_published ≡ r.tasks_published + length (expected fetch tables))
      × (r'.skipped_table_names
          ≡ r.skipped_table_names ++ keep (λ n. not (is_some (parsed n))) tables)
      × (r'.tables_skipped
          ≡ r.tables_skipped + length (keep (λ n. not (is_some (parsed n))) tables))
      × (r'.tables_scanned ≡ r.tables_scanned)

  skipped_head :
      (o : Option (Text × Text × EmbedConfig)) (name : Text) (rest : List Text)
      → ((if is_some o then [] else name ∷ []) ++ rest
          ≡ (if not (is_some o) then name ∷ rest else rest))
        × ((if is_some o then 0 else 1) + length rest
            ≡ length (if not (is_some o) then name ∷ rest else rest))
  skipped_head none name rest = (refl, omega arith)
  skipped_head (some p) name rest = (refl, omega arith)

  scan_tables_lem :
      (fetch : Text → Outcome (List (Text × ℕ))) (tables : List Text) (r r' : RequeueResult)
      (w : World EmbedTask)
      → (scan_tables d fetch tables r w).0 ≡ returned r'
      → Scanned fetch tables r r' w (scan_tables d fetch tables r w).1
  unfolding scan_tables
  scan_tables_lem fetch [] r r' w h =
      subst (λ x. Scanned fetch [] r x w w) (unwrap h)
        (sym (append-nil _), omega arith, omega arith, sym (append-nil _), omega arith, refl)
  scan_tables_lem fetch (name ∷ tables) r r' w h =
      let (x, e, k) =
        >>=-eq-returned (requeue_parsed d fetch name r (parsed name))
          (λ y. scan_tables d fetch tables y) w h in
      let end =
        >>=-returned (requeue_parsed d fetch name r (parsed name))
          (λ y. scan_tables d fetch tables y) w e in
      let (a, b, c, s, n, t) = requeue_parsed_lem fetch name r x (parsed name) w e in
      let (a2, b2, c2, s2, n2, t2) =
        scan_tables_lem fetch tables x r' (requeue_parsed d fetch name r (parsed name) w).1 k in
      let rest = keep (λ n. not (is_some (parsed n))) tables in
      let (sk, ct) = skipped_head (parsed name) name rest in
      let sum =
        length-append (messages_for name (parsed name) (rows_in (fetch name)))
          (expected fetch tables) in
      (
        ap (λ o. sent_view o.1.published) end
            ∙ a2
            ∙ ap (λ l. l ++ expected fetch tables) a
            ∙ append_assoc (sent_view w.published) _ (expected fetch tables),
        omega (arith, b, b2),
        omega (arith, c, c2, sum),
        s2
            ∙ ap (λ l. l ++ rest) s
            ∙ append_assoc r.skipped_table_names _ rest
            ∙ ap (λ l. r.skipped_table_names ++ l) sk,
        omega (arith, n, n2, ct),
        t2 ∙ t,
      )

  -- If a run returns, then it has published, table after table, one task for each post with un-embedded
  -- chunks on the queue of the table's model, and nothing for the tables whose names do not parse; it
  -- reports how many tables, chunks and tasks these were, and which tables it passed over.
  pub requeue_accounts :
      (fetch : Text → Outcome (List (Text × ℕ))) (tables : List Text) (r : RequeueResult)
      (w : World EmbedTask)
      → (requeue_missing_embeddings d fetch tables w).0 ≡ returned r
      → Scanned fetch tables (started d tables) r w (requeue_missing_embeddings d fetch tables w).1
  unfolding requeue_missing_embeddings
  requeue_accounts fetch tables r w h = scan_tables_lem fetch tables (started d tables) r w h
