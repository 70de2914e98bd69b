-- ===== src/Requeue/Backfill.antt =====
-- What a whole run of chunk_backfill_service.py publishes and reports.
use event_driven_rag_pipelin.Prelude.{
  ℕ, ◌+◌, ◌≡◌, refl, sym, ap, ◌∙◌, subst, Text, text, Option, none, some, List, [], ◌∷◌, ◌++◌,
  append-nil, append_assoc, map, length, length-append, length-map, arith,
}
use event_driven_rag_pipelin.Prelude.Action.{
  Exception, Outcome, returned, raised, Action, lift, ◌>>=◌, >>=-eq-returned, >>=-returned,
}
use event_driven_rag_pipelin.Tasks.{ChunkTask}
use event_driven_rag_pipelin.Requeue.{
  World, Publisher, sent, publish, ChunkBackfillResult, summary_task, publish_posts, scan_posts,
  requeue_missing_chunks,
}
use event_driven_rag_pipelin.Requeue.Runs.{no_base, map-append}

-- a published task without its fresh id
abbrev pub view_chunk : Text × ChunkTask → Text × ChunkTask
view_chunk (k, t) = (k, record t { base = no_base })

abbrev pub summary_messages : Text → List ℕ → List (Text × ChunkTask)
summary_messages post_table post_ids =
    map (λ p. (text "cpu.chunk.post", summary_task post_table p no_base)) post_ids

abbrev pub posts_in : Outcome (List ℕ) → List ℕ
posts_in (returned ids) = ids
posts_in (raised e) = []

abbrev pub all_messages : (Text → Outcome (List ℕ)) → List Text → List (Text × ChunkTask)
all_messages fetch [] = []
all_messages fetch (name ∷ tables) =
    summary_messages name (posts_in (fetch name)) ++ all_messages fetch tables

module _ (d : Publisher ChunkTask) where
  -- What a part of a run has published and counted.
  abbrev pub Backfills :
      List (Text × ChunkTask)
      → ChunkBackfillResult
      → ChunkBackfillResult
      → World ChunkTask
      → World ChunkTask
      → Type 0
  Backfills messages r r' w w' =
      (map view_chunk w'.published ≡ map view_chunk w.published ++ messages)
      × (r'.tasks_published ≡ r.tasks_published + length messages)
      × (r'.tables_scanned ≡ r.tables_scanned)

  unwrap : {A : Type 0} {a b : A} → returned a ≡ returned b → a ≡ b
  unwrap e = cc

  publish_lem :
      (post_table : Text) (p : ℕ) (w : World ChunkTask) (u : Unit {0})
      → (publish d (text "cpu.chunk.post") (summary_task post_table p) w).0 ≡ returned u
      → map view_chunk (publish d (text "cpu.chunk.post") (summary_task post_table p) w).1.published
        ≡ map view_chunk w.published ++ summary_messages post_table (p ∷ [])
  unfolding publish
  publish_lem post_table p w u h = by_failure (d.publish_fails m) h
    where
      m : Text × ChunkTask
      m = (
        text "cpu.chunk.post",
        summary_task post_table p (record {
          task_id = d.uuid w.drawn;
          trace_id = none;
          parent_span_id = none;
          source_event_id = none;
        }),
      )

      by_failure :
          (o : Option Exception)
          → (sent o m (record w { drawn = w.drawn + 1 })).0 ≡ returned u
          → map view_chunk (sent o m (record w { drawn = w.drawn + 1 })).1.published
            ≡ map view_chunk w.published ++ summary_messages post_table (p ∷ [])
      by_failure none k = map-append view_chunk w.published (m ∷ [])
      by_failure (some e) k = cc

  publish_posts_lem :
      (post_table : Text) (post_ids : List ℕ) (r r' : ChunkBackfillResult) (w : World ChunkTask)
      → (publish_posts d post_table post_ids r w).0 ≡ returned r'
      → Backfills
          (summary_messages post_table post_ids)
          r
          r'
          w
          (publish_posts d post_table post_ids r w).1
        × (r'.posts_scanned ≡ r.posts_scanned)
  unfolding publish_posts
  publish_posts_lem post_table [] r r' w h =
      subst (λ x. Backfills [] r x w w × (x.posts_scanned ≡ r.posts_scanned)) (unwrap h)
        ((sym (append-nil _), omega arith, refl), refl)
  publish_posts_lem post_table (p ∷ post_ids) r r' w h =
      let counted : ChunkBackfillResult = record r { tasks_published = r.tasks_published + 1 } in
      let (u, e, k) =
        >>=-eq-returned (publish d (text "cpu.chunk.post") (summary_task post_table p))
          (λ y. publish_posts d post_table post_ids counted) w h in
      let end =
        >>=-returned (publish d (text "cpu.chunk.post") (summary_task post_table p))
          (λ y. publish_posts d post_table post_ids counted) w e in
      let ((a, b, c), n) =
        publish_posts_lem post_table post_ids counted r'
          (publish d (text "cpu.chunk.post") (summary_task post_table p) w).1 k in
      (
        (
          ap (λ o. map view_chunk o.1.published) end
              ∙ a
              ∙ ap (λ l. l ++ summary_messages post_table post_ids) (publish_lem post_table p w u e)
              ∙ append_assoc (map view_chunk w.published) _ (summary_messages post_table post_ids),
          omega (arith, b),
          c,
        ),
        n,
      )

  scan_posts_lem :
      (fetch : Text → Outcome (List ℕ)) (tables : List Text) (r r' : ChunkBackfillResult)
      (w : World ChunkTask)
      → (scan_posts d fetch tables r w).0 ≡ returned r'
      → Backfills (all_messages fetch tables) r r' w (scan_posts d fetch tables r w).1
        × (r'.posts_scanned ≡ r.posts_scanned + length (all_messages fetch tables))
  unfolding scan_posts
  scan_posts_lem fetch [] r r' w h =
      subst (λ x. Backfills [] r x w w × (x.posts_scanned ≡ r.posts_scanned + 0)) (unwrap h)
        ((sym (append-nil _), omega arith, refl), omega arith)
  scan_posts_lem fetch (name ∷ tables) r r' w h =
      by_fetch (fetch name) h (scan_posts_lem fetch tables)
    where
      after : List ℕ → Action (World ChunkTask) ChunkBackfillResult
      after ids =
          publish_posts d name ids (record r { posts_scanned = r.posts_scanned + length ids })

      by_fetch :
          (f : Outcome (List ℕ))
          → ((lift f >>= λ ids. after ids >>= λ x. scan_posts d fetch tables x) w).0 ≡ returned r'
          → ((x x' : ChunkBackfillResult) (v : World ChunkTask)
              → (scan_posts d fetch tables x v).0 ≡ returned x'
              → Backfills (all_messages fetch tables) x x' v (scan_posts d fetch tables x v).1
                × (x'.posts_scanned ≡ x.posts_scanned + length (all_messages fetch tables)))
          → Backfills
              (summary_messages name (posts_in f) ++ all_messages fetch tables)
              r
              r'
              w
              ((lift f >>= λ ids. after ids >>= λ x. scan_posts d fetch tables x) w).1
            × (r'.posts_scanned
                ≡ r.posts_scanned
                  + length (summary_messages name (posts_in f) ++ all_messages fetch tables))
      by_fetch (returned ids) k ih =
          let (x, e, k2) = >>=-eq-returned (after ids) (λ y. scan_posts d fetch tables y) w k in
          let end = >>=-returned (after ids) (λ y. scan_posts d fetch tables y) w e in
          let ((a, b, c), n) = publish_posts_lem name ids _ x w e in
          let ((a2, b2, c2), n2) = ih x r' (after ids w).1 k2 in
          let sum = length-append (summary_messages name ids) (all_messages fetch tables) in
          let posts =
            length-map {B = Text × ChunkTask}
              (λ (p : ℕ). (text "cpu.chunk.post", summary_task name p no_base)) ids in
          (
            (
              ap (λ o. map view_chunk o.1.published) end
                  ∙ a2
                  ∙ ap (λ l. l ++ all_messages fetch tables) a
                  ∙ append_assoc (map view_chunk w.published) _ (all_messages fetch tables),
              omega (arith, b, b2, sum),
              c2 ∙ c,
            ),
            omega (arith, n, n2, sum, posts),
          )
      by_fetch (raised e) k ih = cc

  -- If a backfill returns, then it has published, table after table, one summary_title task for each
  -- post with a summary, and it reports as many posts and as many tasks, and the number of tables.
  pub backfill_accounts :
      (fetch : Text → Outcome (List ℕ)) (tables : List Text) (r : ChunkBackfillResult)
      (w : World ChunkTask)
      → (requeue_missing_chunks d fetch tables w).0 ≡ returned r
      → (map view_chunk (requeue_missing_chunks d fetch tables w).1.published
          ≡ map view_chunk w.published ++ all_messages fetch tables)
        × (r.tasks_published ≡ length (all_messages fetch tables))
        × (r.posts_scanned ≡ length (all_messages fetch tables))
        × (r.tables_scanned ≡ length tables)
  unfolding requeue_missing_chunks
  backfill_accounts fetch tables r w h =
      let ((a, b, c), n) = scan_posts_lem fetch tables _ r w h in
      (a, omega (arith, b), omega (arith, n), c)
