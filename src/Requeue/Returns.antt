-- ===== src/Requeue/Returns.antt =====
-- When a run of requeue_service.py returns.
use event_driven_rag_pipelin.Prelude.{
  ℕ, ◌+◌, ◌≡◌, refl, ap, ◌∙◌, Text, Option, none, some, List, [], ◌∷◌,
}
use event_driven_rag_pipelin.Prelude.Action.{Outcome, returned, Action, lift, ◌>>=◌, >>=-returned}
use event_driven_rag_pipelin.Config.{EmbedConfig}
use event_driven_rag_pipelin.Tasks.{BaseTask, EmbedTask}
use event_driven_rag_pipelin.Requeue.{
  RequeueResult, World, Publisher, sent, publish, by_post, task_of, publish_groups, publish_tasks,
  requeue_rows, requeue_parsed, scan_tables, started, requeue_missing_embeddings,
}
use event_driven_rag_pipelin.Requeue.Runs.{parsed, Scanned, requeue_accounts}

module _ (d : Publisher EmbedTask) (sends : (m : Text × EmbedTask) → d.publish_fails m ≡ none) where
  abbrev Returns : {A : Type 0} → Outcome A → Type 0
  Returns {A} r = (a : A) × (r ≡ returned a)

  publish-Returns :
      (key : Text) (task : BaseTask → EmbedTask) (w : World EmbedTask)
      → Returns (publish d key task w).0
  unfolding publish
  publish-Returns key task w =
      (tt, ap (λ o. (sent o m (record w { drawn = w.drawn + 1 })).0) (sends m))
    where
      m : Text × EmbedTask
      m = (
        key,
        task (record {
          task_id = d.uuid w.drawn;
          trace_id = none;
          parent_span_id = none;
          source_event_id = none;
        }),
      )

  >>=-Returns :
      {A B : Type 0} (m : Action (World EmbedTask) A) (f : A → Action (World EmbedTask) B)
      (w : World EmbedTask)
      → Returns (m w).0
      → ((a : A) (v : World EmbedTask) → Returns (f a v).0)
      → Returns ((m >>= f) w).0
  >>=-Returns m f w (a, e) h =
      let (b, k) = h a (m w).1 in (b, ap (λ o. o.0) (>>=-returned m f w e) ∙ k)

  publish_groups-Returns :
      (post_table name : Text) (cfg : EmbedConfig) (groups : List (ℕ × List Text))
      (w : World EmbedTask)
      → Returns (publish_groups d post_table name cfg groups w).0
  unfolding publish_groups
  publish_groups-Returns post_table name cfg [] w = (tt, refl)
  publish_groups-Returns post_table name cfg (g ∷ groups) w =
      >>=-Returns (publish d cfg.queue (task_of post_table name cfg g)) _ w
        (publish-Returns cfg.queue (task_of post_table name cfg g) w)
        (λ a v. publish_groups-Returns post_table name cfg groups v)

  requeue_rows-Returns :
      (post_table name : Text) (cfg : EmbedConfig) (r : RequeueResult) (rows : List (Text × ℕ))
      (w : World EmbedTask)
      → Returns (requeue_rows d post_table name cfg r rows w).0
  unfolding requeue_rows publish_tasks
  requeue_rows-Returns post_table name cfg r [] w = (r, refl)
  requeue_rows-Returns post_table name cfg r (row ∷ rows) w =
      >>=-Returns (publish_tasks d post_table name cfg (row ∷ rows)) _ w
        (>>=-Returns (publish_groups d post_table name cfg (by_post (row ∷ rows) [])) _ w
          (publish_groups-Returns post_table name cfg (by_post (row ∷ rows) []) w)
          (λ a v. (_, refl)))
        (λ a v. (_, refl))

  module _ (fetch : Text → Outcome (List (Text × ℕ)))
      (reads : (name : Text) → Returns (fetch name)) where
    requeue_parsed-Returns :
        (name : Text) (r : RequeueResult) (o : Option (Text × Text × EmbedConfig))
        (w : World EmbedTask)
        → Returns (requeue_parsed d fetch name r o w).0
    requeue_parsed-Returns name r none w = (_, refl)
    requeue_parsed-Returns name r (some (post_table, ty, cfg)) w =
        >>=-Returns (lift (fetch name)) (λ rows. requeue_rows d post_table name cfg r rows) w
          (reads name) (λ rows v. requeue_rows-Returns post_table name cfg r rows v)

    scan_tables-Returns :
        (tables : List Text) (r : RequeueResult) (w : World EmbedTask)
        → Returns (scan_tables d fetch tables r w).0
    unfolding scan_tables
    scan_tables-Returns [] r w = (r, refl)
    scan_tables-Returns (name ∷ tables) r w =
        >>=-Returns (requeue_parsed d fetch name r (parsed name))
          (λ x. scan_tables d fetch tables x) w (requeue_parsed-Returns name r (parsed name) w)
          (λ x v. scan_tables-Returns tables x v)

    -- If every table can be read and every task published, then a run returns, and it has published,
    -- table after table, one task for each post with un-embedded chunks on the queue of the table's
    -- model, and nothing for the tables whose names do not parse; it reports how many tables, chunks and
    -- tasks these were, and which tables it passed over.
    pub requeue-Scanned :
        (tables : List Text) (w : World EmbedTask)
        → (r : RequeueResult) × ((requeue_missing_embeddings d fetch tables w).0 ≡ returned r)
          × Scanned d fetch tables
              (started d tables)
              r
              w
              (requeue_missing_embeddings d fetch tables w).1
    unfolding requeue_missing_embeddings
    requeue-Scanned tables w =
        let (r, e) = scan_tables-Returns tables (started d tables) w in
        (r, e, requeue_accounts d fetch tables r w e)
