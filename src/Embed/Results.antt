-- ===== src/Embed/Results.antt =====
-- What embed_handler.py's `embed_chunks` saves and announces.
use event_driven_rag_pipelin.Prelude.{
  ℕ, ◌≤◌, ◌≡◌, refl, sym, ap, ◌∙◌, ◌≢◌, Text, Option, none, some, List, [], ◌∷◌, ◌++◌, append_assoc,
  append-nil, map, arith, length, zip,
}
use mathlib.Core.List.{map-append}
use event_driven_rag_pipelin.Prelude.Action.{
  Exception, Outcome, returned, raised, lift, >>=-eq-returned, >>=-returned,
}
use event_driven_rag_pipelin.Tasks.{EmbedTask}
use event_driven_rag_pipelin.Embed.{
  EmbeddingRow, chunk_row, Event, embedding_completed, search_query_embedded, World, Deps, Triple,
  Group, or_blank, gather, seen, rows_of, add_row, group_from, completed_with, completed_event,
  save_batch, publish, fails_or, publish_groups, first_trace, persist, encode_all, embed_chunks,
}

module _ {V : Type 0} (model_name : Text) where
  -- The rows as they should be: the triples and the vectors in step.
  abbrev pub paired : List Triple → List V → List (EmbeddingRow V)
  paired triples vectors =
      map
        (λ (p : Triple × V). chunk_row p.0.chunk_id model_name p.1 (or_blank p.0.task.chunk_table))
        (zip triples vectors)

  add_row-returned :
      (r : EmbeddingRow V) (o : Outcome (List (EmbeddingRow V))) {rows : List (EmbeddingRow V)}
      → add_row r o ≡ returned rows
      → (l : List (EmbeddingRow V)) × (o ≡ returned l) × (rows ≡ r ∷ l)
  add_row-returned r (returned l) h = (l, refl, cc)
  add_row-returned r (raised e) h = cc

  pub rows_of-returned :
      (triples : List Triple) (vectors : List V) {rows : List (EmbeddingRow V)}
      → rows_of model_name triples vectors ≡ returned rows
      → (rows ≡ paired triples vectors) × (length triples ≤ length vectors)
  unfolding rows_of
  rows_of-returned [] vectors h = (cc, omega arith)
  rows_of-returned (t ∷ triples) [] h = cc
  rows_of-returned (t ∷ triples) (v ∷ vs) h =
      let (l, e, er) =
        add_row-returned (chunk_row t.chunk_id model_name v (or_blank t.task.chunk_table))
          (rows_of model_name triples vs) h in
      let (same, fits) = rows_of-returned triples vs e in
      (
        er ∙ ap (λ k. chunk_row t.chunk_id model_name v (or_blank t.task.chunk_table) ∷ k) same,
        omega (arith, fits),
      )

abbrev pub event_ids : Event → List Text
event_ids (embedding_completed e) = e.chunk_ids
event_ids (search_query_embedded e) = []

abbrev pub group_ids : List Group → List (List Text)
group_ids groups = map (λ g. g.chunk_ids) groups

module _ {V : Type 0} (d : Deps V) where
  pub save_batch-returned :
      (rows : List (EmbeddingRow V)) (w : World V) {u : Unit {0}}
      → (save_batch d rows w).0 ≡ returned u
      → (save_batch d rows w).1 ≡ record w { saved = w.saved ++ rows }
  unfolding save_batch
  save_batch-returned rows w h = saves (d.save_fails rows) h
    where
      saves :
          (o : Option Exception) {u : Unit {0}}
          → (fails_or o (λ (x : World V). record x { saved = x.saved ++ rows }) w).0 ≡ returned u
          → (fails_or o (λ (x : World V). record x { saved = x.saved ++ rows }) w).1
            ≡ record w { saved = w.saved ++ rows }
      saves none h = refl
      saves (some e) h = cc

  pub publish-returned :
      (e : Event) (w : World V) {u : Unit {0}}
      → (publish d e w).0 ≡ returned u
      → (publish d e w).1 ≡ record w { published = w.published ++ (e ∷ []) }
  unfolding publish
  publish-returned event w h = announces (d.publish_fails event) h
    where
      announces :
          (o : Option Exception) {u : Unit {0}}
          → (fails_or o (λ (x : World V). record x { published = x.published ++ (event ∷ []) }) w).0
            ≡ returned u
          → (fails_or o (λ (x : World V). record x { published = x.published ++ (event ∷ []) }) w).1
            ≡ record w { published = w.published ++ (event ∷ []) }
      announces none h = refl
      announces (some e) h = cc

  completed_with-ids :
      (m : Text) (a b : Option Text) (ids : List Text) (p : Option ℕ) (pt ct : Option Text)
      {e : Event}
      → completed_with m a b ids p pt ct ≡ returned e
      → event_ids e ≡ ids
  completed_with-ids m a b ids (some p) (some pt) (some ct) h = ground arith
  completed_with-ids m a b ids none pt ct h = cc
  completed_with-ids m a b ids (some p) none ct h = cc
  completed_with-ids m a b ids (some p) (some pt) none h = cc

  -- the events of a run that returns carry the chunk ids of the groups, in order
  publish_groups-returned :
      (m : Text) (ids : Option Text × Option Text) (groups : List Group) (w : World V)
      {u : Unit {0}}
      → (publish_groups d m ids groups w).0 ≡ returned u
      → ((publish_groups d m ids groups w).1.saved ≡ w.saved)
        × (map event_ids (publish_groups d m ids groups w).1.published
            ≡ map event_ids w.published ++ group_ids groups)
  unfolding publish_groups
  publish_groups-returned m ids [] w h = (refl, sym (append-nil _))
  publish_groups-returned m ids (g ∷ groups) w h =
      let (event, e1, h1) = >>=-eq-returned (lift (completed_event m ids g)) _ w h in
      let (u, e2, h2) = >>=-eq-returned (publish d event) _ w h1 in
      let (saves, announces) = publish_groups-returned m ids groups (publish d event w).1 h2 in
      let world : (publish d event w).1 ≡ record w { published = w.published ++ (event ∷ []) } =
        publish-returned event w e2 in
      let step : publish_groups d m ids (g ∷ groups) w
          ≡ publish_groups d m ids groups (publish d event w).1 =
        >>=-returned (lift (completed_event m ids g)) _ w e1
        ∙ >>=-returned (publish d event) _ w e2 in
      rw step (
        saves ∙ ap (λ x. x.saved) world,
        announces
            ∙ ap (λ x. map event_ids x.published ++ group_ids groups) world
            ∙ append_event w event g (event_of m ids g e1) groups,
      )
    where
      append_event :
          (w : World V) (event : Event) (g : Group)
          → event_ids event ≡ g.chunk_ids
          → (groups : List Group)
          → map event_ids (w.published ++ (event ∷ [])) ++ group_ids groups
            ≡ map event_ids w.published ++ (g.chunk_ids ∷ group_ids groups)
      append_event w event g e groups = simp (map-append, append_assoc, e)

      event_of :
          (m : Text) (ids : Option Text × Option Text) (g : Group) {event : Event}
          → completed_event m ids g ≡ returned event
          → event_ids event ≡ g.chunk_ids
      event_of m ids g e =
          unfold completed_event in
          completed_with-ids m ids.0 ids.1 g.chunk_ids g.post_id g.post_table g.chunk_table e

  persist-world :
      (m : Text) (triples : List Triple) (f : List EmbedTask) (vectors : List V) (w : World V)
      {r : List EmbedTask × List EmbedTask}
      → (persist d m triples f vectors w).0 ≡ returned r
      → ((persist d m triples f vectors w).1.saved ≡ w.saved ++ paired m triples vectors)
        × (map event_ids (persist d m triples f vectors w).1.published
            ≡ map event_ids w.published ++ group_ids (group_from triples []))
        × (length triples ≤ length vectors)
  unfolding persist
  persist-world m triples f vectors w {r} h =
      let (rows, e1, h1) = >>=-eq-returned (lift (rows_of m triples vectors)) _ w h in
      let (u, e2, h2) = >>=-eq-returned (save_batch d rows) _ w h1 in
      let ids : Option Text × Option Text = d.propagate_trace (first_trace d triples) in
      let (v, e3, h3) =
        >>=-eq-returned (publish_groups d m ids (group_from triples [])) _ (save_batch d rows w).1
          h2 in
      let (same, fits) = rows_of-returned m triples vectors e1 in
      let world = save_batch-returned rows w e2 in
      let (saves, announces) =
        publish_groups-returned m ids (group_from triples []) (save_batch d rows w).1 e3 in
      let end : persist d m triples f vectors w ≡ (
        returned (seen triples [], f),
        (publish_groups d m ids (group_from triples []) (save_batch d rows w).1).1,
      ) =
        >>=-returned (lift (rows_of m triples vectors)) _ w e1
        ∙ >>=-returned (save_batch d rows) _ w e2
        ∙ >>=-returned (publish_groups d m ids (group_from triples [])) _ (save_batch d rows w).1
            e3 in
      rw end (
        saves ∙ ap (λ x. x.saved) world ∙ ap (λ l. w.saved ++ l) same,
        announces ∙ ap (λ x. map event_ids x.published ++ group_ids (group_from triples [])) world,
        fits,
      )

  pub encode_all-world :
      (tasks : List EmbedTask) (m : Text) (encode : List Text → Outcome (List V))
      (triples : List Triple) (f : List EmbedTask) (vectors : List V) (w : World V)
      → triples ≢ []
      → encode (map (λ x. x.content) triples) ≡ returned vectors
      → encode_all d m encode tasks triples f w ≡ persist d m triples f vectors w
  encode_all-world tasks m encode [] f vectors w n e = absurd (n refl)
  encode_all-world tasks m encode (t ∷ triples) f vectors w n e = rw e

-- When some text was fetched, the encoder returns and the call returns, then there was a vector for
-- every text, one row per text was saved, in order and with the vector at its position, and one
-- event per (post, chunk table) group was published, carrying the chunk ids of its group.
pub embed_chunks-persists :
    {V : Type 0} (d : Deps V) (tasks : List EmbedTask) (m : Text)
    (encode : List Text → Outcome (List V)) (vectors : List V) (w : World V)
    {r : List EmbedTask × List EmbedTask}
    → (gather d tasks).0 ≢ []
    → encode (map (λ x. x.content) (gather d tasks).0) ≡ returned vectors
    → (embed_chunks d tasks m encode w).0 ≡ returned r
    → let w' = (embed_chunks d tasks m encode w).1 in
      (w'.saved ≡ w.saved ++ paired m (gather d tasks).0 vectors)
      × (map event_ids w'.published
          ≡ map event_ids w.published ++ group_ids (group_from (gather d tasks).0 []))
      × (length (gather d tasks).0 ≤ length vectors)
unfolding embed_chunks
embed_chunks-persists d tasks m encode vectors w {r} n e h =
    let same =
      encode_all-world d tasks m encode (gather d tasks).0 (gather d tasks).1 vectors w n e in
    rw same
      (persist-world d m (gather d tasks).0 (gather d tasks).1 vectors w {r = r} (rw same at h))

-- If the store refuses the rows, the exception leaves the handler and nothing is saved or announced.
pub save_failure :
    {V : Type 0} (d : Deps V) (tasks : List EmbedTask) (m : Text)
    (encode : List Text → Outcome (List V)) (vectors : List V) (w : World V)
    (rows : List (EmbeddingRow V)) (x : Exception)
    → (gather d tasks).0 ≢ []
    → encode (map (λ x. x.content) (gather d tasks).0) ≡ returned vectors
    → rows_of m (gather d tasks).0 vectors ≡ returned rows
    → d.save_fails rows ≡ some x
    → embed_chunks d tasks m encode w ≡ (raised x, w)
unfolding embed_chunks persist save_batch
save_failure d tasks m encode vectors w rows x n e built fails =
    encode_all-world d tasks m encode (gather d tasks).0 (gather d tasks).1 vectors w n e
    ∙ rw (built, fails)
