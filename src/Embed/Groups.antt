-- ===== src/Embed/Groups.antt =====
-- Which events embed_handler.py's `embed_chunks` publishes: one for each post and chunk table.
use event_driven_rag_pipelin.Prelude.{
  ℕ, ◌≡◌, refl, sym, ap, ◌∙◌, subst, ◌≢◌, ◌↔◌, Text, text_eq, text_eq_iff, Bool, true, false, ◌&&◌,
  Option, none, some, List, [], ◌∷◌, ◌++◌, append_assoc, append-nil, map, arith, ◌==◌, ==_iff,
  if◌then◌else◌, keep, Bool-cases, inl, inr,
}
use event_driven_rag_pipelin.Prelude.Action.{Outcome, returned, lift, >>=-eq-returned, >>=-returned}
use event_driven_rag_pipelin.Tasks.{EmbedTask}
use event_driven_rag_pipelin.Embed.{
  Event, embedding_completed, search_query_embedded, World, Deps, Triple, Group, option_eq, gather,
  rows_of, same_group, add_chunk, group_from, completed_with, completed_event, save_batch, publish,
  publish_groups, first_trace, persist, embed_chunks,
}
use event_driven_rag_pipelin.Embed.Results.{save_batch-returned, publish-returned, encode_all-world}

option_eq_iff :
    {A : Type 0} (eq : A → A → Bool)
    → ((a b : A) → (eq a b ≡ true) ↔ (a ≡ b))
    → (o p : Option A) → (option_eq eq o p ≡ true) ↔ (o ≡ p)
option_eq_iff eq h none none = (λ _. refl, λ _. refl)
option_eq_iff eq h none (some b) = (λ e. cc, λ e. cc)
option_eq_iff eq h (some a) none = (λ e. cc, λ e. cc)
option_eq_iff eq h (some a) (some b) = (λ e. ap some ((h a b).0 e), λ e. (h a b).1 (ground arith))

-- the chunk ids announced for a post and a chunk table
abbrev pub in_key : Option ℕ → Option Text → Triple → Bool
in_key p c t = option_eq (λ m n. m == n) p t.task.post_id && option_eq text_eq c t.task.chunk_table

abbrev has_key : Option ℕ → Option Text → Group → Bool
has_key p c g = option_eq (λ m n. m == n) p g.post_id && option_eq text_eq c g.chunk_table

key_facts :
    (p : Option ℕ) (c : Option Text) (t : Triple) (g : Group)
    → (same_group t g ≡ true → has_key p c g ≡ in_key p c t)
      × (same_group t g ≡ false → in_key p c t ≡ true → has_key p c g ≡ false)
key_facts p c t g =
    let posts = option_eq_iff (λ (m : ℕ) (n : ℕ). m == n) ==_iff in
    let tables = option_eq_iff text_eq text_eq_iff in
    (
      λ s. ground (arith, posts g.post_id t.task.post_id, tables g.chunk_table t.task.chunk_table),
      λ s k. ground (
        arith,
        posts g.post_id t.task.post_id,
        tables g.chunk_table t.task.chunk_table,
        posts p g.post_id,
        tables c g.chunk_table,
        posts p t.task.post_id,
        tables c t.task.chunk_table,
      ),
    )

-- what a group announces
abbrev pub group_body : Group → Option Text × List Text
group_body g = (g.post_table, g.chunk_ids)

abbrev bodies_for : Option ℕ → Option Text → List Group → List (Option Text × List Text)
bodies_for p c groups = map group_body (keep (has_key p c) groups)

-- one more text: it goes to the end of the group that is there, or opens one
abbrev extend : List (Option Text × List Text) → Triple → List (Option Text × List Text)
extend [] t = (t.task.post_table, t.chunk_id ∷ []) ∷ []
extend ((table, ids) ∷ rest) t = (table, ids ++ (t.chunk_id ∷ [])) ∷ rest

abbrev extend_if : Bool → List (Option Text × List Text) → Triple → List (Option Text × List Text)
extend_if b l t = if b then extend l t else l

bodies_for-add_chunk :
    (p : Option ℕ) (c : Option Text) (t : Triple) (groups : List Group)
    → bodies_for p c (add_chunk t groups) ≡ extend_if (in_key p c t) (bodies_for p c groups) t
unfolding add_chunk
bodies_for-add_chunk p c t [] = ground arith
bodies_for-add_chunk p c t (g ∷ groups) =
    let facts = key_facts p c t g in
    elim (Bool-cases (same_group t g)) [
      | inl s ↦ rw s (rw (facts.0 s) (own (in_key p c t)))
      | inr s ↦ rw s (
          other_group (has_key p c g) (in_key p c t) _ (facts.1 s)
            (bodies_for-add_chunk p c t groups))
    ]
  where
    own :
        (b : Bool)
        → map group_body (
            if b
            then record g { chunk_ids = g.chunk_ids ++ (t.chunk_id ∷ []) }
              ∷ keep (has_key p c) groups
            else keep (has_key p c) groups)
          ≡ extend_if b
              (map group_body
                (if b then g ∷ keep (has_key p c) groups else keep (has_key p c) groups))
              t
    own true = refl
    own false = refl

    other_group :
        (k b : Bool) (l : List Group)
        → (b ≡ true → k ≡ false)
        → map group_body l ≡ extend_if b (bodies_for p c groups) t
        → map group_body (if k then g ∷ l else l)
          ≡ extend_if b
              (map group_body
                (if k then g ∷ keep (has_key p c) groups else keep (has_key p c) groups))
              t
    other_group true true l h e = cc (h refl)
    other_group true false l h e = ap (λ x. group_body g ∷ x) e
    other_group false b l h e = e

abbrev extend_all : List (Option Text × List Text) → List Triple → List (Option Text × List Text)
extend_all l [] = l
extend_all l (t ∷ triples) = extend_all (extend l t) triples

bodies_for-group_from :
    (p : Option ℕ) (c : Option Text) (triples : List Triple) (groups : List Group)
    → bodies_for p c (group_from triples groups)
      ≡ extend_all (bodies_for p c groups) (keep (in_key p c) triples)
unfolding group_from
bodies_for-group_from p c [] groups = refl
bodies_for-group_from p c (t ∷ triples) groups =
    bodies_for-group_from p c triples (add_chunk t groups)
    ∙ ap (λ l. extend_all l (keep (in_key p c) triples)) (bodies_for-add_chunk p c t groups)
    ∙ one_more (in_key p c t)
  where
    one_more :
        (b : Bool)
        → extend_all (extend_if b (bodies_for p c groups) t) (keep (in_key p c) triples)
          ≡ extend_all
              (bodies_for p c groups)
              (if b then t ∷ keep (in_key p c) triples else keep (in_key p c) triples)
    one_more true = refl
    one_more false = refl

-- what the one event for some texts announces, if there are any
abbrev pub as_one : List Triple → List (Option Text × List Text)
as_one [] = []
as_one (t ∷ triples) = (t.task.post_table, map (λ (x : Triple). x.chunk_id) (t ∷ triples)) ∷ []

extend_all-as_one : (triples : List Triple) → extend_all [] triples ≡ as_one triples
extend_all-as_one [] = refl
extend_all-as_one (t ∷ triples) = grows (t.chunk_id ∷ []) triples
  where
    grows :
        (ids : List Text) (rest : List Triple)
        → extend_all ((t.task.post_table, ids) ∷ []) rest
          ≡ (t.task.post_table, ids ++ map (λ (x : Triple). x.chunk_id) rest) ∷ []
    grows ids [] = ap (λ l. (t.task.post_table, l) ∷ []) (sym (append-nil ids))
    grows ids (x ∷ rest) =
        grows (ids ++ (x.chunk_id ∷ [])) rest
        ∙ ap (λ l. (t.task.post_table, l) ∷ []) (append_assoc ids (x.chunk_id ∷ []) _)

-- the events for a post and a chunk table, and what an event announces
abbrev pub is_for : ℕ → Text → Event → Bool
is_for p c (embedding_completed e) = (p == e.post_id) && text_eq c e.chunk_table
is_for p c (search_query_embedded e) = false

abbrev pub event_body : Event → Option Text × List Text
event_body (embedding_completed e) = (some e.post_table, e.chunk_ids)
event_body (search_query_embedded e) = (none, [])

abbrev pub events_for : ℕ → Text → List Event → List (Option Text × List Text)
events_for p c events = map event_body (keep (is_for p c) events)

-- an event is for the post and the table of its group and announces what the group holds
abbrev Announces : Event → Group → Type 0
Announces event g =
    ((p : ℕ) (c : Text) → is_for p c event ≡ has_key (some p) (some c) g)
    × (event_body event ≡ group_body g)

completed_event-Announces :
    (m : Text) (ids : Option Text × Option Text) (g : Group) {event : Event}
    → completed_event m ids g ≡ returned event
    → Announces event g
unfolding completed_event
completed_event-Announces m ids g h = by_fields g.post_id g.post_table g.chunk_table h
  where
    by_fields :
        (post : Option ℕ) (post_table chunk_table : Option Text) {event : Event}
        → completed_with m ids.0 ids.1 g.chunk_ids post post_table chunk_table ≡ returned event
        → ((p : ℕ) (c : Text)
            → is_for p c event
              ≡ option_eq (λ m n. m == n) (some p) post && option_eq text_eq (some c) chunk_table)
          × (event_body event ≡ (post_table, g.chunk_ids))
    by_fields (some p) (some pt) (some ct) {event} h =
        subst
          (λ x.
            ((q : ℕ) (c : Text) → is_for q c x ≡ (q == p) && text_eq c ct)
            × (event_body x ≡ (some pt, g.chunk_ids)))
          made (λ q c. refl, refl)
      where
        made :
            embedding_completed (record {
              post_id = p;
              post_table = pt;
              chunk_ids = g.chunk_ids;
              chunk_table = ct;
              model_name = m;
              trace_id = ids.0;
              parent_span_id = ids.1;
            })
            ≡ event
        made = cc
    by_fields none pt ct h = cc
    by_fields (some p) none ct h = cc
    by_fields (some p) (some pt) none h = cc

module _ {V : Type 0} (d : Deps V) where
  publish_groups-events :
      (m : Text) (ids : Option Text × Option Text) (groups : List Group) (w : World V)
      {u : Unit {0}}
      → (publish_groups d m ids groups w).0 ≡ returned u
      → (events : List Event) × ((publish_groups d m ids groups w).1.published
          ≡ w.published ++ events)
        × ((p : ℕ) (c : Text) → events_for p c events ≡ bodies_for (some p) (some c) groups)
  unfolding publish_groups
  publish_groups-events m ids [] w h = ([], sym (append-nil _), λ p c. refl)
  publish_groups-events m ids (g ∷ groups) w h =
      let (event, e1, h1) = >>=-eq-returned (lift (completed_event m ids g)) _ w h in
      let (u, e2, h2) = >>=-eq-returned (publish d event) _ w h1 in
      let (events, announces, same) = publish_groups-events m ids groups (publish d event w).1 h2 in
      let step : publish_groups d m ids (g ∷ groups) w
          ≡ publish_groups d m ids groups (publish d event w).1 =
        >>=-returned (lift (completed_event m ids g)) _ w e1
        ∙ >>=-returned (publish d event) _ w e2 in
      let (own, body) = completed_event-Announces m ids g e1 in
      (
        event ∷ events,
        ap (λ r. r.1.published) step
            ∙ announces
            ∙ ap (λ (x : World V). x.published ++ events) (publish-returned d event w e2)
            ∙ append_assoc w.published (event ∷ []) events,
        λ p c.
            more p c event body (is_for p c event) (has_key (some p) (some c) g) (own p c) events
              (same p c),
      )
    where
      more :
          (p : ℕ) (c : Text) (event : Event)
          → event_body event ≡ group_body g
          → (b k : Bool) → b ≡ k
          → (events : List Event) → events_for p c events ≡ bodies_for (some p) (some c) groups
          → map event_body
              (if b then event ∷ keep (is_for p c) events else keep (is_for p c) events)
            ≡ map group_body (
                if k
                then g ∷ keep (has_key (some p) (some c)) groups
                else keep (has_key (some p) (some c)) groups)
      more p c event body true true e events same =
          ap (λ x. x ∷ map event_body (keep (is_for p c) events)) body
          ∙ ap (λ l. group_body g ∷ l) same
      more p c event body false false e events same = same
      more p c event body true false e events same = cc
      more p c event body false true e events same = cc

  persist-events :
      (m : Text) (triples : List Triple) (f : List EmbedTask) (vectors : List V) (w : World V)
      {r : List EmbedTask × List EmbedTask}
      → (persist d m triples f vectors w).0 ≡ returned r
      → (events : List Event) × ((persist d m triples f vectors w).1.published
          ≡ w.published ++ events)
        × ((p : ℕ) (c : Text)
            → events_for p c events ≡ as_one (keep (in_key (some p) (some c)) triples))
  unfolding persist
  persist-events m triples f vectors w {r} h =
      let (rows, e1, h1) = >>=-eq-returned (lift (rows_of m triples vectors)) _ w h in
      let (u, e2, h2) = >>=-eq-returned (save_batch d rows) _ w h1 in
      let ids : Option Text × Option Text = d.propagate_trace (first_trace d triples) in
      let (v, e3, h3) =
        >>=-eq-returned (publish_groups d m ids (group_from triples [])) _ (save_batch d rows w).1
          h2 in
      let (events, announces, same) =
        publish_groups-events m ids (group_from triples []) (save_batch d rows w).1 e3 in
      let end =
        >>=-returned (lift (rows_of m triples vectors)) _ w e1
        ∙ >>=-returned (save_batch d rows) _ w e2
        ∙ >>=-returned (publish_groups d m ids (group_from triples [])) _ (save_batch d rows w).1
            e3 in
      (
        events,
        ap (λ x. x.1.published) end
            ∙ announces
            ∙ ap (λ (x : World V). x.published ++ events) (save_batch-returned d rows w e2),
        λ p c.
            same p c
            ∙ bodies_for-group_from (some p) (some c) triples []
            ∙ extend_all-as_one (keep (in_key (some p) (some c)) triples),
      )

-- When some text was fetched, the encoder returns and the call returns, then the events that it
-- published hold, for each post and chunk table, exactly one event if a text was fetched for them and
-- none otherwise; it carries the ids of exactly those texts, over all tasks of the batch and in batch
-- order, and the post table of the first.
pub embed_chunks_events :
    {V : Type 0} (d : Deps V) (tasks : List EmbedTask) (m : Text)
    (encode : List Text → Outcome (List V)) (vectors : List V) (w : World V)
    {r : List EmbedTask × List EmbedTask}
    → (gather d tasks).0 ≢ []
    → encode (map (λ x. x.content) (gather d tasks).0) ≡ returned vectors
    → (embed_chunks d tasks m encode w).0 ≡ returned r
    → (events : List Event) × ((embed_chunks d tasks m encode w).1.published
        ≡ w.published ++ events)
      × ((p : ℕ) (c : Text)
          → events_for p c events ≡ as_one (keep (in_key (some p) (some c)) (gather d tasks).0))
unfolding embed_chunks
embed_chunks_events d tasks m encode vectors w {r} n e h =
    let same =
      encode_all-world d tasks m encode (gather d tasks).0 (gather d tasks).1 vectors w n e in
    rw same
      (persist-events d m (gather d tasks).0 (gather d tasks).1 vectors w {r = r} (rw same at h))
