-- ===== src/Embed/Query.antt =====
-- What embed_handler.py's `embed_query` reports, saves and announces.
use event_driven_rag_pipelin.Prelude.{
  ◌≡◌, ◌≢◌, refl, ap, ◌∙◌, Text, Bool, true, false, ◌||◌, some, List, [], ◌∷◌, ◌++◌, if◌then◌else◌,
}
use event_driven_rag_pipelin.Prelude.Action.{
  Outcome, returned, raised, Action, rescue, attempt, pure, lift, >>=-eq-returned, >>=-returned,
}
use event_driven_rag_pipelin.Tasks.{EmbedTask, is_blank}
use event_driven_rag_pipelin.Config.{config_for}
use event_driven_rag_pipelin.Embed.{
  query_row, Event, search_query_embedded, World, Deps, or_blank, save_batch, publish, prefixed,
  encode_one, query_block, embed_query,
}
use event_driven_rag_pipelin.Embed.Results.{save_batch-returned, publish-returned}

module _ {V : Type 0} (d : Deps V) (task : EmbedTask) (model_name : Text)
    (encode : List Text → Outcome (List V)) (w : World V) where
  -- A query task never makes the handler raise: it reports done or failed.
  pub embed_query-returns : (b : Bool) × ((embed_query d task model_name encode w).0 ≡ returned b)
  unfolding embed_query
  embed_query-returns = by_blank (is_blank task.query_text || is_blank task.query_job_id)
    where
      block : Action (World V) Bool
      block =
          query_block d task (or_blank task.query_text) (or_blank task.query_job_id) model_name
            encode

      rescued :
          (r : Outcome Bool) (w' : World V)
          → (b : Bool) × ((rescue r (λ e. pure false) w').0 ≡ returned b)
      rescued (returned b) w' = (b, refl)
      rescued (raised e) w' = (false, refl)

      by_blank :
          (c : Bool)
          → (b : Bool) × ((if◌then◌else◌ {A = Action (World V) Bool} c
                (pure true)
                (attempt block (λ e. pure false))
                w).0
              ≡ returned b)
      by_blank true = (true, refl)
      by_blank false = rescued (block w).0 (block w).1

encode_one-returned :
    {V : Type 0} (o : Outcome (List V)) {v : V}
    → encode_one o ≡ returned v
    → (vs : List V) × (o ≡ returned (v ∷ vs))
unfolding encode_one
encode_one-returned (returned []) h = cc
encode_one-returned (returned (x ∷ vs)) h = (vs, cc)
encode_one-returned (raised e) h = cc

rescue-true :
    {W : Type 0} (r : Outcome Bool) (w : W)
    → (rescue r (λ e. pure false) w).0 ≡ returned true
    → (r ≡ returned true) × (rescue r (λ e. pure false) w ≡ (returned true, w))
rescue-true (returned true) w h = (refl, refl)
rescue-true (returned false) w h = cc
rescue-true (raised e) w h = cc

module _ {V : Type 0} (d : Deps V) (task : EmbedTask) (model_name : Text)
    (encode : List Text → Outcome (List V)) (w : World V) where
  abbrev pub query_event : Text → Event
  query_event job_id = search_query_embedded (record {
    query_job_id = job_id;
    model_name = model_name;
    trace_id = (d.propagate_trace task.base.trace_id).0;
    parent_span_id = (d.propagate_trace task.base.trace_id).1;
  })

  query_block-returned :
      (q job_id : Text) {b : Bool}
      → (query_block d task q job_id model_name encode w).0 ≡ returned b
      → (v : V) × (vs : List V) × (encode (prefixed (config_for model_name) q ∷ [])
          ≡ returned (v ∷ vs))
        × ((query_block d task q job_id model_name encode w).1 ≡ record w {
          saved = w.saved ++ (query_row job_id model_name v ∷ []);
          published = w.published ++ (query_event job_id ∷ []);
        })
  unfolding query_block
  query_block-returned q job_id h =
      let ask : Outcome V = encode_one (encode (prefixed (config_for model_name) q ∷ [])) in
      let (v, e1, h1) = >>=-eq-returned (lift ask) _ w h in
      let (u, e2, h2) =
        >>=-eq-returned (save_batch d (query_row job_id model_name v ∷ [])) _ w h1 in
      let (x, e3, h3) =
        >>=-eq-returned (publish d (query_event job_id)) _
          (save_batch d (query_row job_id model_name v ∷ []) w).1 h2 in
      let (vs, ev) = encode_one-returned (encode (prefixed (config_for model_name) q ∷ [])) e1 in
      let saves = save_batch-returned d (query_row job_id model_name v ∷ []) w e2 in
      let announces =
        publish-returned d (query_event job_id)
          (save_batch d (query_row job_id model_name v ∷ []) w).1 e3 in
      let end : query_block d task q job_id model_name encode w ≡ (
        returned true,
        (publish d (query_event job_id) (save_batch d (query_row job_id model_name v ∷ []) w).1).1,
      ) =
        >>=-returned (lift ask) _ w e1
        ∙ >>=-returned (save_batch d (query_row job_id model_name v ∷ [])) _ w e2
        ∙ >>=-returned (publish d (query_event job_id)) _
            (save_batch d (query_row job_id model_name v ∷ []) w).1 e3 in
      (
        v,
        vs,
        ev,
        ap (λ r. r.1) end
            ∙ announces
            ∙ ap
                (λ (x : World V). record x { published = x.published ++ (query_event job_id ∷ []) })
                saves,
      )

  -- A task with a query and a job id that is reported as done had its query, under the model's
  -- prefix, encoded into at least one vector; the first vector was saved for the job and the job
  -- was announced as embedded, and nothing else was saved or announced.
  pub embed_query-done :
      (q job_id : Text)
      → task.query_text ≡ some q
      → task.query_job_id ≡ some job_id
      → q ≢ []
      → job_id ≢ []
      → (embed_query d task model_name encode w).0 ≡ returned true
      → (v : V) × (vs : List V) × (encode (prefixed (config_for model_name) q ∷ [])
          ≡ returned (v ∷ vs))
        × ((embed_query d task model_name encode w).1 ≡ record w {
          saved = w.saved ++ (query_row job_id model_name v ∷ []);
          published = w.published ++ (query_event job_id ∷ []);
        })
  unfolding embed_query
  embed_query-done [] job_id eq ej nq nj h = absurd (nq refl)
  embed_query-done (c ∷ q) [] eq ej nq nj h = absurd (nj refl)
  embed_query-done (c ∷ q) (k ∷ job_id) eq ej nq nj h =
      let block : Action (World V) Bool =
        query_block d task (c ∷ q) (k ∷ job_id) model_name encode in
      let same : embed_query d task model_name encode w ≡ attempt block (λ e. pure false) w =
        rw (eq, ej) in
      let (ran, ended) = rescue-true (block w).0 (block w).1 (rw same at h) in
      let (v, vs, e, world) = query_block-returned (c ∷ q) (k ∷ job_id) ran in
      (v, vs, e, ap (λ r. r.1) same ∙ ap (λ r. r.1) ended ∙ world)
