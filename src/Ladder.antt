-- ===== src/Ladder.antt =====
-- src/event_driven_rag_service/worker/remote_embedding.py and worker/reranking.py: the remote leg with
-- its three checks, and the models that prefer it over a local leg. What the endpoint answers to each
-- request is a parameter, as an action over its world `W`; a response that does not parse, a timeout
-- and an HTTP error are exceptions. Logging is left out.
pub mod Legs
pub mod Align
mod Tests
use event_driven_rag_pipelin.Prelude.{
  ℕ, zero, suc, ◌&&◌, Text, text, text_eq, Bool, true, false, Option, none, some, List, [], ◌∷◌,
  first, length, map, if◌then◌else◌,
}
use event_driven_rag_pipelin.Prelude.Action.{
  Exception, other, Outcome, returned, raised, Action, pure, raise, lift, attempt, rescue, continue,
  ◌>>=◌, ◌>>◌,
}

-- an entry of GET /api/v0/models
pub record ModelEntry : Type 0 where
  pub id : Text
  pub state : Text

-- The requests of one remote model: the health path, the listing, the load with the quantization that
-- is asked for, and the batch itself. A batch asks for an answer in `A`.
pub record Endpoint (W A : Type 0) : Type 0 where
  pub health : Action W (Unit {0})
  pub models : Action W (List ModelEntry)
  pub load : Text → Option Text → Action W (Unit {0})
  pub ask : Text → Action W A

-- RemoteEmbeddingModel and RemoteRerankModel
pub record RemoteModel : Type 0 where
  pub name : Text
  pub has_load_client : Bool
  pub quantization : Option Text

-- `None` and the empty text both leave the field out of the request
abbrev pub truthy : Option Text → Option Text
truthy none = none
truthy (some []) = none
truthy (some (c ∷ s)) = some (c ∷ s)

abbrev pub listed : Text → List ModelEntry → Option ModelEntry
listed name entries = first (λ e. text_eq e.id name) entries

abbrev pub is_loaded : Option ModelEntry → Bool
is_loaded none = false
is_loaded (some e) = text_eq e.state (text "loaded")

abbrev pub is_listed : Option ModelEntry → Bool
is_listed none = false
is_listed (some e) = true

module _ {W A : Type 0} (e : Endpoint W A) (m : RemoteModel) where
  -- `is_endpoint_healthy`
  unfoldable pub is_endpoint_healthy : Action W Bool
  is_endpoint_healthy = attempt (e.health >>= λ _. pure true) (λ x. pure false)

  -- `_model_entry`
  pub model_entry : Action W (Option ModelEntry)
  model_entry =
      if m.has_load_client
      then attempt (e.models >>= λ entries. pure (listed m.name entries)) (λ x. pure none)
      else pure none

  -- `is_model_available`
  pub is_model_available : Action W Bool
  unfolding model_entry
  is_model_available =
      if m.has_load_client then (model_entry >>= λ o. pure (is_listed o)) else pure true

  -- the request for a load, made only if the model is listed and not loaded
  abbrev pub load_unless : Option ModelEntry → Action W Bool
  load_unless none = pure false
  load_unless (some x) =
      if text_eq x.state (text "loaded")
      then pure true
      else attempt (e.load m.name (truthy m.quantization) >>= λ _. pure true) (λ x. pure false)

  -- `ensure_model_loaded`
  pub ensure_model_loaded : Action W Bool
  unfolding model_entry
  ensure_model_loaded = if m.has_load_client then (model_entry >>= load_unless) else pure true

  abbrev pub when : Bool → Action W A → Action W A → Action W A
  when true ask fallback = ask
  when false ask fallback = fallback

  -- The ladder that both fallback models climb: the local leg runs when a check fails or the remote
  -- batch raises.
  unfoldable pub prefer_remote : Action W A → Action W A
  unfolding is_endpoint_healthy is_model_available ensure_model_loaded
  prefer_remote local = do
    healthy ← is_endpoint_healthy
    when healthy
        (do
          available ← is_model_available
          when available
              (do
                ready ← ensure_model_loaded
                when ready (attempt (e.ask m.name) (λ x. local)) local)
              local)
        local

-- `FallbackEmbeddingModel.encode`: the batch is the texts, the answer one vector for each row of the
-- response
unfoldable pub encode :
    {W V : Type 0}
    → (List Text → Endpoint W (List V))
    → RemoteModel
    → (List Text → Action W (List V))
    → List Text
    → Action W (List V)
unfolding prefer_remote
encode endpoint m local texts = prefer_remote (endpoint texts) m (local texts)

-- a row of the response of POST /rerank; the server numbers the documents from 0, so that no index is
-- negative
pub record ScoreRow (S : Type 0) : Type 0 where
  pub index : ℕ
  pub score : S

module _ {S : Type 0} where
  -- `scores[i] = s`
  abbrev pub cons_scores : S → Outcome (List S) → Outcome (List S)
  cons_scores s (returned l) = returned (s ∷ l)
  cons_scores s (raised x) = raised x

  pub set_score : ℕ → S → List S → Outcome (List S)
  set_score i s [] = raised (other (text "list assignment index out of range"))
  set_score zero s (x ∷ l) = returned (s ∷ l)
  set_score (suc i) s (x ∷ l) = cons_scores x (set_score i s l)

  abbrev pub then_set : Outcome (List S) → (List S → Outcome (List S)) → Outcome (List S)
  then_set (returned l) f = f l
  then_set (raised x) f = raised x

  -- the loop of `RemoteRerankModel.score` over the rows
  pub set_scores : List (ScoreRow S) → List S → Outcome (List S)
  unfolding set_score
  set_scores [] l = returned l
  set_scores (r ∷ rows) l = then_set (set_score r.index r.score l) (set_scores rows)

  abbrev pub zeros : S → List Text → List S
  zeros nought documents = map (λ d. nought) documents

  -- the scores in the order of the documents
  pub align : S → List Text → List (ScoreRow S) → Outcome (List S)
  unfolding set_scores
  align nought documents rows = set_scores rows (zeros nought documents)

-- `FallbackRerankModel.score`, where the endpoint answers with rows and `align` puts them in order
pub aligned : {W S : Type 0} → S → List Text → Endpoint W (List (ScoreRow S)) → Endpoint W (List S)
unfolding align
aligned nought documents e = record {
  health = e.health;
  models = e.models;
  load = e.load;
  ask = λ name. e.ask name >>= λ rows. lift (align nought documents rows);
}

unfoldable pub score :
    {W S : Type 0}
    → S
    → (Text → List Text → Endpoint W (List (ScoreRow S)))
    → RemoteModel
    → (Text → List Text → Action W (List S))
    → Text
    → List Text
    → Action W (List S)
unfolding prefer_remote aligned
score nought endpoint m local query documents =
    prefer_remote (aligned nought documents (endpoint query documents)) m (local query documents)
