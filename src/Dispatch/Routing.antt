-- ===== src/Dispatch/Routing.antt =====
-- Where the dispatchers send their tasks: search_dispatcher.py against chunk_dispatcher.py.
use event_driven_rag_pipelin.Prelude.{
  ◌≡◌, refl, Text, text, text_eq, Bool, true, false, Option, none, some, List, [], ◌∷◌, ◌++◌, map,
  lookup, insert, All,
}
use mathlib.Core.List.{map-append}
use event_driven_rag_pipelin.Config.{EmbedConfig, RerankConfig, embed_configs, rerank_configs}
use event_driven_rag_pipelin.Tasks.{
  Task, embed_task, search_rank_task, search_finalize_task, CandidateChunkRef,
}
use event_driven_rag_pipelin.Dispatch.{
  ChunksCreatedEvent, SearchJobCreatedEvent, SearchCandidatesRetrievedEvent, Message, World, Deps,
  config_of, model_to_config, publish, dispatch_embedding, handle_chunks_created,
  handle_job_created, handle_candidates_retrieved, profile_of,
}

-- the model that a message names
abbrev pub model_of : {S : Type 0} → Task S → Option Text
model_of (embed_task t) = some t.model_name
model_of _ = none

abbrev pub routes : {S : Type 0} → List (Message S) → List (Text × Text × Option Text)
routes messages = map (λ m. (m.exchange, m.routing_key, model_of m.task)) messages

-- For every configured chunk type, a query for the model that embeds this type goes to the same
-- exchange, queue and model as the chunks of the type, when the broker accepts every message.
pub query_meets_chunks :
    {S : Type 0} (d : Deps S) (q : SearchJobCreatedEvent) (c : ChunksCreatedEvent) (w : World S)
    → ((m : Message S) → d.publish_fails m ≡ none)
    → All
        (λ (e : Text × EmbedConfig).
          (routes
              (handle_job_created d (record q { embedding_profile = e.1.primary }) w).1.published
            ≡ routes w.published ++ ((text "embedding", e.1.queue, some e.1.primary) ∷ []))
          × (routes (handle_chunks_created d (record c { task_type = e.0 }) w).1.published
              ≡ routes w.published ++ ((text "embedding", e.1.queue, some e.1.primary) ∷ [])))
        embed_configs
unfolding handle_job_created handle_chunks_created dispatch_embedding publish config_of
    model_to_config embed_configs text_eq lookup insert
query_meets_chunks d q c w accepts = (
  simp (accepts, map-append) (refl, refl),
  (
    simp (accepts, map-append) (refl, refl),
    (simp (accepts, map-append) (refl, refl), (simp (accepts, map-append) (refl, refl), tt)),
  ),
)

-- what a message asks of a search job
abbrev pub Hop : Type 0 → Type 0
Hop S = Text × List (CandidateChunkRef S)

abbrev pub hop_of : {S : Type 0} → Task S → Option (Hop S)
hop_of (search_rank_task t) = some (t.job_id, t.candidates)
hop_of (search_finalize_task t) = some (t.job_id, t.candidates)
hop_of _ = none

abbrev pub hops : {S : Type 0} → List (Message S) → List (Option (Hop S))
hops messages = map (λ m. hop_of m.task) messages

-- A job whose candidates were retrieved goes on by exactly one task with all its candidates: when
-- it does not ask for reranking, or asks for a configured profile, and the broker accepts every
-- message.
pub candidates_go_on :
    {S : Type 0} (d : Deps S) (e : SearchCandidatesRetrievedEvent S) (w : World S)
    (cfg : RerankConfig)
    → ((m : Message S) → d.publish_fails m ≡ none)
    → (e.rerank ≡ true → lookup (profile_of d e.rerank_profile) rerank_configs ≡ some cfg)
    → hops (handle_candidates_retrieved d e w).1.published
      ≡ hops w.published ++ (some (e.query_job_id, e.candidates) ∷ [])
unfolding handle_candidates_retrieved publish
candidates_go_on {S} d e w cfg accepts known = by_branch e.rerank refl
  where
    by_branch :
        (b : Bool)
        → e.rerank ≡ b
        → hops (handle_candidates_retrieved d e w).1.published
          ≡ hops w.published ++ (some (e.query_job_id, e.candidates) ∷ [])
    by_branch true r = rw (r, known r) (simp (accepts, map-append))
    by_branch false r = rw r (simp (accepts, map-append))
