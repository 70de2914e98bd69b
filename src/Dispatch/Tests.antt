-- ===== src/Dispatch/Tests.antt =====
-- The dispatchers on one event each, with a broker that accepts every message.
use event_driven_rag_pipelin.Prelude.{
  ℕ, ◌≡◌, refl, Text, text, text_eq, true, none, some, List, [], ◌∷◌, All,
}
use event_driven_rag_pipelin.Config.{EmbedConfig, embed_configs}
use event_driven_rag_pipelin.Tasks.{body}
use event_driven_rag_pipelin.Posts.{Post, resolve_text}
use event_driven_rag_pipelin.Dispatch.{
  Trace, PostSyncedEvent, ChunksCreatedEvent, SearchJobCreatedEvent, SearchCandidatesRetrievedEvent,
  Message, World, Deps, handle_post_synced, handle_chunks_created, handle_job_created,
}
use event_driven_rag_pipelin.Dispatch.Changes.{IsChange, Holds, resolve_text-published}
use event_driven_rag_pipelin.Dispatch.Routing.{routes, query_meets_chunks}

abbrev deps : Deps ℕ
deps = record { uuid = λ n. n ∷ []; publish_fails = λ m. none; propagate_trace = λ t. (t, none) }

abbrev world : World ℕ
world = record { drawn = 0; published = [] }

abbrev trace : Trace
trace = record { event_id = none; trace_id = none }

abbrev synced : PostSyncedEvent
synced = record {
  trace = trace;
  post_id = 1;
  post_table = text "posts";
  fields_changed = text "custom_body" ∷ [];
  has_summary = true;
}

abbrev old_post : Post
old_post = record {
  external_id = text "x";
  updated_at = 5;
  post_title = text "t";
  custom_title = none;
  body_text = none;
  custom_body = none;
  summary = none;
  analysis_text = none;
}

abbrev new_post : Post
new_post = record old_post { custom_body = some (text "c") }

edited : IsChange synced old_post new_post
unfolding text_eq
edited = record {
  titles = λ m h. refl;
  custom_titles = λ m h. refl;
  bodies = λ m h. refl;
  custom_bodies = λ m h. cc;
  summaries = λ m h. refl;
}

resolve_text-published_example :
    (new : List (Message ℕ)) × ((handle_post_synced deps synced world).1.published ≡ new)
    × Holds deps synced body new
unfolding resolve_text
resolve_text-published_example =
    resolve_text-published deps synced world old_post new_post body (λ m. refl) edited tt (λ e. cc)

abbrev job_created : SearchJobCreatedEvent
job_created = record {
  trace = trace;
  query_job_id = text "j";
  query = text "why";
  embedding_profile = text "m";
}

abbrev chunks_created : ChunksCreatedEvent
chunks_created = record {
  trace = trace;
  post_id = 1;
  post_table = text "posts";
  chunk_ids = text "x" ∷ [];
  chunk_table = text "c";
  task_type = text "body";
  chunk_count = 1;
}

query_meets_chunks_example :
    All
      (λ (e : Text × EmbedConfig).
        (routes
            (handle_job_created deps
              (record job_created { embedding_profile = e.1.primary })
              world).1.published
          ≡ (text "embedding", e.1.queue, some e.1.primary) ∷ [])
        × (routes
              (handle_chunks_created deps
                (record chunks_created { task_type = e.0 })
                world).1.published
            ≡ (text "embedding", e.1.queue, some e.1.primary) ∷ []))
      embed_configs
query_meets_chunks_example = query_meets_chunks deps job_created chunks_created world (λ m. refl)

abbrev retrieved : SearchCandidatesRetrievedEvent ℕ
retrieved = record {
  trace = trace;
  query_job_id = text "j";
  candidates = record { chunk_id = text "x"; score = 3 } ∷ [];
  rerank = true;
  rerank_profile = some (text "default");
}
