-- ===== src/Embed/Tests.antt =====
-- The handler of embed_handler.py on a batch of three tasks: one with texts, one whose fetch fails,
-- and one without chunk ids. A vector is the length of its text.
use event_driven_rag_pipelin.Prelude.{
  ℕ, ◌+◌, ◌≤◌, ◌≡◌, refl, ◌≢◌, Text, text, text_eq, text_eq_iff, if◌then◌else◌, false, not, Option,
  none, some, List, [], ◌∷◌, map, keep, length, arith, count, inr,
}
use event_driven_rag_pipelin.Prelude.Action.{
  Exception, embedding_unavailable, other, Outcome, returned, raised,
}
use event_driven_rag_pipelin.Config.{config_for}
use event_driven_rag_pipelin.Tasks.{BaseTask, EmbedTask, chunk, query}
use event_driven_rag_pipelin.Embed.{
  Event, query_row, World, Deps, gather, group_from, embed_chunks, embed_query, prefixed,
}
use event_driven_rag_pipelin.Embed.Fate.{is_failed, IsBatch, IsBatch-IsDistinct}
use event_driven_rag_pipelin.Embed.Accounts.{
  idents, unavailable_accounts, embed_chunks-settles, is_unreported, encoded_accounts,
}
use event_driven_rag_pipelin.Embed.Results.{paired, event_ids, group_ids, embed_chunks-persists}
use event_driven_rag_pipelin.Embed.Groups.{in_key, as_one, events_for, embed_chunks_events}
use event_driven_rag_pipelin.Embed.Query.{query_event, embed_query-done}

abbrev pub base : Text → BaseTask
base i = record { task_id = i; trace_id = none; parent_span_id = none; source_event_id = none }

abbrev pub chunk_task_of : ℕ → Text → List Text → Text → EmbedTask
chunk_task_of i n ids table = record {
  ident = i;
  base = base n;
  task_type = chunk;
  model_name = text "m";
  post_id = some 7;
  post_table = some (text "p");
  chunk_ids = ids;
  chunk_table = some table;
  query_text = none;
  query_job_id = none;
}

abbrev pub good : EmbedTask
good = chunk_task_of 1 (text "a") (text "x" ∷ text "y" ∷ []) (text "t")

abbrev pub broken : EmbedTask
broken = chunk_task_of 2 (text "b") (text "z" ∷ []) (text "gone")

abbrev pub empty_task : EmbedTask
empty_task = chunk_task_of 3 (text "c") [] (text "t")

abbrev pub batch : List EmbedTask
batch = good ∷ broken ∷ empty_task ∷ []

abbrev pub fetch : List Text → Text → Outcome (List (Text × Text))
fetch ids table =
    if text_eq table (text "t")
    then returned (map (λ i. (i, i)) ids)
    else raised (other (text "db"))

abbrev pub deps_with : Option Exception → Deps ℕ
deps_with o = record {
  fetch_texts = fetch;
  save_fails = λ rows. o;
  publish_fails = λ e. none;
  propagate_trace = λ t. (t, none);
}

abbrev pub deps : Deps ℕ
deps = deps_with none

abbrev encode : List Text → Outcome (List ℕ)
encode l = returned (map (λ s. length s) l)

abbrev down : List Text → Outcome (List ℕ)
down l = raised (embedding_unavailable (text "down"))

abbrev pub fresh : World ℕ
fresh = record { saved = []; published = [] }

pub batch-IsBatch : IsBatch batch
unfolding text_eq
batch-IsBatch = (
  (
    (λ e. absurd (omega (arith, e)), λ e. absurd (text_ne refl e)),
    ((λ e. absurd (omega (arith, e)), λ e. absurd (text_ne refl e)), tt),
  ),
  (((λ e. absurd (omega (arith, e)), λ e. absurd (text_ne refl e)), tt), (tt, tt)),
)
  where
    text_ne : {s t : Text} → text_eq s t ≡ false → s ≢ t
    text_ne {s} {t} h e = ground (arith, text_eq_iff s t)

reports_of_batch :
    (embed_chunks deps batch (text "m") encode fresh).0 ≡ returned (good ∷ [], broken ∷ [])
unfolding embed_chunks text_eq
reports_of_batch = refl

unavailable_accounts_example :
    embed_chunks deps batch (text "m") down fresh
    ≡ (returned (keep (λ t. not (is_failed deps t)) batch, keep (is_failed deps) batch), fresh)
unavailable_accounts_example =
    unavailable_accounts deps batch (text "m") down fresh batch-IsBatch (inr (text "down", refl))

embed_chunks-settles_example :
    count 2 (idents (good ∷ [])) + count 2 (idents (broken ∷ [])) ≤ count 2 (idents batch)
embed_chunks-settles_example =
    embed_chunks-settles deps batch (text "m") encode fresh {r = (good ∷ [], broken ∷ [])} 2
      (IsBatch-IsDistinct batch batch-IsBatch) reports_of_batch

some_texts : (gather deps batch).0 ≢ []
unfolding gather text_eq
some_texts e = cc

encoded_accounts_example :
    count 3 (idents (good ∷ []))
      + count 3 (idents (broken ∷ []))
      + count 3 (idents (keep (is_unreported deps) batch))
    ≡ count 3 (idents batch)
encoded_accounts_example =
    encoded_accounts deps batch (text "m") encode fresh (1 ∷ 1 ∷ []) {r = (good ∷ [], broken ∷ [])}
      3 batch-IsBatch some_texts (unfold gather text_eq in refl) reports_of_batch

embed_chunks-persists_example :
    let w = (embed_chunks deps batch (text "m") encode fresh).1 in
    (w.saved ≡ paired (text "m") (gather deps batch).0 (1 ∷ 1 ∷ []))
    × (map event_ids w.published ≡ group_ids (group_from (gather deps batch).0 []))
    × (length (gather deps batch).0 ≤ 2)
embed_chunks-persists_example =
    embed_chunks-persists deps batch (text "m") encode (1 ∷ 1 ∷ []) fresh
      {r = (good ∷ [], broken ∷ [])} some_texts (unfold gather text_eq in refl) reports_of_batch

abbrev full_disk : Deps ℕ
full_disk = deps_with (some (other (text "disk full")))

embed_chunks_events_example :
    (events : List Event) × ((embed_chunks deps batch (text "m") encode fresh).1.published ≡ events)
    × ((p : ℕ) (c : Text)
        → events_for p c events ≡ as_one (keep (in_key (some p) (some c)) (gather deps batch).0))
embed_chunks_events_example =
    embed_chunks_events deps batch (text "m") encode (1 ∷ 1 ∷ []) fresh
      {r = (good ∷ [], broken ∷ [])} some_texts (unfold gather text_eq in refl) reports_of_batch

abbrev question : EmbedTask
question = record good {
  task_type = query;
  query_text = some (text "why");
  query_job_id = some (text "j");
}

embed_query-done_example :
    (v : ℕ) × (vs : List ℕ) × (encode (prefixed (config_for (text "m")) (text "why") ∷ [])
      ≡ returned (v ∷ vs))
    × ((embed_query deps question (text "m") encode fresh).1 ≡ record {
      saved = query_row (text "j") (text "m") v ∷ [];
      published = query_event deps question (text "m") encode fresh (text "j") ∷ [];
    })
embed_query-done_example =
    embed_query-done deps question (text "m") encode fresh (text "why") (text "j") refl refl
      (λ e. cc) (λ e. cc) (unfold embed_query text_eq in refl)
