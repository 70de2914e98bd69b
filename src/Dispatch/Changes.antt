-- ===== src/Dispatch/Changes.antt =====
-- Which chunk tasks post_dispatcher.py publishes, against the texts that chunk_handler.py resolves.
use event_driven_rag_pipelin.Prelude.{
  ℕ, ◌+◌, ◌≡◌, refl, sym, ap, ◌∙◌, ◌≢◌, ◌&&◌, inl, inr, Text, text, text_eq, text_eq_iff, Bool,
  true, false, ◌||◌, Option, none, some, List, [], ◌∷◌, ◌++◌, append_assoc, append-nil, keep,
  keep-append, exists, All, length, contains, if◌then◌else◌, lookup, Bool-cases, arith,
}
use event_driven_rag_pipelin.Prelude.Action.{returned, Action, pure, rescue, continue, ◌>>◌}
use event_driven_rag_pipelin.Config.{EmbedConfig, embed_configs}
use event_driven_rag_pipelin.Tasks.{
  ChunkKind, body, title, summary_title, analysis, chunk_task, no_items,
}
use event_driven_rag_pipelin.Posts.{Post, resolve_text}
use event_driven_rag_pipelin.Dispatch.{
  PostSyncedEvent, Message, World, Deps, kind_name, is_changed, changed, publish, publish_chunk,
  publish_changed, dispatch_chunk_tasks, handle_post_synced,
}

-- the fields that the text of a kind is made of
abbrev pub fields_of : ChunkKind → List Text
fields_of body = text "body_text" ∷ text "custom_body" ∷ []
fields_of title = text "title" ∷ text "custom_title" ∷ []
fields_of summary_title = text "summary" ∷ text "title" ∷ text "custom_title" ∷ []
fields_of analysis = []

abbrev pub is_offered : PostSyncedEvent → ChunkKind → Bool
is_offered e summary_title = e.has_summary
is_offered e _ = true

-- some changed field is one of the kind's, or all are taken as changed
abbrev pub is_asked : PostSyncedEvent → ChunkKind → Bool
is_asked e kind =
    is_offered e kind
    && (no_items e.fields_changed || exists (λ f. contains f (fields_of kind)) e.fields_changed)

abbrev primary_of : Option EmbedConfig → Text
primary_of none = []
primary_of (some cfg) = cfg.primary

-- The task of a kind for the event's post, with the task id drawn at `n`.
abbrev pub chunk_message : {S : Type 0} → Deps S → PostSyncedEvent → ChunkKind → ℕ → Message S
chunk_message d e kind n = record {
  exchange = text "ingestion";
  routing_key = text "cpu.chunk.post";
  task = chunk_task (record {
    base = record {
      task_id = d.uuid n;
      trace_id = (d.propagate_trace e.trace.trace_id).0;
      parent_span_id = (d.propagate_trace e.trace.trace_id).1;
      source_event_id = e.trace.event_id;
    };
    task_type = kind;
    post_id = e.post_id;
    post_table = e.post_table;
    embed_model = primary_of (lookup (kind_name kind) embed_configs);
    analysis_text = none;
  });
}

-- one task for each kind, with ids drawn from `n` on
pub messages_from : {S : Type 0} → Deps S → PostSyncedEvent → ℕ → List ChunkKind → List (Message S)
messages_from d e n [] = []
messages_from d e n (kind ∷ kinds) = chunk_message d e kind n ∷ messages_from d e (n + 1) kinds

abbrev pub synced_kinds : List ChunkKind
synced_kinds = body ∷ title ∷ summary_title ∷ []

text_eq_sym : (s t : Text) → text_eq s t ≡ text_eq t s
text_eq_sym s t = ground (arith, text_eq_iff s t, text_eq_iff t s)

any_two :
    (f g : Text) (l : List Text)
    → contains f l || (contains g l || false) ≡ exists (λ x. contains x (f ∷ g ∷ [])) l
any_two f g [] = refl
any_two f g (x ∷ l) = ground (arith, any_two f g l, text_eq_sym x f, text_eq_sym x g)

any_three :
    (f g k : Text) (l : List Text)
    → contains f l || (contains g l || (contains k l || false))
      ≡ exists (λ x. contains x (f ∷ g ∷ k ∷ [])) l
any_three f g k [] = refl
any_three f g k (x ∷ l) =
    ground (arith, any_three f g k l, text_eq_sym x f, text_eq_sym x g, text_eq_sym x k)

changed_two-asked :
    (f g : Text) (l : List Text)
    → changed l (f ∷ g ∷ []) ≡ no_items l || exists (λ x. contains x (f ∷ g ∷ [])) l
changed_two-asked f g [] = refl
changed_two-asked f g (x ∷ l) = any_two f g (x ∷ l)

changed_three-asked :
    (f g k : Text) (l : List Text)
    → changed l (f ∷ g ∷ k ∷ []) ≡ no_items l || exists (λ x. contains x (f ∷ g ∷ k ∷ [])) l
changed_three-asked f g k [] = refl
changed_three-asked f g k (x ∷ l) = any_three f g k (x ∷ l)

-- a kind that the dispatcher looks at
abbrev IsSynced : ChunkKind → Type 0
IsSynced analysis = ⊥
IsSynced _ = Unit

is_changed-asked :
    (e : PostSyncedEvent) (kind : ChunkKind) → IsSynced kind → is_changed e kind ≡ is_asked e kind
unfolding is_changed
is_changed-asked e body h =
    changed_two-asked (text "body_text") (text "custom_body") e.fields_changed
is_changed-asked e title h = changed_two-asked (text "title") (text "custom_title") e.fields_changed
is_changed-asked e summary_title h =
    ap (λ b. e.has_summary && b)
      (changed_three-asked (text "summary") (text "title") (text "custom_title") e.fields_changed)
is_changed-asked e analysis h = absurd h

module _ {S : Type 0} (d : Deps S) (accepts : (m : Message S) → d.publish_fails m ≡ none)
    (e : PostSyncedEvent) where
  -- the world once the tasks of some kinds are published
  abbrev pub with_tasks : List ChunkKind → World S → World S
  with_tasks kinds w = record {
    drawn = w.drawn + length kinds;
    published = w.published ++ messages_from d e w.drawn kinds;
  }

  publish_chunk-with_tasks :
      (kind : ChunkKind) (w : World S)
      → IsSynced kind
      → publish_chunk d e (d.propagate_trace e.trace.trace_id) kind w
        ≡ (returned tt, with_tasks (kind ∷ []) w)
  unfolding publish_chunk publish embed_configs text_eq lookup messages_from
  publish_chunk-with_tasks body w h = rw (accepts (chunk_message d e body w.drawn)) refl
  publish_chunk-with_tasks title w h = rw (accepts (chunk_message d e title w.drawn)) refl
  publish_chunk-with_tasks summary_title w h =
      rw (accepts (chunk_message d e summary_title w.drawn)) refl
  publish_chunk-with_tasks analysis w h = absurd h

  publish_changed-with_tasks :
      (l : List ChunkKind) (w : World S)
      → All IsSynced l
      → publish_changed d e (d.propagate_trace e.trace.trace_id) l w
        ≡ (returned tt, with_tasks (keep (is_asked e) l) w)
  unfolding publish_changed messages_from
  publish_changed-with_tasks [] w h =
      let none_drawn : w.drawn + 0 ≡ w.drawn = omega arith in
      rw (none_drawn, append-nil w.published) refl
  publish_changed-with_tasks (kind ∷ l) w h = rw (is_changed-asked e kind h.0) (
      by_test (is_asked e kind) (publish_changed-with_tasks l w h.1)
        (publish_changed-with_tasks l (with_tasks (kind ∷ []) w) h.1))
    where
      ids : Option Text × Option Text
      ids = d.propagate_trace e.trace.trace_id

      two_steps :
          (kinds : List ChunkKind)
          → with_tasks kinds (with_tasks (kind ∷ []) w) ≡ with_tasks (kind ∷ kinds) w
      two_steps kinds =
          let drawn : (w.drawn + 1) + length kinds ≡ w.drawn + length (kind ∷ kinds) =
            omega arith in
          rw (drawn, append_assoc) refl

      by_test :
          (b : Bool)
          → publish_changed d e ids l w ≡ (returned tt, with_tasks (keep (is_asked e) l) w)
          → publish_changed d e ids l (with_tasks (kind ∷ []) w)
            ≡ (returned tt, with_tasks (keep (is_asked e) l) (with_tasks (kind ∷ []) w))
          → (if◌then◌else◌ {A = Action (World S) (Unit {0})} b
                  (publish_chunk d e ids kind)
                  (pure tt)
                >> publish_changed d e ids l)
              w
            ≡ (
              returned tt,
              with_tasks (if b then kind ∷ keep (is_asked e) l else keep (is_asked e) l) w,
            )
      by_test false skips goes = skips
      by_test true skips goes =
          ap (λ r. continue r.0 (λ _. publish_changed d e ids l) r.1)
            (publish_chunk-with_tasks kind w h.0)
          ∙ goes
          ∙ ap (λ x. (returned tt, x)) (two_steps (keep (is_asked e) l))

pub handle_post_synced_lem :
    {S : Type 0} (d : Deps S) (e : PostSyncedEvent) (w : World S)
    → ((m : Message S) → d.publish_fails m ≡ none)
    → handle_post_synced d e w ≡ (
      returned tt,
      record {
        drawn = w.drawn + length (keep (is_asked e) synced_kinds);
        published = w.published ++ messages_from d e w.drawn (keep (is_asked e) synced_kinds);
      },
    )
unfolding handle_post_synced dispatch_chunk_tasks
handle_post_synced_lem d e w accepts =
    ap (λ r. rescue r.0 (λ x. pure tt) r.1)
      (publish_changed-with_tasks d accepts e synced_kinds w (tt, (tt, (tt, tt))))

-- Two states of a post that differ only in fields that the event names; an event that names none
-- stands for all fields.
pub record IsChange (e : PostSyncedEvent) (p q : Post) : Type 0 where
  pub titles :
      no_items e.fields_changed ≡ false
      → contains (text "title") e.fields_changed ≡ false
      → p.post_title ≡ q.post_title
  pub custom_titles :
      no_items e.fields_changed ≡ false
      → contains (text "custom_title") e.fields_changed ≡ false
      → p.custom_title ≡ q.custom_title
  pub bodies :
      no_items e.fields_changed ≡ false
      → contains (text "body_text") e.fields_changed ≡ false
      → p.body_text ≡ q.body_text
  pub custom_bodies :
      no_items e.fields_changed ≡ false
      → contains (text "custom_body") e.fields_changed ≡ false
      → p.custom_body ≡ q.custom_body
  pub summaries :
      no_items e.fields_changed ≡ false
      → contains (text "summary") e.fields_changed ≡ false
      → p.summary ≡ q.summary

changed_two :
    (f g : Text) (l : List Text)
    → changed l (f ∷ g ∷ []) ≡ false
    → (no_items l ≡ false) × (contains f l ≡ false) × (contains g l ≡ false)
changed_two f g [] h = cc
changed_two f g (x ∷ l) h = split (contains f (x ∷ l)) (contains g (x ∷ l)) h
  where
    split : (a b : Bool) → (a || (b || false)) ≡ false → (false ≡ false) × (a ≡ false) × (b ≡ false)
    split false false h = (refl, refl, refl)
    split false true h = cc
    split true b h = cc

changed_three :
    (f g k : Text) (l : List Text)
    → changed l (f ∷ g ∷ k ∷ []) ≡ false
    → (no_items l ≡ false)
      × (contains f l ≡ false)
      × (contains g l ≡ false)
      × (contains k l ≡ false)
changed_three f g k [] h = cc
changed_three f g k (x ∷ l) h =
    split (contains f (x ∷ l)) (contains g (x ∷ l)) (contains k (x ∷ l)) h
  where
    split :
        (a b c : Bool)
        → (a || (b || (c || false))) ≡ false
        → (false ≡ false) × (a ≡ false) × (b ≡ false) × (c ≡ false)
    split false false false h = (refl, refl, refl, refl)
    split false false true h = cc
    split false true c h = cc
    split true b c h = cc

-- whether a synced post can ask for the kind: not for an analysis, and for a summary if there is one
abbrev pub Asks : PostSyncedEvent → ChunkKind → Type 0
Asks e body = Unit
Asks e title = Unit
Asks e summary_title = e.has_summary ≡ true
Asks e analysis = ⊥

resolve_text-is_changed :
    (e : PostSyncedEvent) (p q : Post) (kind : ChunkKind)
    → IsChange e p q
    → Asks e kind
    → resolve_text kind none p ≢ resolve_text kind none q
    → is_changed e kind ≡ true
unfolding is_changed resolve_text
resolve_text-is_changed e p q body c a n = elim (Bool-cases (is_changed e body)) [
  | inl t ↦ t
  | inr f ↦
      let (m, x, y) = changed_two (text "body_text") (text "custom_body") e.fields_changed f in
      absurd (n (rw (c.bodies m x, c.custom_bodies m y) refl))
]
resolve_text-is_changed e p q title c a n = elim (Bool-cases (is_changed e title)) [
  | inl t ↦ t
  | inr f ↦
      let (m, x, y) = changed_two (text "title") (text "custom_title") e.fields_changed f in
      absurd (n (rw (c.titles m x, c.custom_titles m y) refl))
]
resolve_text-is_changed e p q summary_title c a n =
    elim (Bool-cases
      (changed e.fields_changed (text "summary" ∷ text "title" ∷ text "custom_title" ∷ []))) [
        | inl t ↦ rw (a, t) refl
        | inr f ↦
            let (m, x, y, z) =
              changed_three (text "summary") (text "title") (text "custom_title") e.fields_changed
                f in
            absurd (n (rw (c.summaries m x, c.titles m y) refl))
      ]
resolve_text-is_changed e p q analysis c a n = absurd a

Asks-IsSynced : (e : PostSyncedEvent) (kind : ChunkKind) → Asks e kind → IsSynced kind
Asks-IsSynced e body a = tt
Asks-IsSynced e title a = tt
Asks-IsSynced e summary_title a = tt
Asks-IsSynced e analysis a = a

-- the messages of the kinds hold one of this kind
abbrev pub Holds : {S : Type 0} → Deps S → PostSyncedEvent → ChunkKind → List (Message S) → Type 0
Holds {S} d e kind l =
    (n : ℕ) × (front : List (Message S)) × (back : List (Message S)) × (l
      ≡ front ++ (chunk_message d e kind n ∷ back))

messages_from-Holds :
    {S : Type 0} (d : Deps S) (e : PostSyncedEvent) (kind : ChunkKind) (n : ℕ) (l : List ChunkKind)
    → (front : List ChunkKind) × (back : List ChunkKind) × (l ≡ front ++ (kind ∷ back))
    → Holds d e kind (messages_from d e n l)
unfolding messages_from
messages_from-Holds d e kind n l ([], back, q) = rw q (n, [], messages_from d e (n + 1) back, refl)
messages_from-Holds d e kind n l (k ∷ front, back, q) =
    let (m, f, b, r) =
      messages_from-Holds d e kind (n + 1) (front ++ (kind ∷ back)) (front, back, refl) in
    rw q (m, chunk_message d e k n ∷ f, b, ap (λ x. chunk_message d e k n ∷ x) r)

keep-holds :
    (e : PostSyncedEvent) (kind : ChunkKind)
    → IsSynced kind
    → is_asked e kind ≡ true
    → (front : List ChunkKind) × (back : List ChunkKind) × (keep (is_asked e) synced_kinds
        ≡ front ++ (kind ∷ back))
keep-holds e body s h = ([], keep (is_asked e) (title ∷ summary_title ∷ []), rw h refl)
keep-holds e title s h = (
  keep (is_asked e) (body ∷ []),
  keep (is_asked e) (summary_title ∷ []),
  keep-append (is_asked e) (body ∷ []) (title ∷ summary_title ∷ [])
      ∙ ap (λ l. keep (is_asked e) (body ∷ []) ++ l)
          (ap
            (λ b.
              if b
              then title ∷ keep (is_asked e) (summary_title ∷ [])
              else keep (is_asked e) (summary_title ∷ []))
            h),
)
keep-holds e summary_title s h = (
  keep (is_asked e) (body ∷ title ∷ []),
  [],
  keep-append (is_asked e) (body ∷ title ∷ []) (summary_title ∷ [])
      ∙ ap (λ l. keep (is_asked e) (body ∷ title ∷ []) ++ l)
          (ap (λ b. if b then summary_title ∷ [] else []) h),
)
keep-holds e analysis s h = absurd s

-- If the text that the chunk handler resolves for the body, the title or, where the event says that
-- there is a summary, the summary with title differs between two states of a post that differ only in
-- the fields the event names, and the broker accepts every message, then handling the event publishes
-- a chunk task of that kind for the post.
pub resolve_text-published :
    {S : Type 0} (d : Deps S) (e : PostSyncedEvent) (w : World S) (p q : Post) (kind : ChunkKind)
    → ((m : Message S) → d.publish_fails m ≡ none)
    → IsChange e p q
    → Asks e kind
    → resolve_text kind none p ≢ resolve_text kind none q
    → (new : List (Message S)) × ((handle_post_synced d e w).1.published ≡ w.published ++ new)
      × Holds d e kind new
resolve_text-published d e w p q kind accepts c a n =
    let s = Asks-IsSynced e kind a in
    let asked = sym (is_changed-asked e kind s) ∙ resolve_text-is_changed e p q kind c a n in
    (
      messages_from d e w.drawn (keep (is_asked e) synced_kinds),
      ap (λ r. r.1.published) (handle_post_synced_lem d e w accepts),
      messages_from-Holds d e kind w.drawn _ (keep-holds e kind s asked),
    )
