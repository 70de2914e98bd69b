-- ===== src/Loader/RemoteOnly.antt =====
-- Models that may not be loaded here: `allow_local=False` of config/embedding_config.py, through
-- worker/entrypoints/gpu.py, worker/remote_embedding.py and handlers/embed_handler.py.
use event_driven_rag_pipelin.Prelude.{
  ◌≡◌, refl, sym, ap, subst, ◌⊎◌, inl, inr, Text, Bool, true, false, not, Option, some, List, keep,
  Dict,
}
use event_driven_rag_pipelin.Prelude.Action.{
  Exception, embedding_unavailable, Outcome, returned, raised, raise,
}
use event_driven_rag_pipelin.Config.{EmbedConfig, RerankConfig, remote_id, rerank_remote_id}
use event_driven_rag_pipelin.Tasks.{EmbedTask}
use event_driven_rag_pipelin.Ladder.{Endpoint, RemoteModel, ScoreRow, aligned}
use event_driven_rag_pipelin.Ladder as Ladder
use event_driven_rag_pipelin.Ladder.Legs.{Legs, prefer_remote-Legs, prefer_remote_down}
use event_driven_rag_pipelin.Loader.{
  Loaded, ladder, no_local, choose_leg, config_in, load_model, load_with, load_reranker,
  load_reranker_with, rerank_config_in, local_score, score, Local, local_encode, encode,
  remote_endpoint, no_local_message,
}
use event_driven_rag_pipelin.Embed.{World, Deps, embed_chunks}
use event_driven_rag_pipelin.Embed.Fate.{IsBatch, is_failed}
use event_driven_rag_pipelin.Embed.Accounts.{unavailable_accounts}

-- the ladder of a model that may not be loaded here
abbrev IsRemoteOnly : EmbedConfig → Loaded → Type 0
IsRemoteOnly cfg l =
    (m : RemoteModel) × (m.name ≡ remote_id cfg) × (l ≡ ladder m (no_local cfg.primary))

choose_leg-remote_only :
    (reachable allow_remote : Bool) (primary remote : Text) (quantization : Option Text)
    (name : Text) (l : Loaded)
    → choose_leg reachable allow_remote false primary remote quantization name ≡ returned l
    → (m : RemoteModel) × (m.name ≡ remote) × (l ≡ ladder m (no_local primary))
unfolding choose_leg
choose_leg-remote_only true true primary remote quantization name l h = (
  record { name = remote; has_load_client = true; quantization = quantization },
  refl,
  sym (unwrap h),
)
  where
    unwrap : {a b : Loaded} → returned a ≡ returned b → a ≡ b
    unwrap e = cc
choose_leg-remote_only true false primary remote quantization name l h = cc
choose_leg-remote_only false b primary remote quantization name l h = cc

load_model-IsRemoteOnly :
    (reachable : Bool) (configs : Dict EmbedConfig) (name : Text) (cfg : EmbedConfig) (l : Loaded)
    → config_in configs name ≡ some cfg
    → cfg.allow_local ≡ false
    → load_model reachable configs name ≡ returned l
    → IsRemoteOnly cfg l
unfolding load_model
load_model-IsRemoteOnly reachable configs name cfg l c a h =
    choose_leg-remote_only reachable cfg.allow_remote cfg.primary (remote_id cfg) cfg.quantization
      name l (chosen (config_in configs name) c h)
  where
    chosen :
        (o : Option EmbedConfig)
        → o ≡ some cfg
        → load_with reachable name o ≡ returned l
        → choose_leg reachable cfg.allow_remote false cfg.primary
            (remote_id cfg)
            cfg.quantization
            name
          ≡ returned l
    chosen o e k =
        subst
          (λ b.
            choose_leg reachable cfg.allow_remote b cfg.primary (remote_id cfg) cfg.quantization
              name
            ≡ returned l)
          a (subst (λ x. load_with reachable name x ≡ returned l) e k)

module _ {W M V : Type 0} (describe : Text → Text) (load : Text → Outcome M)
    (encode_with : M → List Text → Outcome (List V))
    (endpoint : List Text → Endpoint W (List V)) where
  -- how the `encode` of a remote-only model ends
  abbrev pub AnsweredOrUnavailable :
      RemoteModel → List Text → Outcome (List V) × (W × Local M) → Type 0
  AnsweredOrUnavailable m texts r =
      ((w : W × Local M) × (v : List V) × (((remote_endpoint {L = Local M} (endpoint texts)).ask
            m.name w)
          ≡ (returned v, r.1))
        × (r.0 ≡ returned v))
      ⊎ ((s : Text) × (r.0 ≡ raised (embedding_unavailable s)))

  -- What the worker loads for a model that must not run here is the ladder with the id that the remote
  -- knows, and its `encode` ends with vectors that the remote batch returned, or raises
  -- EmbeddingUnavailableError: whatever the endpoint does, it raises nothing else.
  pub remote_only :
      (reachable : Bool) (configs : Dict EmbedConfig) (name : Text) (cfg : EmbedConfig) (l : Loaded)
      → config_in configs name ≡ some cfg
      → cfg.allow_local ≡ false
      → load_model reachable configs name ≡ returned l
      → (m : RemoteModel) × (m.name ≡ remote_id cfg)
        × (l ≡ ladder m (no_local cfg.primary))
        × ((texts : List Text) (w : W × Local M)
            → AnsweredOrUnavailable m texts
                (encode describe load encode_with endpoint m (no_local cfg.primary) texts w))
  unfolding encode local_encode Ladder.encode
  remote_only reachable configs name cfg l c a h =
      let (m, n, e) = load_model-IsRemoteOnly reachable configs name cfg l c a h in
      (
        m,
        n,
        e,
        λ texts w. ends m texts _ (prefer_remote-Legs (remote_endpoint (endpoint texts)) m _ w),
      )
    where
      ends :
          (m : RemoteModel) (texts : List Text) (r : Outcome (List V) × (W × Local M))
          → Legs
              (remote_endpoint (endpoint texts))
              m
              (raise (embedding_unavailable (no_local_message cfg.primary)))
              r
          → AnsweredOrUnavailable m texts r
      ends m texts r (inl p) = inl p
      ends m texts r (inr (w, e)) = inr (no_local_message cfg.primary, ap (λ x. x.0) e)

  -- A batch of a remote-only model whose endpoint does not pass the health check is skipped: every task
  -- except those whose fetch failed is reported as done, those are reported as failed, and nothing is
  -- saved or published. The tasks are different objects with different task ids.
  pub outage_skips :
      (reachable : Bool) (configs : Dict EmbedConfig) (name : Text) (cfg : EmbedConfig) (l : Loaded)
      → config_in configs name ≡ some cfg
      → cfg.allow_local ≡ false
      → load_model reachable configs name ≡ returned l
      → (w : W) (here : Local M) (x : Exception) (d : Deps V) (tasks : List EmbedTask)
        (store : World V)
      → IsBatch tasks
      → ((texts : List Text) → ((endpoint texts).health w).0 ≡ raised x)
      → (m : RemoteModel) × (l ≡ ladder m (no_local cfg.primary))
        × (embed_chunks d tasks name
              (λ texts.
                (encode describe load encode_with endpoint m
                  (no_local cfg.primary)
                  texts
                  (w, here)).0)
              store
            ≡ (returned (keep (λ t. not (is_failed d t)) tasks, keep (is_failed d) tasks), store))
  unfolding encode local_encode Ladder.encode
  outage_skips reachable configs name cfg l c a h w here x d tasks store b down =
      let (m, n, e) = load_model-IsRemoteOnly reachable configs name cfg l c a h in
      (
        m,
        e,
        unavailable_accounts d tasks name _ store b (
            inr (
              no_local_message cfg.primary,
              ap (λ r. r.0)
                  (prefer_remote_down (remote_endpoint (endpoint _)) m _ (w, here) x (down _)),
            )),
      )

module _ {W M S : Type 0} (nought : S) (load : Text → Outcome M)
    (score_with : M → Text → List Text → Outcome (List S))
    (endpoint : Text → List Text → Endpoint W (List (ScoreRow S))) where
  -- the endpoint with its rows put in the order of the documents
  abbrev pub in_order : Text → List Text → Endpoint (W × Option M) (List S)
  in_order query documents = aligned nought documents (remote_endpoint (endpoint query documents))

  abbrev pub ScoredOrUnavailable :
      RemoteModel → Text → List Text → Outcome (List S) × (W × Option M) → Type 0
  ScoredOrUnavailable m query documents r =
      ((w : W × Option M) × (l : List S) × (((in_order query documents).ask m.name w)
          ≡ (returned l, r.1))
        × (r.0 ≡ returned l))
      ⊎ ((s : Text) × (r.0 ≡ raised (embedding_unavailable s)))

  -- What the worker loads for a reranker that must not run here is the ladder with the id that the
  -- remote knows, and its `score` ends with the scores of the remote's rows in the order of the
  -- documents, or raises EmbeddingUnavailableError.
  pub reranker_remote_only :
      (reachable : Bool) (configs : Dict RerankConfig) (name : Text) (cfg : RerankConfig)
      (l : Loaded)
      → rerank_config_in configs name ≡ some cfg
      → cfg.allow_local ≡ false
      → load_reranker reachable configs name ≡ returned l
      → (m : RemoteModel) × (m.name ≡ rerank_remote_id cfg)
        × (l ≡ ladder m (no_local cfg.primary))
        × ((query : Text) (documents : List Text) (w : W × Option M)
            → ScoredOrUnavailable m query documents
                (score nought load score_with endpoint m (no_local cfg.primary) query documents w))
  unfolding score local_score Ladder.score load_reranker
  reranker_remote_only reachable configs name cfg l c a h =
      let (m, n, e) =
        choose_leg-remote_only reachable cfg.allow_remote cfg.primary (rerank_remote_id cfg)
          cfg.quantization name l (chosen (rerank_config_in configs name) c h) in
      (
        m,
        n,
        e,
        λ query documents w.
            ends m query documents _ (prefer_remote-Legs (in_order query documents) m _ w),
      )
    where
      chosen :
          (o : Option RerankConfig)
          → o ≡ some cfg
          → load_reranker_with reachable name o ≡ returned l
          → choose_leg reachable cfg.allow_remote false cfg.primary
              (rerank_remote_id cfg)
              cfg.quantization
              name
            ≡ returned l
      chosen o e k =
          subst
            (λ b.
              choose_leg reachable cfg.allow_remote b cfg.primary (rerank_remote_id cfg)
                cfg.quantization name
              ≡ returned l)
            a (subst (λ x. load_reranker_with reachable name x ≡ returned l) e k)

      ends :
          (m : RemoteModel) (query : Text) (documents : List Text)
          (r : Outcome (List S) × (W × Option M))
          → Legs
              (in_order query documents)
              m
              (raise (embedding_unavailable (no_local_message cfg.primary)))
              r
          → ScoredOrUnavailable m query documents r
      ends m query documents r (inl p) = inl p
      ends m query documents r (inr (w, e)) = inr (no_local_message cfg.primary, ap (λ x. x.0) e)
