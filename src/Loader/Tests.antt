-- ===== src/Loader/Tests.antt =====
-- A remote-only model behind an endpoint that is down, a killed local run, and a load.
use event_driven_rag_pipelin.Prelude.{
  ℕ, ◌≡◌, ◌↔◌, refl, Text, text, text_eq, Bool, true, false, not, Option, none, some, List, [], ◌∷◌,
  keep, map,
}
use event_driven_rag_pipelin.Prelude.Action.{Outcome, returned, raised, other, raise, pure}
use event_driven_rag_pipelin.Config.{
  EmbedConfig, embed_configs, rerank_configs, remote_id, rerank_remote_id, bge_base_embed_cfg,
  qwen3_reranker_4b_cfg,
}
use event_driven_rag_pipelin.Guard.{Process, done, start, restart}
use event_driven_rag_pipelin.Ladder.{Endpoint, RemoteModel}
use event_driven_rag_pipelin.Loader.{
  config_in, rerank_config_in, load_sentence_transformer, wants, quant_int8, ladder, no_local,
  lazy_local, Local, load_model, load_reranker, encode, score,
}
use event_driven_rag_pipelin.Loader.RemoteOnly.{
  ScoredOrUnavailable, outage_skips, reranker_remote_only,
}
use event_driven_rag_pipelin.Loader.Quantised.{Source, Fits, load_sentence_transformer_iff}
use event_driven_rag_pipelin.Loader.Redelivery.{killed_skips}
use event_driven_rag_pipelin.Embed.{embed_chunks}
use event_driven_rag_pipelin.Embed.Fate.{is_failed}
use event_driven_rag_pipelin.Embed.Tests.{deps, batch, batch-IsBatch, fresh}

abbrev bge : Text
bge = text "BAAI/bge-base-en-v1.5"

-- the quantised load is not there, the plain one gives a model of 768 dimensions
abbrev build : Bool → Outcome ℕ
build true = raised (other (text "no bitsandbytes"))
build false = returned 768

load_sentence_transformer_iff_example :
    (load_sentence_transformer build (λ n. n) embed_configs bge (some (text "int8")) ≡ returned 768)
    ↔ (Source build (λ n. n) (wants quant_int8 (some (text "int8"))) 768
        × Fits build (λ n. n) (config_in embed_configs bge) 768)
load_sentence_transformer_iff_example =
    load_sentence_transformer_iff build (λ n. n) embed_configs bge (some (text "int8")) 768

-- bge-base with the local leg switched off
abbrev cfg : EmbedConfig
cfg = record bge_base_embed_cfg { allow_local = false }

abbrev remote : RemoteModel
remote = record { name = remote_id cfg; has_load_client = true; quantization = none }

abbrev dead : {A : Type 0} → Endpoint ℕ A
dead {A} = record {
  health = raise (other (text "connection refused"));
  models = pure [];
  load = λ name q. pure tt;
  ask = λ name. raise (other (text "connection refused"));
}

abbrev same : Text → Text
same m = m

abbrev load : Text → Outcome ℕ
load name = returned 768

abbrev encode_with : ℕ → List Text → Outcome (List ℕ)
encode_with m texts = returned (map (λ t. m) texts)

abbrev here : Local ℕ
here = record { guard = record { files = []; active = [] }; model = none }

outage_skips_example :
    (m : RemoteModel) × (ladder remote (no_local bge) ≡ ladder m (no_local bge))
    × (embed_chunks deps batch bge
          (λ texts.
            (encode same load encode_with (λ texts. dead) m (no_local bge) texts (0, here)).0)
          fresh
        ≡ (returned (keep (λ t. not (is_failed deps t)) batch, keep (is_failed deps) batch), fresh))
outage_skips_example =
    outage_skips same load encode_with (λ texts. dead) true ((text "body", cfg) ∷ []) bge cfg
      (ladder remote (no_local bge)) (unfold config_in text_eq in refl) refl
      (unfold load_model config_in text_eq in refl) 0 here (other (text "connection refused")) deps
      batch fresh batch-IsBatch (λ texts. refl)

abbrev nought : ℕ
nought = 0

abbrev reranker : RemoteModel
reranker = record {
  name = rerank_remote_id qwen3_reranker_4b_cfg;
  has_load_client = true;
  quantization = some (text "int4");
}

reranker_remote_only_example :
    (m : RemoteModel) × (m.name ≡ rerank_remote_id qwen3_reranker_4b_cfg)
    × (ladder reranker (no_local qwen3_reranker_4b_cfg.primary)
        ≡ ladder m (no_local qwen3_reranker_4b_cfg.primary))
    × ((query : Text) (documents : List Text) (w : ℕ × Option ℕ)
        → ScoredOrUnavailable nought load
            (λ m q ds. returned [])
            (λ q ds. dead)
            m
            query
            documents
            (score nought load
              (λ m q ds. returned [])
              (λ q ds. dead)
              m
              (no_local qwen3_reranker_4b_cfg.primary)
              query
              documents
              w))
reranker_remote_only_example =
    reranker_remote_only nought load (λ m q ds. returned []) (λ q ds. dead) true rerank_configs
      qwen3_reranker_4b_cfg.primary qwen3_reranker_4b_cfg
      (ladder reranker (no_local qwen3_reranker_4b_cfg.primary))
      (unfold rerank_config_in rerank_configs text_eq in refl) refl
      (unfold load_reranker rerank_config_in rerank_configs text_eq in refl)

abbrev idle : Process
idle = record { guard = record { files = []; active = [] }; cleared = bge ∷ [] }

killed_skips_example :
    let process : Process = restart (record idle { guard = start bge idle.guard }) in
    let run = λ (texts : List Text).
      encode same load encode_with
        (λ texts. dead)
        remote
        (lazy_local bge)
        texts
        (0, record { guard = process.guard; model = none }) in
    (embed_chunks deps batch bge (λ texts. (run texts).0) fresh
      ≡ (returned (keep (λ t. not (is_failed deps t)) batch, keep (is_failed deps) batch), fresh))
    × ((texts : List Text) → (run texts).1.1.model ≡ none)
killed_skips_example =
    killed_skips same load encode_with bge idle (done _) (done _) (λ texts. dead) remote 0 none
      (other (text "connection refused")) deps batch fresh batch-IsBatch (λ texts. refl)
