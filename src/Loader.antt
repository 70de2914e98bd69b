-- ===== src/Loader.antt =====
-- src/event_driven_rag_service/worker/entrypoints/gpu.py: which model the GPU worker loads for a name,
-- and the local leg behind the ladder. Building a SentenceTransformer or a reranker is a parameter: what
-- the library returns or raises for a quantised or a plain load. Settings are a record; logs, metrics
-- and the mock models are left out, as is the worker's setup.
pub mod RemoteOnly
pub mod Redelivery
pub mod Quantised
mod Tests
use event_driven_rag_pipelin.Prelude.{
  ℕ, ◌+◌, ◌&&◌, ◌||◌, ◌==◌, Text, text, text_eq, contains, Bool, true, false, not, Option, none,
  some, List, [], ◌∷◌, ◌++◌, map, first, is_empty, if◌then◌else◌, Dict,
}
use event_driven_rag_pipelin.Prelude.Action.{
  Exception, embedding_unavailable, other, Outcome, returned, raised, Action, pure, raise, lift,
  ◌>>=◌, ◌>>◌,
}
use event_driven_rag_pipelin.Config.{EmbedConfig, RerankConfig, remote_id, rerank_remote_id}
use event_driven_rag_pipelin.Posts.{strip}
use event_driven_rag_pipelin.TableNames.{lower}
use event_driven_rag_pipelin.Guard.{LocalRunGuard, check, start, finish}
use event_driven_rag_pipelin.Ladder.{Endpoint, RemoteModel, ScoreRow}
use event_driven_rag_pipelin.Ladder as Ladder

-- `_config_for`, where the table EMBED_CONFIGS is an argument
unfoldable pub config_in : Dict EmbedConfig → Text → Option EmbedConfig
config_in configs model_name =
    first (λ (c : EmbedConfig). text_eq c.primary model_name)
      (map (λ (e : Text × EmbedConfig). e.1) configs)

-- `_rerank_config_for`, where the table RERANK_CONFIGS is an argument
unfoldable pub rerank_config_in : Dict RerankConfig → Text → Option RerankConfig
rerank_config_in configs model_name =
    first (λ (c : RerankConfig). text_eq c.primary model_name)
      (map (λ (e : Text × RerankConfig). e.1) configs)

-- the local leg of a ladder: `_LazyLocalModel` or `_NoLocalFallback`, and those of rerankers
pub data LocalLeg : Type 0 where
  lazy_local no_local : (primary : Text) → LocalLeg

-- What a loader gives: a model that is loaded here, or the ladder over a remote model.
pub data Loaded : Type 0 where
  loads_here : (model_name : Text) → Loaded
  ladder : RemoteModel → LocalLeg → Loaded

abbrev pub local_leg : Bool → Text → LocalLeg
local_leg true primary = lazy_local primary
local_leg false primary = no_local primary

-- the four cases, where `reachable` says that EMBED_REMOTE_URL is set
unfoldable pub choose_leg : Bool → Bool → Bool → Text → Text → Option Text → Text → Outcome Loaded
choose_leg reachable allow_remote allow_local primary remote_name quantization model_name =
    if reachable && allow_remote
    then returned (
        ladder (record { name = remote_name; has_load_client = true; quantization = quantization })
          (local_leg allow_local primary))
    else if allow_local
    then returned (loads_here model_name)
    else raised (other (model_name ++ text " has allow_local=False and no usable remote leg"))

-- `_load_model`
abbrev pub load_with : Bool → Text → Option EmbedConfig → Outcome Loaded
load_with reachable model_name none = returned (loads_here model_name)
load_with reachable model_name (some cfg) =
    choose_leg reachable cfg.allow_remote cfg.allow_local cfg.primary (remote_id cfg)
      cfg.quantization model_name

unfoldable pub load_model : Bool → Dict EmbedConfig → Text → Outcome Loaded
unfolding config_in choose_leg
load_model reachable configs model_name =
    load_with reachable model_name (config_in configs model_name)

-- `_load_reranker`
abbrev pub load_reranker_with : Bool → Text → Option RerankConfig → Outcome Loaded
load_reranker_with reachable model_name none = returned (loads_here model_name)
load_reranker_with reachable model_name (some cfg) =
    choose_leg reachable cfg.allow_remote cfg.allow_local cfg.primary (rerank_remote_id cfg)
      cfg.quantization model_name

unfoldable pub load_reranker : Bool → Dict RerankConfig → Text → Outcome Loaded
unfolding rerank_config_in choose_leg
load_reranker reachable configs model_name =
    load_reranker_with reachable model_name (rerank_config_in configs model_name)

abbrev is_reranker : Option RerankConfig → Bool
is_reranker none = false
is_reranker (some cfg) = true

-- `_load_model_or_reranker`
pub load_model_or_reranker : Bool → Dict EmbedConfig → Dict RerankConfig → Text → Outcome Loaded
unfolding load_model load_reranker
load_model_or_reranker reachable configs rerankers model_name =
    if is_reranker (rerank_config_in rerankers model_name)
    then load_reranker reachable rerankers model_name
    else load_model reachable configs model_name

-- _QUANT_INT8, _QUANT_INT4 and the test of `_wants_int8` and `_wants_int4`; a value that is neither
-- accepted nor off is only logged
abbrev pub quant_int8 : List Text
quant_int8 = text "int8" ∷ text "8bit" ∷ text "8-bit" ∷ text "q8" ∷ text "q8_0" ∷ []

abbrev pub quant_int4 : List Text
quant_int4 = text "int4" ∷ text "4bit" ∷ text "4-bit" ∷ text "q4" ∷ text "nf4" ∷ []

unfoldable pub wants : List Text → Option Text → Bool
unfolding strip lower
wants accepted none = false
wants accepted (some quantization) = contains (lower (strip (some quantization))) accepted

-- `_resolve_device`, where `probe` is `torch.cuda.is_available()`
pub resolve_device : Outcome Bool → Text
resolve_device (returned true) = text "cuda"
resolve_device (returned false) = text "cpu"
resolve_device (raised e) = text "cpu"

module _ {M : Type 0} (build : Bool → Outcome M) where
  abbrev or_plain : Outcome M → Outcome M
  or_plain (returned m) = returned m
  or_plain (raised e) = build false

  -- a quantised load that raises is retried at full precision
  pub build_model : Bool → Outcome M
  build_model true = or_plain (build true)
  build_model false = build false

  abbrev refuse_dim : Bool → Text → M → Outcome M
  refuse_dim true model_name m = raised (other (model_name ++ text " loaded with a wrong dim"))
  refuse_dim false model_name m = returned m

  -- the check of the dimension against the config
  abbrev checked_dim : (M → ℕ) → Text → Option EmbedConfig → Outcome M → Outcome M
  checked_dim dim model_name cfg (raised e) = raised e
  checked_dim dim model_name none (returned m) = returned m
  checked_dim dim model_name (some cfg) (returned m) =
      refuse_dim (not (dim m == cfg.dim)) model_name m

  -- `_load_sentence_transformer`
  pub load_sentence_transformer : (M → ℕ) → Dict EmbedConfig → Text → Option Text → Outcome M
  unfolding build_model wants config_in
  load_sentence_transformer dim configs model_name quantization =
      checked_dim dim model_name (config_in configs model_name)
        (build_model (wants quant_int8 quantization))

  abbrev quantization_of : Option EmbedConfig → Option Text
  quantization_of none = none
  quantization_of (some cfg) = cfg.quantization

  -- `_load_local_model`
  pub load_local_model : (M → ℕ) → Dict EmbedConfig → Text → Outcome M
  unfolding load_sentence_transformer config_in
  load_local_model dim configs model_name =
      load_sentence_transformer dim configs model_name
        (quantization_of (config_in configs model_name))

  abbrev with_tokenizer : {T : Type 0} → Outcome T → Outcome M → Outcome (M × T)
  with_tokenizer (returned t) (returned m) = returned (m, t)
  with_tokenizer (raised e) (returned m) = raised e
  with_tokenizer tokenizer (raised e) = raised e

  -- `_load_qwen3_reranker`: 4-bit only on CUDA
  pub load_qwen3_reranker : {T : Type 0} → Outcome T → Outcome Bool → Option Text → Outcome (M × T)
  unfolding build_model wants resolve_device
  load_qwen3_reranker tokenizer probe quantization =
      with_tokenizer tokenizer (
        build_model (wants quant_int4 quantization && text_eq (resolve_device probe) (text "cuda")))

-- The process's guard and the model that the lazy leg has loaded.
pub record Local (M : Type 0) : Type 0 where
  pub guard : LocalRunGuard
  pub model : Option M

module _ {M V : Type 0} (describe : Text → Text) (load : Text → Outcome M)
    (encode_with : M → List Text → Outcome (List V)) where
  abbrev loaded_with : List Text → LocalRunGuard → Outcome M → Outcome (List V) × Local M
  loaded_with texts g (returned m) = (encode_with m texts, record { guard = g; model = some m })
  loaded_with texts g (raised e) = (raised e, record { guard = g; model = none })

  -- the body of the guarded block; `g` is the guard that it leaves
  abbrev load_and_encode : Text → List Text → LocalRunGuard → Option M → Outcome (List V) × Local M
  load_and_encode primary texts g (some m) =
      (encode_with m texts, record { guard = g; model = some m })
  load_and_encode primary texts g none = loaded_with texts g (load primary)

  abbrev guarded :
      Text → List Text → Local M → LocalRunGuard → Outcome (Unit {0}) → Outcome (List V) × Local M
  guarded primary texts l g (returned u) =
      load_and_encode primary texts (finish primary (start primary g)) l.model
  guarded primary texts l g (raised e) = (raised e, record { guard = g; model = l.model })

  -- `_LazyLocalModel.encode`
  pub lazy_encode : Text → List Text → Action (Local M) (List V)
  unfolding check start finish
  lazy_encode primary texts l =
      guarded primary texts l (check describe primary l.guard).1 (check describe primary l.guard).0

-- a call that touches the remote world, or the local one, only
abbrev pub on_remote : {W L A : Type 0} → Action W A → Action (W × L) A
on_remote m (w, l) = ((m w).0, ((m w).1, l))

abbrev pub on_local : {W L A : Type 0} → Action L A → Action (W × L) A
on_local m (w, l) = ((m l).0, (w, (m l).1))

abbrev pub remote_endpoint : {W L A : Type 0} → Endpoint W A → Endpoint (W × L) A
remote_endpoint {W} {L} {A} e = record {
  health = on_remote e.health;
  models = on_remote e.models;
  load = λ name q. on_remote (e.load name q);
  ask = λ name. on_remote (e.ask name);
}

abbrev pub no_local_message : Text → Text
no_local_message name = text "Remote embedding unavailable for " ++ name

module _ {W M V : Type 0} (describe : Text → Text) (load : Text → Outcome M)
    (encode_with : M → List Text → Outcome (List V)) where
  -- the `encode` of either local leg
  unfoldable pub local_encode : LocalLeg → List Text → Action (W × Local M) (List V)
  unfolding lazy_encode
  local_encode (lazy_local primary) texts =
      on_local (lazy_encode describe load encode_with primary texts)
  local_encode (no_local primary) texts = raise (embedding_unavailable (no_local_message primary))

  -- the `encode` of the model that `build_fallback_model` gives
  unfoldable pub encode :
      (List Text → Endpoint W (List V))
      → RemoteModel
      → LocalLeg
      → List Text
      → Action (W × Local M) (List V)
  unfolding local_encode Ladder.encode
  encode endpoint m leg texts =
      Ladder.encode (λ t. remote_endpoint (endpoint t)) m (local_encode leg) texts

-- `_LazyLocalReranker.score`; its state is the model that it has loaded
module _ {M S : Type 0} (load : Text → Outcome M)
    (score_with : M → Text → List Text → Outcome (List S)) where
  abbrev scored_with : Text → List Text → Outcome M → Outcome (List S) × Option M
  scored_with query documents (returned m) = (score_with m query documents, some m)
  scored_with query documents (raised e) = (raised e, none)

  pub lazy_score : Text → Text → List Text → Action (Option M) (List S)
  lazy_score primary query documents none = scored_with query documents (load primary)
  lazy_score primary query documents (some m) = (score_with m query documents, some m)

module _ {W M S : Type 0} (nought : S) (load : Text → Outcome M)
    (score_with : M → Text → List Text → Outcome (List S)) where
  unfoldable pub local_score : LocalLeg → Text → List Text → Action (W × Option M) (List S)
  unfolding lazy_score
  local_score (lazy_local primary) query documents =
      on_local (lazy_score load score_with primary query documents)
  local_score (no_local primary) query documents =
      raise (embedding_unavailable (no_local_message primary))

  -- the `score` of the model that `build_fallback_reranker` gives
  unfoldable pub score :
      (Text → List Text → Endpoint W (List (ScoreRow S)))
      → RemoteModel
      → LocalLeg
      → Text
      → List Text
      → Action (W × Option M) (List S)
  unfolding local_score Ladder.score
  score endpoint m leg query documents =
      Ladder.score nought (λ q ds. remote_endpoint (endpoint q ds)) m (local_score leg) query
        documents
