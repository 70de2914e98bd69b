-- ===== src/Remote.antt =====
-- src/remote_embedder_service/src/remote_embedder/registry.py and manager.py: the models that the
-- service serves, and the manager that holds at most one of them. `M` is the type of loaded models
-- and `S` of floats; each operation gets the clock's reading. Locks, logging and torch are left out.
pub mod Residency
pub mod Batches
mod Tests
use event_driven_rag_pipelin.Prelude.{
  ℕ, zero, suc, ◌-◌, max, Text, text, text_eq, Bool, true, false, ◌&&◌, Option, none, some, List,
  [], ◌∷◌, ◌++◌, contains, if◌then◌else◌, Dict, lookup, ltb, leb, length, ◌==◌, not,
}
use event_driven_rag_pipelin.Prelude.Action.{
  Exception, other, Outcome, returned, raised, Action, pure, raise, lift, modify, ◌>>=◌, ◌>>◌,
}
use event_driven_rag_pipelin.Posts.{strip}
use event_driven_rag_pipelin.TableNames.{lower}

pub data Kind : Type 0 where
  embed rerank : Kind

pub record ModelSpec : Type 0 where
  pub id : Text
  pub repo_id : Text
  pub kind : Kind
  pub dim : ℕ
  pub quantize : Bool

abbrev pub spec : Text → Text → Kind → ℕ → Bool → ModelSpec
spec i repo k d q = record { id = i; repo_id = repo; kind = k; dim = d; quantize = q }

abbrev keyed : ModelSpec → Text × ModelSpec
keyed s = (s.id, s)

-- MODEL_REGISTRY
unfoldable pub model_registry : Dict ModelSpec
model_registry =
    keyed
      (spec (text "text-embedding-bge-base-en-v1.5") (text "BAAI/bge-base-en-v1.5") embed 768 false)
    ∷ keyed (
        spec (text "text-embedding-bge-small-en-v1.5") (text "BAAI/bge-small-en-v1.5") embed 384
          false)
    ∷ keyed (
        spec (text "text-embedding-qwen3-embedding-0.6b") (text "Qwen/Qwen3-Embedding-0.6B") embed
          1024 true)
    ∷ keyed (
        spec (text "text-embedding-qwen3-embedding-4b") (text "Qwen/Qwen3-Embedding-4B") embed 2560
          true)
    ∷ keyed (
        spec (text "text-rerank-qwen3-reranker-0.6b") (text "Qwen/Qwen3-Reranker-0.6B") rerank 0
          true)
    ∷ keyed
        (spec (text "text-rerank-qwen3-reranker-4b") (text "Qwen/Qwen3-Reranker-4B") rerank 0 true)
    ∷ []

unfoldable pub get_spec : Text → Option ModelSpec
unfolding model_registry lookup
get_spec model_id = lookup model_id model_registry

abbrev quant_vocab : Kind → List Text
quant_vocab rerank = text "int4" ∷ text "4bit" ∷ text "4-bit" ∷ text "q4" ∷ text "nf4" ∷ []
quant_vocab embed = text "int8" ∷ text "8bit" ∷ text "8-bit" ∷ text "q8" ∷ text "q8_0" ∷ []

abbrev quant_off : List Text
quant_off =
    text "none"
    ∷ text "off"
    ∷ text "full"
    ∷ text "fp16"
    ∷ text "float16"
    ∷ text "fp32"
    ∷ text "float32"
    ∷ []

-- a request overrides the registry, and an unknown one does not
pub resolve_quantization : ModelSpec → Option Text → Bool
unfolding strip lower
resolve_quantization s none = s.quantize
resolve_quantization s (some requested) =
    let value = lower (strip (some requested)) in
    if contains value (quant_vocab s.kind)
    then true
    else if contains value quant_off
    then false
    else s.quantize

pub record Deps (M S : Type 0) : Type 0 where
  pub loader : ModelSpec → Outcome M
  pub encode : M → List Text → Outcome (List (List S))
  pub score : M → Text → List Text → Outcome (List S)

pub record Settings : Type 0 where
  pub max_batch_size : ℕ
  pub idle_unload_s : ℕ

pub record ModelManager (M : Type 0) : Type 0 where
  pub model : Option M
  pub model_id : Option Text
  pub quantized : Bool
  pub last_used_at : ℕ

abbrev pub is_resident : Option Text → Text → Bool
is_resident none i = false
is_resident (some j) i = text_eq j i

abbrev same_flag : Bool → Bool → Bool
same_flag true b = b
same_flag false b = not b

abbrev pub unknown_model : Exception
unknown_model = other (text "UnknownModelError")

abbrev pub load_error : Exception
load_error = other (text "ModelLoadError")

-- the current batch, and those behind it, with `room` places left in the current one
abbrev pub split : {A : Type 0} → ℕ → ℕ → List A → List A × List (List A)
split k room [] = ([], [])
split k zero (x ∷ l) = let (now, later) = split k (k - 1) l in ([], (x ∷ now) ∷ later)
split k (suc room) (x ∷ l) = let (now, later) = split k room l in (x ∷ now, later)

-- `texts[start : start + size] for start in range(0, len(texts), size)`
pub batches : {A : Type 0} → ℕ → List A → List (List A)
batches size l = (split size 0 l).1

abbrev is_some : Option Text → Bool
is_some none = false
is_some (some i) = true

module _ {M : Type 0} where
  -- `_release`
  pub release : ModelManager M → ModelManager M
  release s = record s { model = none; model_id = none; quantized = false }

  -- `_touch`
  pub touch : ℕ → ModelManager M → ModelManager M
  touch now s = record s { last_used_at = now }

  abbrev release_if : Bool → ModelManager M → ModelManager M
  release_if true s = release s
  release_if false s = s

  -- what `load` evicts before it loads
  pub evict : Text → ModelManager M → ModelManager M
  unfolding release
  evict i s =
      let s' = release_if (is_resident s.model_id i) s in release_if (is_some s'.model_id) s'

  -- `unload`
  abbrev unload_held : Option Text → Option Text → ModelManager M → Bool × ModelManager M
  unload_held asked none s = (false, s)
  unload_held none (some j) s = (true, release s)
  unload_held (some i) (some j) s = if text_eq j i then (true, release s) else (false, s)

  pub unload : Option Text → ModelManager M → Bool × ModelManager M
  unfolding release
  unload asked s = unload_held asked s.model_id s

  -- `reap_once`; a threshold of zero turns it off
  abbrev reap_held : Option Text → Bool → ModelManager M → Bool × ModelManager M
  reap_held none stale s = (false, s)
  reap_held (some i) stale s = if stale then (true, release s) else (false, s)

  pub reap_once : Settings → ℕ → ModelManager M → Bool × ModelManager M
  unfolding release
  reap_once settings now s =
      if settings.idle_unload_s == 0
      then (false, s)
      else reap_held s.model_id (leb settings.idle_unload_s (now - s.last_used_at)) s

module _ {M S : Type 0} (d : Deps M S) where
  abbrev width : Outcome (List (List S)) → Option ℕ
  width (raised e) = none
  width (returned []) = some 0
  width (returned (v ∷ vs)) = some (length v)

  abbrev has_width : Option ℕ → ℕ → Bool
  has_width none n = false
  has_width (some k) n = k == n

  -- `_verify_dim`, for embedding models only
  pub verified : ModelSpec → M → Bool
  verified s m = elim s.kind [
    | embed ↦ has_width (width (d.encode m (text "dimension probe" ∷ []))) s.dim
    | rerank ↦ true
  ]

  abbrev pub installed :
      Text → ModelSpec → ℕ → Outcome M → ModelManager M → Outcome ModelSpec × ModelManager M
  installed i sp now (raised e) s = (raised load_error, s)
  installed i sp now (returned m) s =
      if verified sp m
      then (
        returned sp,
        record { model = some m; model_id = some i; quantized = sp.quantize; last_used_at = now },
      )
      else (raised load_error, s)

  abbrev pub load_spec : Text → ModelSpec → ℕ → ModelManager M → Outcome ModelSpec × ModelManager M
  load_spec i sp now s =
      if is_resident s.model_id i && same_flag s.quantized sp.quantize
      then (returned sp, touch now s)
      else installed i sp now (d.loader sp) (evict i s)

  abbrev pub load_found :
      Text → Option ModelSpec → Option Text → ℕ → Action (ModelManager M) ModelSpec
  load_found i none quantization now s = (raised unknown_model, s)
  load_found i (some base) quantization now s =
      load_spec i (record base { quantize = resolve_quantization base quantization }) now s

  -- `load`
  pub load : Text → Option Text → ℕ → Action (ModelManager M) ModelSpec
  unfolding touch evict verified resolve_quantization get_spec
  load i quantization now = load_found i (get_spec i) quantization now

  -- load the model unless it is the resident one
  abbrev pub ensure : Text → ℕ → Action (ModelManager M) (Unit {0})
  ensure i now s =
      if is_resident s.model_id i then (returned tt, s) else (load i none now >>= λ _. pure tt) s

  abbrev pub held : Option M → Outcome M
  held none = raised (other (text "AssertionError"))
  held (some m) = returned m

  abbrev append_result : Outcome (List (List S)) → Outcome (List (List S)) → Outcome (List (List S))
  append_result (returned vs) (returned ws) = returned (vs ++ ws)
  append_result (returned vs) (raised e) = raised e
  append_result (raised e) rest = raised e

  -- the loop over the sub-batches
  pub encode_batches : M → List (List Text) → Outcome (List (List S))
  encode_batches m [] = returned []
  encode_batches m (b ∷ rest) = append_result (d.encode m b) (encode_batches m rest)

  abbrev pub counted : {B : Type 0} → ℕ → List B → Outcome (List B)
  counted n l = if length l == n then returned l else raised load_error

  abbrev pub encode_resident : Settings → List Text → ℕ → Action (ModelManager M) (List (List S))
  encode_resident settings texts now s =
      (do
        m ← lift (held s.model)
        vectors ← lift (encode_batches m (batches (max 1 settings.max_batch_size) texts))
        modify (touch now)
        lift (counted (length texts) vectors))
        s

  abbrev pub encode_found :
      Settings → Text → Option ModelSpec → List Text → ℕ → Action (ModelManager M) (List (List S))
  encode_found settings i none texts now = raise unknown_model
  encode_found settings i (some sp) texts now = elim sp.kind [
    | rerank ↦ raise unknown_model
    | embed ↦ elim texts [
      | [] ↦ pure []
      | t ∷ ts ↦ ensure i now >>= λ _. encode_resident settings (t ∷ ts) now
    ]
  ]

  -- `encode`
  pub encode : Settings → Text → List Text → ℕ → Action (ModelManager M) (List (List S))
  unfolding load encode_batches batches touch get_spec
  encode settings i texts now = encode_found settings i (get_spec i) texts now

  abbrev pub score_resident : Text → List Text → ℕ → Action (ModelManager M) (List S)
  score_resident query documents now s =
      (do
        m ← lift (held s.model)
        scores ← lift (d.score m query documents)
        modify (touch now)
        lift (counted (length documents) scores))
        s

  abbrev pub rerank_found :
      Text → Option ModelSpec → Text → List Text → ℕ → Action (ModelManager M) (List S)
  rerank_found i none query documents now = raise unknown_model
  rerank_found i (some sp) query documents now = elim sp.kind [
    | embed ↦ raise unknown_model
    | rerank ↦ elim documents [
      | [] ↦ pure []
      | t ∷ ts ↦ ensure i now >>= λ _. score_resident query (t ∷ ts) now
    ]
  ]

  -- `rerank`
  pub rerank_documents : Text → Text → List Text → ℕ → Action (ModelManager M) (List S)
  unfolding load touch get_spec
  rerank_documents i query documents now = rerank_found i (get_spec i) query documents now

-- one request to the service, or a turn of the reaper, with the clock's reading
pub data Request : Type 0 where
  loading : Text → Option Text → ℕ → Request
  unloading : Option Text → Request
  encoding : Text → List Text → ℕ → Request
  reranking : Text → Text → List Text → ℕ → Request
  reaping : ℕ → Request

module _ {M S : Type 0} (d : Deps M S) (settings : Settings) where
  pub serve : Request → ModelManager M → ModelManager M
  unfolding load unload encode rerank_documents reap_once
  serve (loading i quantization now) s = (load d i quantization now s).1
  serve (unloading asked) s = (unload asked s).1
  serve (encoding i texts now) s = (encode d settings i texts now s).1
  serve (reranking i query documents now) s = (rerank_documents d i query documents now s).1
  serve (reaping now) s = (reap_once settings now s).1

  pub serve_all : List Request → ModelManager M → ModelManager M
  unfolding serve
  serve_all [] s = s
  serve_all (r ∷ requests) s = serve_all requests (serve r s)
