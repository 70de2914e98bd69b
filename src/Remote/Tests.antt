-- ===== src/Remote/Tests.antt =====
-- The model manager of manager.py with models that encode a text as its length in every place.
use event_driven_rag_pipelin.Prelude.{
  ℕ, ◌≡◌, refl, Text, text, text_eq, Bool, false, none, some, List, [], ◌∷◌, map, length, lookup,
}
use event_driven_rag_pipelin.Prelude.Action.{returned}
use event_driven_rag_pipelin.Remote.{
  Deps, Settings, ModelManager, ModelSpec, embed, spec, get_spec, model_registry, encode, Request,
  loading, unloading, encoding, reranking, reaping, serve_all,
}
use event_driven_rag_pipelin.Remote.Batches.{encode_unbatched}
use event_driven_rag_pipelin.Remote.Residency.{IsResident, serve_all-IsResident}

abbrev vector_of : Text → List ℕ
vector_of s = length s ∷ []

abbrev deps : Deps Bool ℕ
deps = record {
  loader = λ s. returned s.quantize;
  encode = λ m l. returned (map vector_of l);
  score = λ m q l. returned (map (λ s. length s) l);
}

abbrev settings : Settings
settings = record { max_batch_size = 2; idle_unload_s = 900 }

abbrev bge : Text
bge = text "text-embedding-bge-small-en-v1.5"

abbrev bge_spec : ModelSpec
bge_spec = spec bge (text "BAAI/bge-small-en-v1.5") embed 384 false

abbrev idle : ModelManager Bool
idle = record { model = none; model_id = none; quantized = false; last_used_at = 0 }

abbrev warm : ModelManager Bool
warm = record { model = some false; model_id = some bge; quantized = false; last_used_at = 0 }

abbrev three : List Text
three = text "a" ∷ text "bb" ∷ text "ccc" ∷ []

encode_unbatched_example :
    (encode deps settings bge three 5 warm).0 ≡ returned (map vector_of three)
unfolding get_spec model_registry lookup text_eq
encode_unbatched_example =
    encode_unbatched deps false vector_of settings bge bge_spec three 5 warm (λ l. refl) refl refl
      refl refl

abbrev reranker : Text
reranker = text "text-rerank-qwen3-reranker-4b"

abbrev requests : List Request
requests =
    loading bge none 1
    ∷ encoding bge three 2
    ∷ reranking reranker (text "why") three 3
    ∷ reaping 2000
    ∷ unloading none
    ∷ []

serve_all-IsResident_example : IsResident deps (serve_all deps settings requests idle)
serve_all-IsResident_example = serve_all-IsResident deps settings requests idle tt
