-- ===== src/Config.antt =====
-- src/event_driven_rag_service/config/embedding_config.py and reranking_config.py: the models, by
-- chunk type and by rerank profile.
use event_driven_rag_pipelin.Prelude.{
  ℕ, Text, text, text_eq, Bool, true, false, Option, none, some, [], ◌∷◌, ◌++◌, Dict, map, first,
}

-- `chunk_overlap` is in hundredths
pub record ChunkConfig : Type 0 where
  pub target_words : ℕ
  pub hard_limit_words : ℕ
  pub chunk_overlap : ℕ

pub record EmbedConfig : Type 0 where
  pub primary : Text
  pub queue : Text
  pub dim : ℕ
  pub allow_local : Bool
  pub allow_remote : Bool
  pub remote_model : Option Text
  pub quantization : Option Text
  pub query_prefix : Option Text
  pub max_batch : Option ℕ

pub record RerankConfig : Type 0 where
  pub primary : Text
  pub queue : Text
  pub allow_local : Bool
  pub allow_remote : Bool
  pub remote_model : Option Text
  pub quantization : Option Text
  pub max_batch : Option ℕ

-- `remote_model or primary`
abbrev or_primary : Option Text → Text → Text
or_primary none primary = primary
or_primary (some []) primary = primary
or_primary (some (c ∷ s)) primary = c ∷ s

abbrev pub remote_id : EmbedConfig → Text
remote_id cfg = or_primary cfg.remote_model cfg.primary

abbrev pub rerank_remote_id : RerankConfig → Text
rerank_remote_id cfg = or_primary cfg.remote_model cfg.primary

abbrev chunk_config : ℕ → ℕ → ℕ → ChunkConfig
chunk_config target limit overlap = record {
  target_words = target;
  hard_limit_words = limit;
  chunk_overlap = overlap;
}

unfoldable pub chunk_configs : Dict ChunkConfig
chunk_configs =
    (text "body", chunk_config 400 480 10)
    ∷ (text "title", chunk_config 400 480 0)
    ∷ (text "summary_title", chunk_config 18000 32000 0)
    ∷ (text "analysis", chunk_config 400 512 10)
    ∷ []

abbrev pub default_chunk_config : ChunkConfig
default_chunk_config = chunk_config 500 750 10

abbrev instruct_prefix : Text
instruct_prefix =
    text "Instruct: Given a web search query, retrieve relevant passages that answer the query"
    ++ (10 ∷ text "Query: ")

abbrev passages_prefix : Text
passages_prefix = text "Represent this sentence for searching relevant passages: "

abbrev pub qwen3_embed_cfg : EmbedConfig
qwen3_embed_cfg = record {
  primary = text "Qwen/Qwen3-Embedding-0.6B";
  queue = text "gpu.embed.qwen3-0.6b";
  dim = 1024;
  allow_local = true;
  allow_remote = true;
  remote_model = some (text "text-embedding-qwen3-embedding-0.6b");
  quantization = some (text "int8");
  query_prefix = some instruct_prefix;
  max_batch = none;
}

abbrev pub qwen3_4b_embed_cfg : EmbedConfig
qwen3_4b_embed_cfg = record {
  primary = text "Qwen/Qwen3-Embedding-4B";
  queue = text "gpu.embed.qwen3-4b";
  dim = 2560;
  allow_local = true;
  allow_remote = true;
  remote_model = some (text "text-embedding-qwen3-embedding-4b");
  quantization = some (text "int8");
  query_prefix = some instruct_prefix;
  max_batch = some 2;
}

abbrev pub bge_base_embed_cfg : EmbedConfig
bge_base_embed_cfg = record {
  primary = text "BAAI/bge-base-en-v1.5";
  queue = text "gpu.embed.bge-base-en-v1.5";
  dim = 768;
  allow_local = true;
  allow_remote = true;
  remote_model = some (text "text-embedding-bge-base-en-v1.5");
  quantization = none;
  query_prefix = some passages_prefix;
  max_batch = none;
}

abbrev pub bge_small_embed_cfg : EmbedConfig
bge_small_embed_cfg = record {
  primary = text "BAAI/bge-small-en-v1.5";
  queue = text "gpu.embed.bge-small-en-v1.5";
  dim = 384;
  allow_local = true;
  allow_remote = true;
  remote_model = some (text "text-embedding-bge-small-en-v1.5");
  quantization = none;
  query_prefix = some passages_prefix;
  max_batch = none;
}

-- EMBED_CONFIGS
unfoldable pub embed_configs : Dict EmbedConfig
embed_configs =
    (text "body", bge_base_embed_cfg)
    ∷ (text "title", bge_small_embed_cfg)
    ∷ (text "summary_title", qwen3_4b_embed_cfg)
    ∷ (text "analysis", qwen3_embed_cfg)
    ∷ []

abbrev pub qwen3_reranker_4b_cfg : RerankConfig
qwen3_reranker_4b_cfg = record {
  primary = text "Qwen/Qwen3-Reranker-4B";
  queue = text "gpu.rerank.qwen3-reranker-4b";
  allow_local = false;
  allow_remote = true;
  remote_model = some (text "text-rerank-qwen3-reranker-4b");
  quantization = some (text "int4");
  max_batch = some 50;
}

abbrev pub qwen3_reranker_small_cfg : RerankConfig
qwen3_reranker_small_cfg = record {
  primary = text "Qwen/Qwen3-Reranker-0.6B";
  queue = text "gpu.rerank.qwen3-reranker-0.6b";
  allow_local = false;
  allow_remote = true;
  remote_model = some (text "text-rerank-qwen3-reranker-0.6b");
  quantization = some (text "int4");
  max_batch = some 50;
}

-- RERANK_CONFIGS
unfoldable pub rerank_configs : Dict RerankConfig
rerank_configs =
    (text "default", qwen3_reranker_4b_cfg)
    ∷ (text "qwen3-reranker-4b", qwen3_reranker_4b_cfg)
    ∷ (text "qwen3-reranker-0.6b", qwen3_reranker_small_cfg)
    ∷ []

-- `next((c for c in EMBED_CONFIGS.values() if c.primary == model_name), None)`
unfoldable pub config_for : Text → Option EmbedConfig
unfolding embed_configs
config_for model_name =
    first (λ (c : EmbedConfig). text_eq c.primary model_name)
      (map (λ (e : Text × EmbedConfig). e.1) embed_configs)
