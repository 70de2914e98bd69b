-- ===== src/TableNames/Tests.antt =====
-- Built and cut names of build_table_names.py.
use event_driven_rag_pipelin.Prelude.{◌≡◌, refl, Text, text, some, ◌++◌, All, arith}
use event_driven_rag_pipelin.Config.{EmbedConfig, embed_configs}
use event_driven_rag_pipelin.TableNames.{
  marker, before, build_chunk_table_name, build_chunk_table_suffix_map, parse_chunk_table_name,
}
use event_driven_rag_pipelin.TableNames.Parsing.{build-parse}

abbrev posts : Text
posts = text "posts_main"

posts-marker : before marker (posts ++ marker) ≡ some posts
unfolding before
posts-marker = refl

build-parse_example :
    All
      (λ (e : Text × EmbedConfig).
        parse_chunk_table_name
          (build_chunk_table_name posts e.0 e.1.primary)
          (build_chunk_table_suffix_map embed_configs)
        ≡ some (posts, e.0, e.1))
      embed_configs
build-parse_example = build-parse posts (omega arith) posts-marker
