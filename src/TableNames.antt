-- ===== src/TableNames.antt =====
-- src/event_driven_rag_service/utils/build_table_names.py. Identifiers are counted in characters, as
-- the code does; `lower` changes the letters A to Z, the ones that model names have.
pub mod Parsing
mod Tests
use event_driven_rag_pipelin.Prelude.{
  ℕ, ◌+◌, ◌&&◌, Text, text, text_eq, Bool, true, false, Option, none, some, List, [], ◌∷◌, ◌++◌,
  map, ◌==◌, leb, ltb, if◌then◌else◌, take, length, Dict, insert,
}
use event_driven_rag_pipelin.Config.{EmbedConfig}

abbrev pub postgres_max_identifier_length : ℕ
postgres_max_identifier_length = 63

-- `_truncate_identifier`
unfoldable pub truncate_identifier : Text → Text
truncate_identifier name =
    if leb (length name) postgres_max_identifier_length
    then name
    else take postgres_max_identifier_length name

abbrev lower_char : ℕ → ℕ
lower_char c = if leb 65 c && leb c 90 then c + 32 else c

unfoldable pub lower : Text → Text
lower s = map lower_char s

-- `/`, `-` and `.` become `_`
abbrev safe_char : ℕ → ℕ
safe_char c = if c == 47 then 95 else if c == 45 then 95 else if c == 46 then 95 else c

unfoldable pub sanitize_model_name : Text → Text
unfolding lower
sanitize_model_name model = map safe_char (lower model)

abbrev pub marker : Text
marker = text "_chunks_"

unfoldable pub build_chunk_table_name : Text → Text → Text → Text
unfolding truncate_identifier lower sanitize_model_name
build_chunk_table_name post_table task_type model =
    truncate_identifier
      (post_table ++ (marker ++ (lower task_type ++ (text "_" ++ sanitize_model_name model))))

pub build_search_job_table_name : Text → Text → Text → Text
unfolding truncate_identifier lower sanitize_model_name
build_search_job_table_name post_table task_type model = truncate_identifier (
    post_table
    ++ (text "_search_jobs_" ++ (lower task_type ++ (text "_" ++ sanitize_model_name model))))

-- `build_chunk_table_suffix_map`: suffix to (task_type, config)
unfoldable pub suffixes_from :
    Dict EmbedConfig → Dict (Text × EmbedConfig) → Dict (Text × EmbedConfig)
unfolding sanitize_model_name
suffixes_from [] d = d
suffixes_from ((task_type, cfg) ∷ configs) d =
    suffixes_from configs
      (insert (task_type ++ (text "_" ++ sanitize_model_name cfg.primary)) (task_type, cfg) d)

unfoldable pub build_chunk_table_suffix_map : Dict EmbedConfig → Dict (Text × EmbedConfig)
unfolding suffixes_from
build_chunk_table_suffix_map configs = suffixes_from configs []

abbrev pub starts_with : Text → Text → Bool
starts_with [] s = true
starts_with (c ∷ m) [] = false
starts_with (c ∷ m) (d ∷ s) = (c == d) && starts_with m s

abbrev pub cons_some : ℕ → Option Text → Option Text
cons_some c none = none
cons_some c (some s) = some (c ∷ s)

-- `table_name[:table_name.find(m)]`, where `m` occurs
unfoldable pub before : Text → Text → Option Text
before m [] = if starts_with m [] then some [] else none
before m (c ∷ s) =
    let rest = before m s in if starts_with m (c ∷ s) then some [] else cons_some c rest

-- the loop over the suffix map
unfoldable pub match_suffix :
    Text → Text → Dict (Text × EmbedConfig) → Option (Text × Text × EmbedConfig)
unfolding truncate_identifier
match_suffix table_name post_table [] = none
match_suffix table_name post_table ((suffix, (task_type, cfg)) ∷ suffix_map) =
    let rest = match_suffix table_name post_table suffix_map in
    if text_eq (truncate_identifier (post_table ++ (marker ++ suffix))) table_name
    then some (post_table, task_type, cfg)
    else rest

abbrev match_from :
    Option Text → Text → Dict (Text × EmbedConfig) → Option (Text × Text × EmbedConfig)
match_from none table_name suffix_map = none
match_from (some post_table) table_name suffix_map = match_suffix table_name post_table suffix_map

unfoldable pub parse_chunk_table_name :
    Text → Dict (Text × EmbedConfig) → Option (Text × Text × EmbedConfig)
unfolding before match_suffix
parse_chunk_table_name table_name suffix_map =
    match_from (before marker table_name) table_name suffix_map
