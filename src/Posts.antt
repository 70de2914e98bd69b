-- ===== src/Posts.antt =====
-- The texts of a post: src/event_driven_rag_service/data_models/post.py, as far as they are chunked,
-- and `_resolve_text` of src/event_driven_rag_service/handlers/chunk_handler.py. Whitespace is that
-- of ASCII.
use event_driven_rag_pipelin.Prelude.{
  ℕ, Text, text, Bool, ◌&&◌, ◌||◌, Option, none, some, [], ◌∷◌, ◌++◌, if◌then◌else◌, leb,
}
use event_driven_rag_pipelin.Tasks.{
  ChunkKind, body, title, summary_title, analysis, is_blank, no_items,
}

pub record Post : Type 0 where
  pub external_id : Text
  pub updated_at : ℕ
  pub post_title : Text
  pub custom_title : Option Text
  pub body_text : Option Text
  pub custom_body : Option Text
  pub summary : Option Text
  pub analysis_text : Option Text

abbrev pub is_space : ℕ → Bool
is_space c = (leb 9 c && leb c 13) || (leb 28 c && leb c 32)

strip_left : Text → Text
strip_left [] = []
strip_left (c ∷ s) = let rest = strip_left s in if is_space c then rest else c ∷ s

strip_right : Text → Text
strip_right [] = []
strip_right (c ∷ s) =
    let rest = strip_right s in if is_space c && no_items rest then [] else c ∷ rest

-- `(s or "").strip()`
unfoldable pub strip : Option Text → Text
unfolding strip_left strip_right
strip none = []
strip (some s) = strip_right (strip_left s)

-- `a or b`
abbrev pub or_else : Option Text → Option Text → Option Text
or_else a b = if is_blank a then b else a

abbrev combined : Text → Text → Option Text
combined [] [] = none
combined [] (c ∷ s) = some (text "Summary: " ++ (c ∷ s))
combined (c ∷ t) [] = some (text "Title: " ++ (c ∷ t))
combined (c ∷ t) (d ∷ s) =
    some (text "Title: " ++ ((c ∷ t) ++ (10 ∷ 10 ∷ (text "Summary: " ++ (d ∷ s)))))

-- `_resolve_text`: the text to chunk for a kind, where the task may carry an analysis
unfoldable pub resolve_text : ChunkKind → Option Text → Post → Option Text
unfolding strip
resolve_text body carried p = or_else p.custom_body p.body_text
resolve_text title carried p = or_else p.custom_title (some p.post_title)
resolve_text summary_title carried p = combined (strip (some p.post_title)) (strip p.summary)
resolve_text analysis carried p = or_else carried p.analysis_text
