-- ===== src/Ladder/Tests.antt =====
-- The ladder over an endpoint that answers and over one that is down.
use event_driven_rag_pipelin.Prelude.{
  ℕ, ◌≡◌, ◌<◌, length, get_elem?, text, true, some, List, [], ◌∷◌, arith,
}
use event_driven_rag_pipelin.Prelude.Action.{returned, other, Action, pure, raise}
use event_driven_rag_pipelin.Ladder.{Endpoint, RemoteModel, ScoreRow, prefer_remote, align}
use event_driven_rag_pipelin.Ladder.Legs.{Legs, prefer_remote-Legs}
use event_driven_rag_pipelin.Ladder.Align.{align_lem, score_at}

abbrev remote : RemoteModel
remote = record { name = text "e"; has_load_client = true; quantization = some (text "int8") }

abbrev answers : Endpoint ℕ ℕ
answers = record {
  health = pure tt;
  models = pure (record { id = text "e"; state = text "not-loaded" } ∷ []);
  load = λ name q. pure tt;
  ask = λ name n. (returned n, n);
}

abbrev local : Action ℕ ℕ
local = raise (other (text "no local"))

prefer_remote-Legs_example : Legs answers remote local (prefer_remote answers remote local 7)
prefer_remote-Legs_example = prefer_remote-Legs answers remote local 7

abbrev rows : List (ScoreRow ℕ)
rows = record { index = 1; score = 8 } ∷ record { index = 0; score = 5 } ∷ []

align_lem_example :
    (l : List ℕ) × (align 0 (text "a" ∷ text "b" ∷ []) rows ≡ returned l)
    × (length l ≡ 2)
    × ((i : ℕ) → i < 2 → get_elem? l i ≡ some (score_at 0 i rows))
align_lem_example = align_lem 0 (text "a" ∷ text "b" ∷ []) rows (omega arith, (omega arith, tt))
