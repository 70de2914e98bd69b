-- ===== src/Worker/Gpu/Embedding.antt =====
-- gpu_worker.py with the handlers of embed_handler.py: they fill the worker's interface.
use event_driven_rag_pipelin.Prelude.{
  ℕ, ◌≤◌, ◌≢◌, Text, Bool, Option, List, [], ◌∷◌, count, arith, All,
}
use event_driven_rag_pipelin.Prelude.Action.{Outcome, Action}
use event_driven_rag_pipelin.Tasks.{EmbedTask, SearchRankTask, Task}
use event_driven_rag_pipelin.Embed.{World, Deps, embed_chunks, embed_query}
use event_driven_rag_pipelin.Embed.Fate.{IsDistinct}
use event_driven_rag_pipelin.Embed.Accounts.{embed_chunks-settles}
use event_driven_rag_pipelin.Worker.Gpu.{Handlers, Settles, task_idents, Config, GpuWorker, rounds}
use event_driven_rag_pipelin.Worker.Gpu.Once.{rounds_settle_once}
use event_driven_rag_pipelin.Worker.Settle.{IsOpen}

-- an embedding model is its `encode`
abbrev pub Encoder : Type 0 → Type 0
Encoder V = List Text → Outcome (List V)

module _ {S V : Type 0} (d : Deps V) (load : Text → Outcome (Encoder V))
    (rerank : Option (SearchRankTask S → Text → Encoder V → Action (World V) Bool)) where
  unfoldable pub embed_handlers : Handlers S (Encoder V) (World V)
  embed_handlers = record {
    load_model = load;
    embed_chunks = λ tasks n encode. embed_chunks d tasks n encode;
    embed_query = λ task n encode. embed_query d task n encode;
    rerank = rerank;
  }

  idents-IsDistinct :
      (tasks : List EmbedTask) → ((a : ℕ) → count a (task_idents tasks) ≤ 1) → IsDistinct tasks
  idents-IsDistinct [] u = tt
  idents-IsDistinct (t ∷ tasks) u =
      (others tasks (λ a. u a), idents-IsDistinct tasks (λ a. ground (arith, u a)))
    where
      others :
          (l : List EmbedTask)
          → ((a : ℕ) → count a (t.ident ∷ task_idents l) ≤ 1)
          → All (λ (x : EmbedTask). t.ident ≢ x.ident) l
      others [] u = tt
      others (x ∷ l) u =
          (λ e. absurd (ground (arith, u t.ident)), others l (λ a. ground (arith, u a)))

  -- the worker's interface holds for the handler
  pub embed_handlers-Settles : Settles embed_handlers
  unfolding embed_handlers
  embed_handlers-Settles = record {
    reports =
        λ tasks n m w u e a. embed_chunks-settles d tasks n m w a (idents-IsDistinct tasks u) e;
  }

  -- With the handlers of embed_handler.py, whatever is in the queues and whatever the loader, the
  -- fetcher, the store, the event log and the models do, any number of rounds of the worker settles
  -- each delivery tag at most once in total, and none that was not handed out, if the channel begins
  -- so.
  pub embed_rounds_settle_once :
      (cfg : Config) (parse : Text → Option (Task S)) (times : List ℕ)
      (s : GpuWorker (Encoder V) (World V))
      → IsOpen s.channel []
      → IsOpen (rounds embed_handlers cfg parse times s).channel []
  embed_rounds_settle_once cfg parse times s held =
      rounds_settle_once embed_handlers cfg parse times s embed_handlers-Settles held
