-- ===== src/Worker/Gpu/Tests.antt =====
-- Rounds of the GPU worker of gpu_worker.py over two queues, with the handler of embed_handler.py.
use event_driven_rag_pipelin.Prelude.{
  ℕ, ◌+◌, ◌≡◌, refl, Text, text, text_eq, true, Option, none, some, List, [], ◌∷◌, arith,
  if◌then◌else◌,
}
use event_driven_rag_pipelin.Prelude.Action.{other, Outcome, returned, raised}
use event_driven_rag_pipelin.Tasks.{Task, embed_task}
use event_driven_rag_pipelin.Embed.{World}
use event_driven_rag_pipelin.Embed.Tests.{deps, chunk_task_of, fresh}
use event_driven_rag_pipelin.Worker.{Channel, on_message}
use event_driven_rag_pipelin.Worker.Settle.{IsOpen}
use event_driven_rag_pipelin.Worker.Message.{Verdict, on_message-settles}
use event_driven_rag_pipelin.Worker.Gpu.{
  WorkerMessage, Handlers, Config, GpuWorker, ensure_model, rounds,
}
use event_driven_rag_pipelin.Worker.Gpu.Once.{rounds_settle_once}
use event_driven_rag_pipelin.Worker.Gpu.Residency.{
  Ensured, IsResident, ensure_model_lem, rounds-IsResident,
}
use event_driven_rag_pipelin.Worker.Gpu.Embedding.{
  Encoder, embed_handlers, embed_handlers-Settles, embed_rounds_settle_once,
}

abbrev encode_zero : Encoder ℕ
encode_zero l = returned (0 ∷ [])

abbrev load : Text → Outcome (Encoder ℕ)
load n =
    if text_eq n (text "m") then returned encode_zero else raised (other (text "no such model"))

abbrev handlers : Handlers ℕ (Encoder ℕ) (World ℕ)
handlers = embed_handlers deps load none

abbrev parse : Text → Option (Task ℕ)
parse [] = none
parse (c ∷ s) =
    if text_eq s [] then none else some (embed_task (chunk_task_of 0 (c ∷ s) (s ∷ []) (text "t")))

abbrev channel : Channel
channel = record {
  queues = (text "qm", text "bad" ∷ text "x" ∷ []) ∷ ((text "qn", text "job" ∷ []) ∷ []);
  next_tag = 0;
  acked = [];
  nacked = [];
}

abbrev config : Config
config = record {
  model_queues = (text "m", text "qm") ∷ ((text "n", text "qn") ∷ []);
  max_batch = 8;
  model_max_batch = [];
  idle_timeout = 60;
}

abbrev worker : GpuWorker (Encoder ℕ) (World ℕ)
worker = record {
  warm = record { model = none; name = none };
  channel = channel;
  world = fresh;
  running = true;
  idle_since = none;
}

channel-IsOpen : IsOpen channel []
channel-IsOpen = record { open_once = λ a. omega arith; handed_out = λ a h. refl }

rounds_settle_once_example :
    IsOpen (rounds handlers config parse (1 ∷ 2 ∷ 3 ∷ []) worker).channel []
rounds_settle_once_example =
    rounds_settle_once handlers config parse (1 ∷ 2 ∷ 3 ∷ []) worker
      (embed_handlers-Settles deps load none) channel-IsOpen

embed_rounds_settle_once_example :
    IsOpen (rounds handlers config parse (1 ∷ 2 ∷ 3 ∷ []) worker).channel []
embed_rounds_settle_once_example =
    embed_rounds_settle_once deps load none config parse (1 ∷ 2 ∷ 3 ∷ []) worker channel-IsOpen

rounds-IsResident_example :
    IsResident handlers (rounds handlers config parse (1 ∷ 2 ∷ 3 ∷ []) worker).warm
rounds-IsResident_example = rounds-IsResident handlers config parse (1 ∷ 2 ∷ 3 ∷ []) worker tt

ensure_model_lem_example :
    Ensured handlers (text "m") (ensure_model handlers (text "m") worker.warm)
ensure_model_lem_example = ensure_model_lem handlers (text "m") worker.warm tt

abbrev messages : List (WorkerMessage ℕ)
messages =
    record {
      task = embed_task (chunk_task_of 5 (text "job") (text "ob" ∷ []) (text "t"));
      delivery_tag = 5;
    }
    ∷ []

abbrev add_one : Text → ℕ → Outcome (Unit {0}) × ℕ
add_one [] n = (raised (other (text "not JSON")), n)
add_one (c ∷ s) n = (returned tt, n + 1)

tag-IsOpen : IsOpen (record channel { next_tag = 1 }) (0 ∷ [])
tag-IsOpen = record { open_once = λ a. ground arith; handed_out = λ a h. ground arith }

on_message-settles_example :
    let c : Channel = record channel { next_tag = 1 } in
    let after = on_message add_one 0 (text "{}") c 4 in
    IsOpen after.0 [] × (after.1 ≡ 5) × Verdict (add_one (text "{}") 4).0 0 c after.0
on_message-settles_example =
    on_message-settles add_one 0 (text "{}") (record channel { next_tag = 1 }) 4 [] tag-IsOpen
