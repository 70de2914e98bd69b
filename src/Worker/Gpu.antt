-- ===== src/Worker/Gpu.antt =====
-- src/event_driven_rag_service/worker/gpu_worker.py. `S` is the type of scores, `M` of models, `W` of
-- the handlers' world. The clock's readings are arguments; `parse` is `parse_task(json.loads(body))`.
-- A message's task object is told apart by the delivery tag of its message.
pub mod Counts
pub mod Once
pub mod Residency
pub mod Embedding
mod Tests
use event_driven_rag_pipelin.Prelude.{
  ℕ, ◌+◌, ◌-◌, ◌≤◌, ◌≡◌, Text, text, text_eq, Bool, true, false, Option, none, some, List, [], ◌∷◌,
  ◌++◌, map, count, length, if◌then◌else◌, Dict, lookup, keep, ltb, ◌==◌,
}
use event_driven_rag_pipelin.Prelude.Action.{
  Exception, other, Outcome, returned, raised, Action, continue, pure, raise, lift, ◌>>=◌, ◌>>◌,
}
use event_driven_rag_pipelin.Tasks.{
  EmbedTask, EmbedKind, chunk, query, SearchRankTask, Task, chunk_task, embed_task, infer_task,
  search_run_task, search_rank_task, search_finalize_task,
}
use event_driven_rag_pipelin.Worker.{Channel, ack, nack, poll_queue}

pub record WorkerMessage (S : Type 0) : Type 0 where
  pub task : Task S
  pub delivery_tag : ℕ

-- The handlers and the loader, and the only thing that the worker needs of them: a call on
-- different task objects reports no object more often than it was given.
pub record Handlers (S M W : Type 0) : Type 0 where
  pub load_model : Text → Outcome M
  pub embed_chunks : List EmbedTask → Text → M → Action W (List EmbedTask × List EmbedTask)
  pub embed_query : EmbedTask → Text → M → Action W Bool
  -- none when the worker was built without a rerank handler
  pub rerank : Option (SearchRankTask S → Text → M → Action W Bool)

abbrev pub task_idents : List EmbedTask → List ℕ
task_idents l = map (λ t. t.ident) l

pub record Settles {S M W : Type 0} (h : Handlers S M W) : Type 0 where
  pub reports :
      (tasks : List EmbedTask) (model_name : Text) (m : M) (w : W)
      {r : List EmbedTask × List EmbedTask}
      → ((a : ℕ) → count a (task_idents tasks) ≤ 1)
      → (h.embed_chunks tasks model_name m w).0 ≡ returned r
      → (a : ℕ)
      → count a (task_idents r.0) + count a (task_idents r.1) ≤ count a (task_idents tasks)

-- `_model` and `_current_model_name`
pub record Warm (M : Type 0) : Type 0 where
  pub model : Option M
  pub name : Option Text

pub record Config : Type 0 where
  pub model_queues : List (Text × Text)
  pub max_batch : ℕ
  pub model_max_batch : Dict ℕ
  pub idle_timeout : ℕ

pub record GpuWorker (M W : Type 0) : Type 0 where
  pub warm : Warm M
  pub channel : Channel
  pub world : W
  pub running : Bool
  pub idle_since : Option ℕ

abbrev pub or_default : Option ℕ → ℕ → ℕ
or_default none n = n
or_default (some k) n = k

-- `self._model_max_batch.get(model_name, self._max_batch)`
abbrev pub poll_size : Config → Text → ℕ
poll_size cfg model_name = or_default (lookup model_name cfg.model_max_batch) cfg.max_batch

-- (ok, failed)
abbrev pub Reports : Type 0 → Type 0
Reports S = List (WorkerMessage S) × List (WorkerMessage S)

module _ {S : Type 0} where
  -- the task object that was built for this message
  abbrev pub as_object : ℕ → Task S → Task S
  as_object tag (embed_task t) = embed_task (record t { ident = tag })
  as_object tag t = t

  abbrev pub add_parsed :
      ℕ → Option (Task S) → List (WorkerMessage S) × Channel → List (WorkerMessage S) × Channel
  add_parsed tag (some t) (batch, c) =
      (record { task = as_object tag t; delivery_tag = tag } ∷ batch, c)
  add_parsed tag none (batch, c) = (batch, c)

  abbrev pub discard : ℕ → Option (Task S) → Channel → Channel
  discard tag (some t) c = c
  discard tag none c = nack tag c

  -- `_parse_batch`: a message that does not parse is nacked
  pub parse_batch :
      (Text → Option (Task S)) → List (ℕ × Text) → Channel → List (WorkerMessage S) × Channel
  unfolding nack
  parse_batch parse [] c = ([], c)
  parse_batch parse ((tag, body) ∷ raw) c =
      add_parsed tag (parse body) (parse_batch parse raw (discard tag (parse body) c))

-- a failed `assert`
abbrev pub assertion : Exception
assertion = other (text "assertion failed")

-- `_unload_model`: nothing to do when no model is held
abbrev pub unloaded : {M : Type 0} → Option M → Warm M → Warm M
unloaded none w = w
unloaded (some m) w = record { model = none; name = none }

pub unload_model : {M : Type 0} → Warm M → Warm M
unload_model w = unloaded w.model w

abbrev pub is_current : Option Text → Text → Bool
is_current none n = false
is_current (some m) n = text_eq m n

module _ {S : Type 0} where
  abbrev pub add_report : Bool → WorkerMessage S → Reports S → Reports S
  add_report true msg (ok, failed) = (msg ∷ ok, failed)
  add_report false msg (ok, failed) = (ok, msg ∷ failed)

  abbrev pub is_chunk : Task S → Bool
  is_chunk (embed_task t) = elim t.task_type [ chunk ↦ true | query ↦ false ]
  is_chunk _ = false

  abbrev pub is_query : Task S → Bool
  is_query (embed_task t) = elim t.task_type [ chunk ↦ false | query ↦ true ]
  is_query _ = false

  abbrev pub add_embed_task : Task S → List EmbedTask → List EmbedTask
  add_embed_task (embed_task t) l = t ∷ l
  add_embed_task _ l = l

  -- `[m.task for m in msgs if isinstance(m.task, EmbedTask)]`
  abbrev pub embed_tasks : List (WorkerMessage S) → List EmbedTask
  embed_tasks [] = []
  embed_tasks (msg ∷ msgs) = add_embed_task msg.task (embed_tasks msgs)

  abbrev pub has_ident : ℕ → Task S → Bool
  has_ident i (embed_task t) = t.ident == i
  has_ident i _ = false

  -- `task_to_msg[id(t)] for t in tasks if id(t) in task_to_msg`
  abbrev pub with_ident : ℕ → List (WorkerMessage S) → List (WorkerMessage S)
  with_ident i [] = []
  with_ident i (msg ∷ msgs) = if has_ident i msg.task then msg ∷ [] else with_ident i msgs

  abbrev pub messages_of : List EmbedTask → List (WorkerMessage S) → List (WorkerMessage S)
  messages_of [] msgs = []
  messages_of (t ∷ tasks) msgs = with_ident t.ident msgs ++ messages_of tasks msgs

  abbrev pub extend :
      Reports S → List (WorkerMessage S) → List EmbedTask × List EmbedTask → Reports S
  extend (ok, failed) msgs r = (ok ++ messages_of r.0 msgs, failed ++ messages_of r.1 msgs)

  abbrev pub is_rank : Task S → Bool
  is_rank (search_rank_task t) = true
  is_rank _ = false

  abbrev pub ack_all : List (WorkerMessage S) → Channel → Channel
  ack_all [] c = c
  ack_all (msg ∷ msgs) c = ack_all msgs (ack msg.delivery_tag c)

  abbrev pub nack_all : List (WorkerMessage S) → Channel → Channel
  nack_all [] c = c
  nack_all (msg ∷ msgs) c = nack_all msgs (nack msg.delivery_tag c)

module _ {S M W : Type 0} (h : Handlers S M W) where
  abbrev pub loaded : Text → Outcome M → Warm M → Outcome (Unit {0}) × Warm M
  loaded n (returned m) w = (returned tt, record { model = some m; name = some n })
  loaded n (raised e) w = (raised e, w)

  -- `_ensure_model`: the old model goes before the new one is loaded
  pub ensure_model : Text → Warm M → Outcome (Unit {0}) × Warm M
  unfolding unload_model
  ensure_model n w =
      if is_current w.name n then (returned tt, w) else loaded n (h.load_model n) (unload_model w)

  abbrev pub rank_one :
      Option (SearchRankTask S → Text → M → Action W Bool) → Task S → Text → M → Action W Bool
  rank_one (some rank) (search_rank_task t) model_name m = rank t model_name m
  rank_one _ _ model_name m = raise assertion

  -- `_process_rerank_batch`
  pub process_rerank_batch : List (WorkerMessage S) → Text → M → Action W (Reports S)
  process_rerank_batch [] model_name m = pure ([], [])
  process_rerank_batch (msg ∷ batch) model_name m = do
    success ← rank_one h.rerank msg.task model_name m
    rest ← process_rerank_batch batch model_name m
    pure (add_report success msg rest)

  abbrev pub query_one : Task S → Text → M → Action W Bool
  query_one (embed_task t) model_name m = h.embed_query t model_name m
  query_one _ model_name m = raise assertion

  -- the loop over the query messages
  pub process_queries : List (WorkerMessage S) → Text → M → Action W (Reports S)
  process_queries [] model_name m = pure ([], [])
  process_queries (msg ∷ batch) model_name m = do
    success ← query_one msg.task model_name m
    rest ← process_queries batch model_name m
    pure (add_report success msg rest)

  -- `if chunk_msgs:` and what follows
  abbrev pub process_chunks : List (WorkerMessage S) → Reports S → Text → M → Action W (Reports S)
  process_chunks [] reports model_name m = pure reports
  process_chunks (msg ∷ msgs) reports model_name m = do
    r ← h.embed_chunks (embed_tasks (msg ∷ msgs)) model_name m
    pure (extend reports (msg ∷ msgs) r)

  -- `_process_embed_batch`: queries first, then all chunk tasks in one call
  pub process_embed_batch : List (WorkerMessage S) → Text → M → Action W (Reports S)
  unfolding process_queries
  process_embed_batch batch model_name m = do
    reports ← process_queries (keep (λ msg. is_query msg.task) batch) model_name m
    process_chunks (keep (λ msg. is_chunk msg.task) batch) reports model_name m

  -- `_process_batch`: the first message decides
  pub process_batch : List (WorkerMessage S) → Text → Option M → Action W (Reports S)
  unfolding process_rerank_batch process_embed_batch
  process_batch batch model_name none = raise assertion
  process_batch [] model_name (some m) = raise (other (text "list index out of range"))
  process_batch (msg ∷ batch) model_name (some m) =
      if is_rank msg.task
      then process_rerank_batch (msg ∷ batch) model_name m
      else process_embed_batch (msg ∷ batch) model_name m

  -- the two loops after the batch; an exception of a handler leaves `_run_inner` before them
  abbrev pub settle : GpuWorker M W → Outcome (Reports S) × W → Outcome Bool × GpuWorker M W
  settle s (returned (ok, failed), w) =
      (returned true, record s { world = w; channel = nack_all failed (ack_all ok s.channel) })
  settle s (raised e, w) = (raised e, record s { world = w })

  -- `try: _ensure_model  except: failed = batch  else: _process_batch`
  abbrev pub work_warm :
      List (WorkerMessage S)
      → Text
      → GpuWorker M W
      → Outcome (Unit {0}) × Warm M
      → Outcome Bool × GpuWorker M W
  work_warm batch model_name s (returned u, warm) =
      settle (record s { warm = warm }) (process_batch batch model_name warm.model s.world)
  work_warm batch model_name s (raised e, warm) =
      settle (record s { warm = warm }) (returned ([], batch), s.world)

  pub work : List (WorkerMessage S) → Text → GpuWorker M W → Outcome Bool × GpuWorker M W
  unfolding ensure_model process_batch ack nack
  work batch model_name s =
      work_warm batch model_name (record s { idle_since = none }) (ensure_model model_name s.warm)

  module _ (cfg : Config) (parse : Text → Option (Task S)) where
    -- the poll and the parse of one queue
    pub receive : Text → Text → GpuWorker M W → List (WorkerMessage S) × GpuWorker M W
    unfolding poll_queue parse_batch
    receive model_name queue_name s =
        let (raw, c) = poll_queue queue_name (poll_size cfg model_name) s.channel in
        let (batch, c') = parse_batch parse raw c in (batch, record s { channel = c' })

    -- stop, go on to the next queue, or work on the batch and end the scan
    abbrev pub visit :
        Bool
        → List (WorkerMessage S)
        → Text
        → GpuWorker M W
        → GpuWorker M W
        → Outcome Bool × GpuWorker M W
        → Outcome Bool × GpuWorker M W
    visit false batch model_name s s' rest = (returned false, s)
    visit true [] model_name s s' rest = rest
    visit true (msg ∷ msgs) model_name s s' rest = work (msg ∷ msgs) model_name s'

    -- one scan of the queues; true when a batch was found
    pub scan : List (Text × Text) → GpuWorker M W → Outcome Bool × GpuWorker M W
    unfolding receive work
    scan [] s = (returned false, s)
    scan ((model_name, queue_name) ∷ queues) s =
        let (batch, s') = receive model_name queue_name s in
        visit s.running batch model_name s s' (scan queues s')

    abbrev pub idle : ℕ → Option ℕ → GpuWorker M W → GpuWorker M W
    idle now none s = record s { idle_since = some now }
    idle now (some t) s =
        if ltb cfg.idle_timeout (now - t)
        then record s { warm = unload_model s.warm; idle_since = none }
        else s

    abbrev pub after_scan : ℕ → Outcome Bool × GpuWorker M W → Outcome Bool × GpuWorker M W
    after_scan now (returned false, s) = (returned false, idle now s.idle_since s)
    after_scan now (returned true, s) = (returned true, s)
    after_scan now (raised e, s) = (raised e, s)

    -- one round of the `while self._running` loop
    pub round : ℕ → GpuWorker M W → Outcome Bool × GpuWorker M W
    unfolding scan unload_model
    round now s = after_scan now (scan cfg.model_queues s)

    abbrev pub unless_raised : Outcome Bool × GpuWorker M W → GpuWorker M W → GpuWorker M W
    unless_raised (returned found, s) next = next
    unless_raised (raised e, s) next = s

    -- `while self._running`
    abbrev pub while_running : Bool → GpuWorker M W → GpuWorker M W → GpuWorker M W
    while_running true s next = next
    while_running false s next = s

    -- the loop, at the given clock readings; an exception ends it
    pub rounds : List ℕ → GpuWorker M W → GpuWorker M W
    unfolding round
    rounds [] s = s
    rounds (now ∷ later) s =
        while_running s.running s (unless_raised (round now s) (rounds later (round now s).1))
