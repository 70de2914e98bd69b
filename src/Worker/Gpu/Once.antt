-- ===== src/Worker/Gpu/Once.antt =====
-- gpu_worker.py settles no message twice.
use event_driven_rag_pipelin.Prelude.{
  ℕ, ◌≤◌, ◌≡◌, refl, sym, subst, Text, Bool, true, false, Option, none, some, List, [], ◌∷◌, ◌++◌,
  count, count-append, arith, keep, All-keep, inl, inr, Bool-cases,
}
use event_driven_rag_pipelin.Prelude.Action.{Outcome, returned, raised, >>=-eq-returned}
use event_driven_rag_pipelin.Tasks.{Task}
use event_driven_rag_pipelin.Worker.{poll_queue}
use event_driven_rag_pipelin.Worker.Settle.{IsOpen, IsOpen-counts, poll_queue-IsOpen}
use event_driven_rag_pipelin.Worker.Gpu.{
  WorkerMessage, Handlers, Settles, Warm, Config, GpuWorker, poll_size, parse_batch, ensure_model,
  Reports, is_chunk, is_query, process_queries, process_embed_batch, is_rank, process_batch,
  while_running, ack_all, settle, work_warm, work, receive, visit, scan, unless_raised, idle,
  after_scan, round, rounds,
}
use event_driven_rag_pipelin.Worker.Gpu.Counts.{
  msg_tags, Tagged, IsTagged, Within, parse_batch-IsOpen, ack_all-IsOpen, nack_all-IsOpen,
  rerank-Within, queries-Within, chunks-Within, split-count,
}

module _ {S M W : Type 0} (h : Handlers S M W) (law : Settles h) where
  embed-Within :
      (batch : List (WorkerMessage S)) (n : Text) (m : M) (w : W) {r : Reports S}
      → IsTagged batch
      → ((a : ℕ) → count a (msg_tags batch) ≤ 1)
      → (process_embed_batch h batch n m w).0 ≡ returned r
      → Within batch r
  unfolding process_embed_batch
  embed-Within batch n m w {r} t u e a =
      let queries : List (WorkerMessage S) = keep (λ x. is_query x.task) batch in
      let chunks : List (WorkerMessage S) = keep (λ x. is_chunk x.task) batch in
      let (q, e1, h1) = >>=-eq-returned (process_queries h queries n m) _ w e in
      let within = queries-Within h law queries n m w e1 in
      let few : (b : ℕ) → count b (msg_tags chunks) ≤ 1 =
        λ b. omega (arith, split-count b batch, u b) in
      omega (
        arith,
        within a,
        split-count a batch,
        chunks-Within h law chunks q n m (process_queries h queries n m w).1
            (All-keep (λ (x : WorkerMessage S). Tagged x.task x.delivery_tag) _ batch t) few h1 a,
      )

  process_batch-Within :
      (batch : List (WorkerMessage S)) (n : Text) (o : Option M) (w : W) {r : Reports S}
      → IsTagged batch
      → ((a : ℕ) → count a (msg_tags batch) ≤ 1)
      → (process_batch h batch n o w).0 ≡ returned r
      → Within batch r
  unfolding process_batch
  process_batch-Within batch n none w t u e = cc
  process_batch-Within [] n (some m) w t u e = cc
  process_batch-Within (msg ∷ batch) n (some m) w {r} t u e = elim (Bool-cases (is_rank msg.task)) [
    | inl c ↦ rerank-Within h law (msg ∷ batch) n m w (rw c at e)
    | inr c ↦ embed-Within (msg ∷ batch) n m w t u (rw c at e)
  ]

  settle-IsOpen :
      (s : GpuWorker M W) (batch : List (WorkerMessage S)) (o : Outcome (Reports S)) (w : W)
      → IsOpen s.channel (msg_tags batch)
      → ((r : Reports S) → o ≡ returned r → Within batch r)
      → IsOpen (settle h s (o, w)).1.channel []
  settle-IsOpen s batch (returned (ok, failed)) w held within =
      nack_all-IsOpen failed (ack_all ok s.channel) [] (
        ack_all-IsOpen ok s.channel (msg_tags failed ++ []) (
          IsOpen-counts (msg_tags batch) (msg_tags ok ++ (msg_tags failed ++ []))
            (λ a. fits a (within (ok, failed) refl)) held))
    where
      fits :
          (a : ℕ)
          → Within batch (ok, failed)
          → count a (msg_tags ok ++ (msg_tags failed ++ [])) ≤ count a (msg_tags batch)
      fits a w = omega (
        arith,
        w a,
        count-append a (msg_tags ok) (msg_tags failed ++ []),
        count-append a (msg_tags failed) [],
      )
  settle-IsOpen s batch (raised e) w held within =
      IsOpen-counts (msg_tags batch) [] (λ a. omega arith) held

  all_failed :
      (batch : List (WorkerMessage S)) (r : Reports S)
      → ◌≡◌ {A = Outcome (Reports S)} (returned ([], batch)) (returned r)
      → Within batch r
  all_failed batch r e a = let same : r ≡ ([], batch) = cc in rw same (omega arith)

  work_warm-IsOpen :
      (batch : List (WorkerMessage S)) (n : Text) (s : GpuWorker M W)
      (o : Outcome (Unit {0}) × Warm M)
      → IsTagged batch
      → IsOpen s.channel (msg_tags batch)
      → IsOpen (work_warm h batch n s o).1.channel []
  work_warm-IsOpen batch n s (returned u, warm) t held =
      let unique : (a : ℕ) → count a (msg_tags batch) ≤ 1 = λ a. omega (arith, held.open_once a) in
      settle-IsOpen (record s { warm = warm }) batch (process_batch h batch n warm.model s.world).0
        (process_batch h batch n warm.model s.world).1 held
        (λ r e. process_batch-Within batch n warm.model s.world t unique e)
  work_warm-IsOpen batch n s (raised e, warm) t held =
      settle-IsOpen (record s { warm = warm }) batch (returned ([], batch)) s.world held
        (all_failed batch)

  work-IsOpen :
      (batch : List (WorkerMessage S)) (n : Text) (s : GpuWorker M W)
      → IsTagged batch
      → IsOpen s.channel (msg_tags batch)
      → IsOpen (work h batch n s).1.channel []
  unfolding work
  work-IsOpen batch n s t held =
      work_warm-IsOpen batch n (record s { idle_since = none }) (ensure_model h n s.warm) t held

  module _ (cfg : Config) (parse : Text → Option (Task S)) where
    receive-IsOpen :
        (n q : Text) (s : GpuWorker M W)
        → IsOpen s.channel []
        → IsTagged (receive h cfg parse n q s).0
          × IsOpen (receive h cfg parse n q s).1.channel (msg_tags (receive h cfg parse n q s).0)
    unfolding receive
    receive-IsOpen n q s held =
        let polled = poll_queue q (poll_size cfg n) s.channel in
        let (opened, tagged) =
          parse_batch-IsOpen parse polled.0 polled.1 []
            (poll_queue-IsOpen q (poll_size cfg n) s.channel [] held) in
        (
          tagged,
          IsOpen-counts _ _ (λ a. unpad a (msg_tags (parse_batch parse polled.0 polled.1).0))
              opened,
        )
      where
        unpad : (a : ℕ) (l : List ℕ) → count a l ≤ count a (l ++ [])
        unpad a l = omega (arith, count-append a l [])

    visit-IsOpen :
        (n : Text) (s s' : GpuWorker M W) (rest : Outcome Bool × GpuWorker M W) (b : Bool)
        (batch : List (WorkerMessage S))
        → IsOpen s.channel []
        → IsTagged batch
        → IsOpen s'.channel (msg_tags batch)
        → (IsOpen s'.channel [] → IsOpen rest.1.channel [])
        → IsOpen (visit h cfg parse b batch n s s' rest).1.channel []
    visit-IsOpen n s s' rest false batch held t got go = held
    visit-IsOpen n s s' rest true [] held t got go = go got
    visit-IsOpen n s s' rest true (msg ∷ msgs) held t got go = work-IsOpen (msg ∷ msgs) n s' t got

    scan-IsOpen :
        (queues : List (Text × Text)) (s : GpuWorker M W)
        → IsOpen s.channel []
        → IsOpen (scan h cfg parse queues s).1.channel []
    unfolding scan
    scan-IsOpen [] s held = held
    scan-IsOpen ((n, q) ∷ queues) s held =
        let (tagged, got) = receive-IsOpen n q s held in
        visit-IsOpen n s (receive h cfg parse n q s).1
          (scan h cfg parse queues (receive h cfg parse n q s).1) s.running
          (receive h cfg parse n q s).0 held tagged got
          (scan-IsOpen queues (receive h cfg parse n q s).1)

    idle-channel :
        (now : ℕ) (o : Option ℕ) (s : GpuWorker M W)
        → (idle h cfg parse now o s).channel ≡ s.channel
    idle-channel now none s = refl
    idle-channel now (some t) s = ground arith

    after_scan-IsOpen :
        (now : ℕ) (r : Outcome Bool × GpuWorker M W)
        → IsOpen r.1.channel []
        → IsOpen (after_scan h cfg parse now r).1.channel []
    after_scan-IsOpen now (returned true, s) held = held
    after_scan-IsOpen now (returned false, s) held =
        subst (λ c. IsOpen c []) (sym (idle-channel now s.idle_since s)) held
    after_scan-IsOpen now (raised e, s) held = held

    round-IsOpen :
        (now : ℕ) (s : GpuWorker M W)
        → IsOpen s.channel []
        → IsOpen (round h cfg parse now s).1.channel []
    unfolding round
    round-IsOpen now s held =
        after_scan-IsOpen now (scan h cfg parse cfg.model_queues s)
          (scan-IsOpen cfg.model_queues s held)

    rounds-IsOpen :
        (times : List ℕ) (s : GpuWorker M W)
        → IsOpen s.channel []
        → IsOpen (rounds h cfg parse times s).channel []
    unfolding rounds
    rounds-IsOpen [] s held = held
    rounds-IsOpen (now ∷ later) s held = stopped s.running _ (
        next (round h cfg parse now s) (round-IsOpen now s held)
          (rounds-IsOpen later (round h cfg parse now s).1))
      where
        next :
            (r : Outcome Bool × GpuWorker M W)
            → IsOpen r.1.channel []
            → (IsOpen r.1.channel [] → IsOpen (rounds h cfg parse later r.1).channel [])
            → IsOpen (unless_raised h cfg parse r (rounds h cfg parse later r.1)).channel []
        next (returned b, s) held rest = rest held
        next (raised e, s) held rest = held

        stopped :
            (b : Bool) (s' : GpuWorker M W)
            → IsOpen s'.channel []
            → IsOpen (while_running h cfg parse b s s').channel []
        stopped true s' more = more
        stopped false s' more = held

-- Whatever is in the queues, however the messages parse, and whatever the loader and the handlers
-- do, any number of rounds of the worker acks or nacks each delivery tag at most once in total, and
-- settles no tag that was not handed out. The handlers are only assumed to report no task object
-- more often than it was given to them.
pub rounds_settle_once :
    {S M W : Type 0} (h : Handlers S M W) (cfg : Config) (parse : Text → Option (Task S))
    (times : List ℕ) (s : GpuWorker M W)
    → Settles h
    → IsOpen s.channel []
    → IsOpen (rounds h cfg parse times s).channel []
rounds_settle_once h cfg parse times s law held = rounds-IsOpen h law cfg parse times s held
