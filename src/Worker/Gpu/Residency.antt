-- ===== src/Worker/Gpu/Residency.antt =====
-- Which model gpu_worker.py holds, and what a failed load does.
use event_driven_rag_pipelin.Prelude.{
  ℕ, ◌-◌, ◌≡◌, refl, sym, ap, ◌∙◌, subst, Text, text_eq_iff, Bool, true, false, Option, none, some,
  List, [], ◌∷◌, ltb, inl, inr, Bool-cases,
}
use event_driven_rag_pipelin.Prelude.Action.{Exception, Outcome, returned, raised}
use event_driven_rag_pipelin.Tasks.{Task}
use event_driven_rag_pipelin.Worker.Gpu.{
  WorkerMessage, Handlers, Warm, Config, GpuWorker, unloaded, unload_model, is_current, loaded,
  ensure_model, Reports, process_batch, nack_all, settle, work_warm, work, receive, visit, scan,
  while_running, unless_raised, idle, after_scan, round, rounds,
}

module _ {S M W : Type 0} (h : Handlers S M W) where
  -- Nothing is held, or the model that the loader returned for the name that is recorded.
  abbrev pub Holds : Option M → Option Text → Type 0
  Holds none none = Unit
  Holds (some m) (some n) = h.load_model n ≡ returned m
  Holds _ _ = ⊥

  abbrev pub IsResident : Warm M → Type 0
  IsResident w = Holds w.model w.name

  unloaded-none :
      (o : Option M) (w : Warm M)
      → w.model ≡ o
      → IsResident w
      → unloaded o w ≡ record { model = none; name = none }
  unloaded-none (some m) w e r = refl
  unloaded-none none w e r = no_name w.model w.name e r
    where
      no_name :
          (o : Option M) (n : Option Text)
          → o ≡ none
          → Holds o n
          → ◌≡◌ {A = Warm M} (record { model = o; name = n }) (record { model = none; name = none })
      no_name none none e r = refl
      no_name none (some n) e r = absurd r
      no_name (some m) n e r = cc

  unload_model-none :
      (w : Warm M) → IsResident w → unload_model w ≡ record { model = none; name = none }
  unfolding unload_model
  unload_model-none w r = unloaded-none w.model w refl r

  -- How a call of `_ensure_model` ended, for a model name.
  abbrev pub Ensured : Text → Outcome (Unit {0}) × Warm M → Type 0
  Ensured n (returned u, w) =
      (m : M) × (w ≡ record { model = some m; name = some n }) × (h.load_model n ≡ returned m)
  Ensured n (raised e, w) = (w ≡ record { model = none; name = none }) × (h.load_model n ≡ raised e)

  loaded-Ensured :
      (n : Text) (o : Outcome M) (w : Warm M)
      → h.load_model n ≡ o
      → w ≡ record { model = none; name = none }
      → Ensured n (loaded h n o w)
  loaded-Ensured n (returned m) w e k = (m, refl, e)
  loaded-Ensured n (raised x) w e k = (k, e)

  kept-Ensured :
      (n : Text) (w : Warm M) (o : Option M) (k : Option Text)
      → w ≡ record { model = o; name = k }
      → Holds o k
      → is_current k n ≡ true
      → Ensured n (returned tt, w)
  kept-Ensured n w o none e r c = cc
  kept-Ensured n w none (some k) e r c = absurd r
  kept-Ensured n w (some m) (some k) e r c =
      let same : k ≡ n = (text_eq_iff k n).0 c in
      (
        m,
        e ∙ ap (λ x. record { model = some m; name = some x }) same,
        subst (λ x. h.load_model x ≡ returned m) same r,
      )

  -- From a worker that holds nothing or the model it recorded, `_ensure_model` returns exactly with
  -- the loader's model for the asked name held and recorded, and raises exactly the loader's
  -- exception with nothing held.
  pub ensure_model_lem : (n : Text) (w : Warm M) → IsResident w → Ensured n (ensure_model h n w)
  unfolding ensure_model
  ensure_model_lem n w r = elim (Bool-cases (is_current w.name n)) [
    | inl c ↦ rw c (kept-Ensured n w w.model w.name refl r c)
    | inr c ↦ rw c (loaded-Ensured n (h.load_model n) (unload_model w) refl (unload_model-none w r))
  ]

  Ensured-IsResident : (n : Text) (r : Outcome (Unit {0}) × Warm M) → Ensured n r → IsResident r.1
  Ensured-IsResident n (returned u, w) (m, e, l) = rw e l
  Ensured-IsResident n (raised x, w) (e, l) = rw e tt

  settle-warm : (s : GpuWorker M W) (r : Outcome (Reports S) × W) → (settle h s r).1.warm ≡ s.warm
  settle-warm s (returned (ok, failed), w) = refl
  settle-warm s (raised e, w) = refl

  work_warm-warm :
      (batch : List (WorkerMessage S)) (n : Text) (s : GpuWorker M W)
      (o : Outcome (Unit {0}) × Warm M)
      → (work_warm h batch n s o).1.warm ≡ o.1
  work_warm-warm batch n s (returned u, warm) =
      settle-warm (record s { warm = warm }) (process_batch h batch n warm.model s.world)
  work_warm-warm batch n s (raised e, warm) = refl

  pub work-IsResident :
      (batch : List (WorkerMessage S)) (n : Text) (s : GpuWorker M W)
      → IsResident s.warm
      → IsResident (work h batch n s).1.warm
  unfolding work
  work-IsResident batch n s r =
      subst IsResident
        (sym (work_warm-warm batch n (record s { idle_since = none }) (ensure_model h n s.warm)))
        (Ensured-IsResident n (ensure_model h n s.warm) (ensure_model_lem n s.warm r))

  -- If the model of a queue cannot be loaded, every message of the batch is nacked and none is
  -- acked, nothing is held, and the handlers' world is untouched.
  pub load_failure_nacks :
      (batch : List (WorkerMessage S)) (n : Text) (s : GpuWorker M W) (e : Exception)
      → IsResident s.warm
      → is_current s.warm.name n ≡ false
      → h.load_model n ≡ raised e
      → work h batch n s ≡ (
        returned true,
        record s {
          idle_since = none;
          warm = record { model = none; name = none };
          channel = nack_all batch s.channel;
        },
      )
  unfolding work ensure_model
  load_failure_nacks batch n s e r c l = rw (c, l, unload_model-none s.warm r)

  module _ (cfg : Config) (parse : Text → Option (Task S)) where
    visit-IsResident :
        (n : Text) (s s' : GpuWorker M W) (rest : Outcome Bool × GpuWorker M W) (b : Bool)
        (batch : List (WorkerMessage S))
        → IsResident s.warm
        → IsResident s'.warm
        → IsResident rest.1.warm
        → IsResident (visit h cfg parse b batch n s s' rest).1.warm
    visit-IsResident n s s' rest false batch r r' go = r
    visit-IsResident n s s' rest true [] r r' go = go
    visit-IsResident n s s' rest true (msg ∷ msgs) r r' go = work-IsResident (msg ∷ msgs) n s' r'

    scan-IsResident :
        (queues : List (Text × Text)) (s : GpuWorker M W)
        → IsResident s.warm
        → IsResident (scan h cfg parse queues s).1.warm
    unfolding scan
    scan-IsResident [] s r = r
    scan-IsResident ((n, q) ∷ queues) s r =
        let s' : GpuWorker M W = (receive h cfg parse n q s).1 in
        let r' : IsResident s'.warm = unfold receive in r in
        visit-IsResident n s s' (scan h cfg parse queues s') s.running (receive h cfg parse n q s).0
          r r' (scan-IsResident queues s' r')

    idle-IsResident :
        (now : ℕ) (o : Option ℕ) (s : GpuWorker M W)
        → IsResident s.warm
        → IsResident (idle h cfg parse now o s).warm
    idle-IsResident now none s r = r
    idle-IsResident now (some t) s r = elim (Bool-cases (ltb cfg.idle_timeout (now - t))) [
      | inl c ↦ rw c (subst IsResident (sym (unload_model-none s.warm r)) tt)
      | inr c ↦ rw c r
    ]

    after_scan-IsResident :
        (now : ℕ) (x : Outcome Bool × GpuWorker M W)
        → IsResident x.1.warm
        → IsResident (after_scan h cfg parse now x).1.warm
    after_scan-IsResident now (returned true, s) r = r
    after_scan-IsResident now (returned false, s) r = idle-IsResident now s.idle_since s r
    after_scan-IsResident now (raised e, s) r = r

    -- After any number of rounds the worker holds no model, or exactly the model that the loader
    -- returned for the recorded name.
    pub rounds-IsResident :
        (times : List ℕ) (s : GpuWorker M W)
        → IsResident s.warm
        → IsResident (rounds h cfg parse times s).warm
    unfolding rounds round
    rounds-IsResident [] s r = r
    rounds-IsResident (now ∷ later) s r = stopped s.running _ (
        next (after_scan h cfg parse now (scan h cfg parse cfg.model_queues s))
          (after_scan-IsResident now _ (scan-IsResident cfg.model_queues s r))
          (rounds-IsResident later _))
      where
        next :
            (x : Outcome Bool × GpuWorker M W)
            → IsResident x.1.warm
            → (IsResident x.1.warm → IsResident (rounds h cfg parse later x.1).warm)
            → IsResident (unless_raised h cfg parse x (rounds h cfg parse later x.1)).warm
        next (returned b, s) r rest = rest r
        next (raised e, s) r rest = r

        stopped :
            (b : Bool) (s' : GpuWorker M W)
            → IsResident s'.warm
            → IsResident (while_running h cfg parse b s s').warm
        stopped true s' more = more
        stopped false s' more = r
