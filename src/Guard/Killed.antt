-- ===== src/Guard/Killed.antt =====
-- What worker/local_run_guard.py promises of a local run that was killed.
use event_driven_rag_pipelin.Prelude.{
  ◌≡◌, ◌≢◌, refl, sym, ap, subst, ◌⊎◌, inl, inr, Text, text_eq, text_eq_iff, text_eq_refl, contains,
  Bool, true, false, List, ◌∷◌, Bool-cases, arith,
}
use event_driven_rag_pipelin.Prelude.Action.{returned, raised, embedding_unavailable}
use event_driven_rag_pipelin.Guard.{
  LocalRunGuard, running, blocked, without, settle, start, finish, refuse_if, check, Process, Step,
  passes, refused, starts, finishes, Steps, done, next, restarts, restart,
}
use event_driven_rag_pipelin.Guard.Markers.{
  running-ne-blocked, contains-without, same_block, Idle, HasBlock, HasMarker, Idle-cons,
  settle-active, settle-HasBlock, settle_idle, settle_active, settle_other,
}

module _ (m : Text) where
  -- the marker of a run of an earlier process, or a block
  abbrev Doomed : Process → Type 0
  Doomed p = HasBlock m p.guard ⊎ (HasMarker m p.guard × Idle m p.guard.active × Idle m p.cleared)

  settle-Doomed :
      (n : Text) (p : Process) → Doomed p → Doomed (record p { guard = settle n p.guard })
  settle-Doomed n p (inl b) = inl (settle-HasBlock m n p.guard b)
  settle-Doomed n p (inr (h, i, j)) = elim (Bool-cases (text_eq (running n) (running m))) [
    | inl t ↦
        let e = (text_eq_iff (running n) (running m)).0 t in
        inl (settle_idle m n p.guard e (i n e) h)
    | inr f ↦ inr (
      settle_other m n p.guard (λ e. apart f ((text_eq_iff (running n) (running m)).1 e)) h,
      subst (Idle m) (sym (settle-active m n p.guard)) i,
      j,
    )
  ]
    where
      apart : {b : Bool} → b ≡ false → b ≢ true
      apart f e = cc

  settles-block :
      (n : Text) (p : Process) → running n ≡ running m → Doomed p → HasBlock m (settle n p.guard)
  settles-block n p e (inl b) = settle-HasBlock m n p.guard b
  settles-block n p e (inr (h, i, j)) = settle_idle m n p.guard e (i n e) h

abbrev pub Any : Text → Type 0
Any n = Unit {0}

-- the models with another marker than `m`
abbrev pub Other : Text → Text → Type 0
Other m n = running n ≢ running m

module _ (describe : Text → Text) (m : Text) where
  check-Doomed :
      (n : Text) (p : Process)
      → running n ≡ running m
      → Doomed m p
      → (check describe n p.guard).0 ≡ raised (embedding_unavailable (describe n))
  unfolding check
  check-Doomed n p e d =
      let is_blocked =
        subst (λ f. contains f (settle n p.guard).files ≡ true) (sym (same_block m n e))
          (settles-block m n p e d) in
      ap (λ c. refuse_if describe c n) is_blocked

  passed_other :
      (n : Text) (p : Process)
      → Doomed m p
      → (check describe n p.guard).0 ≡ returned tt
      → running n ≢ running m
  passed_other n p d h e = let raises = check-Doomed n p e d in cc

  in_other : (n : Text) (l : List Text) → Idle m l → contains n l ≡ true → running n ≢ running m
  in_other n l i c e = let out = i n e in cc

  Idle-start :
      (n : Text) (g : LocalRunGuard)
      → Idle m g.active
      → running n ≢ running m
      → Idle m (start n g).active
  unfolding start
  Idle-start n g i d = elim (Bool-cases (contains n g.active)) [
    | inl c ↦ rw c i
    | inr c ↦ rw c (Idle-cons m n g.active i d)
  ]

  Idle-without : (n : Text) (l : List Text) → Idle m l → Idle m (without n l)
  Idle-without n l i k e = ground (arith, contains-without k n l, i k e)

  start-HasBlock : (n : Text) (g : LocalRunGuard) → HasBlock m g → HasBlock m (start n g)
  unfolding start
  start-HasBlock n g b = ground (
    arith,
    contains-without (blocked m) (running n) g.files,
    running-ne-blocked n m,
    text_eq_iff (running n) (blocked m),
    text_eq_iff (blocked m) (running n),
  )

  start-HasMarker : (n : Text) (g : LocalRunGuard) → HasMarker m g → HasMarker m (start n g)
  unfolding start
  start-HasMarker n g h = ground (
    arith,
    contains-without (running m) (running n) g.files,
    text_eq_iff (running n) (running m),
    text_eq_iff (running m) (running n),
  )

  finish-HasBlock : (n : Text) (g : LocalRunGuard) → HasBlock m g → HasBlock m (finish n g)
  unfolding finish
  finish-HasBlock n g b = ground (
    arith,
    contains-without (blocked m) (running n) g.files,
    running-ne-blocked n m,
    text_eq_iff (running n) (blocked m),
    text_eq_iff (blocked m) (running n),
  )

  finish-HasMarker :
      (n : Text) (g : LocalRunGuard)
      → running n ≢ running m
      → HasMarker m g
      → HasMarker m (finish n g)
  unfolding finish
  finish-HasMarker n g d h =
      ground (
        arith,
        contains-without (running m) (running n) g.files,
        text_eq_iff (running m) (running n),
      )

  Step-Doomed : {p q : Process} → Step describe Any p q → Doomed m p → Doomed m q
  unfolding check finish
  Step-Doomed (passes n p h) d = cleared_other (settle-Doomed m n p d)
    where
      cleared_other :
          Doomed m (record p { guard = settle n p.guard })
          → Doomed m (record { guard = settle n p.guard; cleared = n ∷ p.cleared })
      cleared_other (inl b) = inl b
      cleared_other (inr (k, i, j)) = inr (k, i, Idle-cons m n p.cleared j (passed_other n p d h))
  Step-Doomed (refused n p e h) d = settle-Doomed m n p d
  Step-Doomed (starts n p c) (inl b) = inl (start-HasBlock n p.guard b)
  Step-Doomed (starts n p c) (inr (h, i, j)) =
      inr (start-HasMarker n p.guard h, Idle-start n p.guard i (in_other n p.cleared j c), j)
  Step-Doomed (finishes n p c u) (inl b) = inl (finish-HasBlock n p.guard b)
  Step-Doomed (finishes n p c u) (inr (h, i, j)) = inr (
    finish-HasMarker n p.guard (in_other n p.guard.active i c) h,
    Idle-without n p.guard.active i,
    j,
  )

  -- while the run of `m` goes on: the marker, or the block that a check has made of it
  abbrev Marked : Process → Type 0
  Marked p = HasBlock m p.guard ⊎ HasMarker m p.guard

  restart-Doomed : (p : Process) → Marked p → Doomed m (restart p)
  restart-Doomed p (inl b) = inl b
  restart-Doomed p (inr h) = inr (h, λ n e. refl, λ n e. refl)

  Doomed-Marked : (p : Process) → Doomed m p → Marked p
  Doomed-Marked p (inl b) = inl b
  Doomed-Marked p (inr (h, i, j)) = inr h

  Steps-Doomed : {p q : Process} → Steps describe Any p q → Doomed m p → Doomed m q
  Steps-Doomed (done p) d = d
  Steps-Doomed (next s r) d = Steps-Doomed r (Step-Doomed s d)
  Steps-Doomed (restarts {p} r) d = Steps-Doomed r (restart-Doomed p (Doomed-Marked p d))

  settle-Marked :
      (n : Text) (p : Process) → Marked p → Marked (record p { guard = settle n p.guard })
  settle-Marked n p (inl b) = inl (settle-HasBlock m n p.guard b)
  settle-Marked n p (inr h) = elim (Bool-cases (text_eq (running n) (running m))) [
    | inl t ↦
        settled ((text_eq_iff (running n) (running m)).0 t) (Bool-cases (contains n p.guard.active))
    | inr f ↦
        inr (
          settle_other m n p.guard (λ e. let t = (text_eq_iff (running n) (running m)).1 e in cc) h)
  ]
    where
      settled :
          running n ≡ running m
          → (contains n p.guard.active ≡ true) ⊎ (contains n p.guard.active ≡ false)
          → Marked (record p { guard = settle n p.guard })
      settled e (inl a) = inr (settle_active m n p.guard a h)
      settled e (inr a) = inl (settle_idle m n p.guard e a h)

  Step-Marked : {p q : Process} → Step describe (Other m) p q → Marked p → Marked q
  unfolding check
  Step-Marked (passes n p h) d = settle-Marked n p d
  Step-Marked (refused n p e h) d = settle-Marked n p d
  Step-Marked (starts n p c) (inl b) = inl (start-HasBlock n p.guard b)
  Step-Marked (starts n p c) (inr h) = inr (start-HasMarker n p.guard h)
  Step-Marked (finishes n p c u) (inl b) = inl (finish-HasBlock n p.guard b)
  Step-Marked (finishes n p c u) (inr h) = inr (finish-HasMarker n p.guard u h)

  Steps-Marked : {p q : Process} → Steps describe (Other m) p q → Marked p → Marked q
  Steps-Marked (done p) d = d
  Steps-Marked (next s r) d = Steps-Marked r (Step-Marked s d)
  Steps-Marked (restarts r) d = Steps-Marked r d

  starts-Marked : (p : Process) → Marked (record p { guard = start m p.guard })
  unfolding start
  starts-Marked p = inr (ground (arith, text_eq_refl (running m)))

  -- If a run of `m` starts, no run with its marker finishes, and the process is killed, then every
  -- later check of `m` raises EmbeddingUnavailableError, however many processes check, run, finish and
  -- die in between.
  pub killed_blocked :
      (p : Process) {q r : Process}
      → Steps describe (Other m) (record p { guard = start m p.guard }) q
      → Steps describe Any (restart q) r
      → (check describe m r.guard).0 ≡ raised (embedding_unavailable (describe m))
  killed_blocked p {q} {r} s t =
      check-Doomed m r refl (Steps-Doomed t (restart-Doomed q (Steps-Marked s (starts-Marked p))))
