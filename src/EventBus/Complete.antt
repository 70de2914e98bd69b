-- ===== src/EventBus/Complete.antt =====
-- With whole publishes and no crash, `subscribe` of event_bus.py yields every event in order.
use event_driven_rag_pipelin.Prelude.{
  ℕ, ◌+◌, ◌≤◌, ◌<◌, ◌≡◌, refl, sym, ap, ◌∙◌, subst, Text, text_eq, ◌&&◌, none, some, Option, List,
  [], ◌∷◌, ◌++◌, append_assoc, arith, ltb, All, All-keep, keep, drop, take-append-drop, keep-append,
}
use event_driven_rag_pipelin.EventBus.{
  Row, Tables, Bus, Action, reserving, committing, publishing, polling, advancing, yielding,
  crashing, reserve, commit, publish, make_visible, ensure_offset, set_offset, select_batch, poll,
  advance, hand_over, step, run, start, batch_size, with_id,
}
use event_driven_rag_pipelin.EventBus.Rows.{
  IsAscending, Above, Below, keep-IsAscending, insert_row_last, offset_of, offset_of-ensure_offset,
  offset_of-set_offset, has_offset-ensure_offset, ensure_offset-eq-offset_of,
}
use event_driven_rag_pipelin.EventBus.Order.{
  IsTable, IsOrdered, Located, step-IsOrdered, start-IsOrdered, offsets-publish,
}

-- the rows of a topic, and those above an id
abbrev pub of_topic : Text → List Row → List Row
of_topic topic l = keep (λ r. text_eq r.topic topic) l

abbrev pub unread : Text → ℕ → List Row → List Row
unread topic n l = keep (λ r. text_eq r.topic topic && ltb n r.id) l

abbrev pub pending_yield : Option Row → List Row
pending_yield none = []
pending_yield (some r) = r ∷ []

-- A step of a system in which every publish commits at once and nothing dies.
abbrev pub IsQuiet : Action → Type 0
IsQuiet (publishing t p) = Unit
IsQuiet polling = Unit
IsQuiet advancing = Unit
IsQuiet yielding = Unit
IsQuiet _ = ⊥

keep_above :
    (topic : Text) (m n : ℕ) (l : List Row)
    → m ≤ n
    → unread topic n l ≡ keep (λ r. ltb n r.id) (unread topic m l)
keep_above topic m n [] h = refl
keep_above topic m n (r ∷ l) h = ground (arith, keep_above topic m n l h)

keep-Above : (n : ℕ) (l : List Row) → Above n l → keep (λ r. ltb n r.id) l ≡ l
keep-Above n [] h = refl
keep-Above n (r ∷ l) h = ground (arith, keep-Above n l h.1)

-- after the head is read, the rest is unread
unread_next :
    (topic : Text) (n : ℕ) (r : Row) (rest log : List Row)
    → IsAscending log
    → n < r.id
    → unread topic n log ≡ r ∷ rest
    → unread topic r.id log ≡ rest
unread_next topic n r rest log a h e =
    let up : IsAscending (r ∷ rest) = subst IsAscending e (keep-IsAscending _ log a) in
    keep_above topic n r.id log (omega arith)
    ∙ ap (keep (λ x. ltb r.id x.id)) e
    ∙ dropped (keep-Above r.id rest up.0)
  where
    dropped : keep (λ x. ltb r.id x.id) rest ≡ rest → keep (λ x. ltb r.id x.id) (r ∷ rest) ≡ rest
    dropped e = ground arith

publish-log :
    (t p : Text) (b : Tables)
    → IsTable b
    → (publish t p b).log ≡ b.log ++ (record { id = b.next_id; topic = t; payload = p } ∷ [])
unfolding publish commit reserve make_visible
publish-log t p b h = rw found (insert_row_last _ b.log h.log_below)
  where
    found :
        with_id b.next_id (record { id = b.next_id; topic = t; payload = p } ∷ b.pending)
        ≡ some (record { id = b.next_id; topic = t; payload = p })
    found = ground arith

publish-next_id : (t p : Text) (b : Tables) → (publish t p b).next_id ≡ b.next_id + 1
unfolding publish commit reserve make_visible
publish-next_id t p b = ground arith

module _ (group topic : Text) where
  -- Nothing of the topic is lost between what was yielded and what is unread, and the rows at hand
  -- are the next unread ones.
  pub record IsCaughtUp (s : Bus) : Type 0 where
    pub offset_below : offset_of group topic s.tables.offsets < s.tables.next_id
    pub whole :
        s.consumer.delivered
          ++ (pending_yield s.consumer.current
              ++ unread topic (offset_of group topic s.tables.offsets) s.tables.log)
        ≡ of_topic topic s.tables.log
    pub rest : List Row
    pub ahead :
        unread topic (offset_of group topic s.tables.offsets) s.tables.log ≡ s.consumer.rows ++ rest

  publish-IsCaughtUp :
      (t p : Text) (s : Bus)
      → IsOrdered group topic s
      → IsCaughtUp s
      → IsCaughtUp (record s { tables = publish t p s.tables })
  publish-IsCaughtUp t p s w h =
      let new : Row = record { id = s.tables.next_id; topic = t; payload = p } in
      let n = offset_of group topic s.tables.offsets in
      let more : unread topic n (new ∷ []) ≡ of_topic topic (new ∷ []) =
        added n new h.offset_below in
      rw
        (
          offsets-publish t p s.tables,
          publish-log t p s.tables w.table,
          publish-next_id t p s.tables,
        )
        (record {
          offset_below = omega (arith, h.offset_below);
          whole =
              rw
                (keep-append _ s.tables.log (new ∷ []), keep-append _ s.tables.log (new ∷ []), more)
                (regroup s.consumer.delivered (pending_yield s.consumer.current) _ _
                  ∙ ap (λ l. l ++ of_topic topic (new ∷ [])) h.whole);
          rest = h.rest ++ unread topic n (new ∷ []);
          ahead =
              keep-append _ s.tables.log (new ∷ [])
              ∙ ap (λ l. l ++ unread topic n (new ∷ [])) h.ahead
              ∙ append_assoc s.consumer.rows h.rest _;
        })
    where
      added :
          (n : ℕ) (new : Row) → n < new.id → unread topic n (new ∷ []) ≡ of_topic topic (new ∷ [])
      added n new h = ground arith

      regroup : (a b c d : List Row) → a ++ (b ++ (c ++ d)) ≡ (a ++ (b ++ c)) ++ d
      regroup a b c d = simp append_assoc

  poll-IsCaughtUp :
      (rows : List Row) (o : Option Row) (s : Bus)
      → IsCaughtUp s
      → IsCaughtUp (poll group topic rows o s)
  unfolding poll select_batch
  poll-IsCaughtUp [] none s h =
      let l = (ensure_offset group topic s.tables.offsets).1 in
      let n = offset_of group topic s.tables.offsets in
      let same : offset_of group topic l ≡ n =
        offset_of-ensure_offset group topic s.tables.offsets in
      record {
        offset_below = omega (arith, same, h.offset_below);
        whole = rw same h.whole;
        rest = drop batch_size (unread topic n s.tables.log);
        ahead =
            rw (same, ensure_offset-eq-offset_of group topic s.tables.offsets)
              (sym (take-append-drop batch_size (unread topic n s.tables.log)));
      }
  poll-IsCaughtUp (r ∷ rows) none s h = h
  poll-IsCaughtUp [] (some r) s h = h
  poll-IsCaughtUp (x ∷ rows) (some r) s h = h

  advance-IsCaughtUp :
      (rows : List Row) (o : Option Row) (s : Bus)
      → s.consumer.rows ≡ rows
      → s.consumer.current ≡ o
      → IsOrdered group topic s
      → IsCaughtUp s
      → IsCaughtUp (advance group topic rows o s)
  unfolding advance
  advance-IsCaughtUp (r ∷ rows) none s er eo w h =
      let n = offset_of group topic s.tables.offsets in
      let above : Above n (r ∷ rows) = subst (Above n) er w.consumer.rows_above in
      let located = subst (λ l. Located group topic l s.tables.offsets) er w.consumer.located in
      let same : offset_of group topic (set_offset r.id group topic s.tables.offsets) ≡ r.id =
        offset_of-set_offset group topic r.id s.tables.offsets located in
      let ahead : unread topic n s.tables.log ≡ r ∷ (rows ++ h.rest) =
        h.ahead ∙ ap (λ l. l ++ h.rest) er in
      let next : unread topic r.id s.tables.log ≡ rows ++ h.rest =
        unread_next topic n r (rows ++ h.rest) s.tables.log w.table.log_ascending above.0 ahead in
      let below : Below s.tables.next_id (r ∷ (rows ++ h.rest)) =
        subst (Below s.tables.next_id) ahead
          (All-keep (λ x. x.id < s.tables.next_id) _ s.tables.log w.table.log_below) in
      record {
        offset_below = omega (arith, same, below.0);
        whole = rw (same, next) (sym (ap₂-whole s eo ahead) ∙ h.whole);
        rest = h.rest;
        ahead = rw same next;
      }
    where
      ap₂-whole :
          {l : List Row} (s : Bus)
          → s.consumer.current ≡ none
          → unread topic (offset_of group topic s.tables.offsets) s.tables.log ≡ l
          → s.consumer.delivered
              ++ (pending_yield s.consumer.current
                  ++ unread topic (offset_of group topic s.tables.offsets) s.tables.log)
            ≡ s.consumer.delivered ++ l
      ap₂-whole s eo e = cc (ap pending_yield eo, e)
  advance-IsCaughtUp [] none s er eo w h = h
  advance-IsCaughtUp [] (some r) s er eo w h = h
  advance-IsCaughtUp (x ∷ rows) (some r) s er eo w h = h

  hand_over-IsCaughtUp :
      (o : Option Row) (s : Bus)
      → s.consumer.current ≡ o
      → IsCaughtUp s
      → IsCaughtUp (hand_over group topic o s)
  unfolding hand_over
  hand_over-IsCaughtUp none s eo h = h
  hand_over-IsCaughtUp (some r) s eo h = record {
    offset_below = h.offset_below;
    whole =
        append_assoc s.consumer.delivered (r ∷ []) _
        ∙ subst
            (λ o.
              s.consumer.delivered
                ++ (pending_yield o
                    ++ unread topic (offset_of group topic s.tables.offsets) s.tables.log)
              ≡ of_topic topic s.tables.log)
            eo h.whole;
    rest = h.rest;
    ahead = h.ahead;
  }

  step-IsCaughtUp :
      (a : Action) (s : Bus)
      → IsQuiet a
      → IsOrdered group topic s
      → IsCaughtUp s
      → IsCaughtUp (step group topic a s)
  unfolding step
  step-IsCaughtUp (reserving t p) s q w h = absurd q
  step-IsCaughtUp (committing i) s q w h = absurd q
  step-IsCaughtUp (publishing t p) s q w h = publish-IsCaughtUp t p s w h
  step-IsCaughtUp polling s q w h = poll-IsCaughtUp s.consumer.rows s.consumer.current s h
  step-IsCaughtUp advancing s q w h =
      advance-IsCaughtUp s.consumer.rows s.consumer.current s refl refl w h
  step-IsCaughtUp yielding s q w h = hand_over-IsCaughtUp s.consumer.current s refl h
  step-IsCaughtUp crashing s q w h = absurd q

  run-IsCaughtUp :
      (l : List Action) (s : Bus)
      → All IsQuiet l
      → IsOrdered group topic s
      → IsCaughtUp s
      → IsCaughtUp (run group topic l s)
  unfolding run
  run-IsCaughtUp [] s q w h = h
  run-IsCaughtUp (a ∷ l) s q w h =
      run-IsCaughtUp l (step group topic a s) q.1 (step-IsOrdered group topic a s w)
        (step-IsCaughtUp a s q.0 w h)

  start-IsCaughtUp : IsCaughtUp start
  start-IsCaughtUp = record { offset_below = omega arith; whole = refl; rest = []; ahead = refl }

-- From the empty database, while every publish commits at once and nothing dies, what the consumer
-- has yielded, the row it is yielding and the rows of the topic above its offset are, in this
-- order, exactly the rows of the topic in the log.
pub nothing_lost :
    (group topic : Text) (actions : List Action)
    → All IsQuiet actions
    → let s = run group topic actions start in
      s.consumer.delivered
        ++ (pending_yield s.consumer.current
            ++ unread topic (offset_of group topic s.tables.offsets) s.tables.log)
      ≡ of_topic topic s.tables.log
nothing_lost group topic actions q =
    (run-IsCaughtUp group topic actions start q (start-IsOrdered group topic)
      (start-IsCaughtUp group topic)).whole

abbrev deliver_next : List Action
deliver_next = polling ∷ advancing ∷ yielding ∷ []

-- A consumer with no row at hand and an unread row of its topic yields the first unread row by one
-- poll, one offset update and one yield, and the stored offset is then that row's id.
pub next_delivered :
    (group topic : Text) (s : Bus) {r : Row} {rest : List Row}
    → s.consumer.rows ≡ []
    → s.consumer.current ≡ none
    → unread topic (offset_of group topic s.tables.offsets) s.tables.log ≡ r ∷ rest
    → let s' = run group topic deliver_next s in
      (s'.consumer.delivered ≡ s.consumer.delivered ++ (r ∷ []))
      × (offset_of group topic s'.tables.offsets ≡ r.id)
unfolding run step poll select_batch advance hand_over
next_delivered group topic s {r} {rest} er ec eu =
    rw (er, ec, ensure_offset-eq-offset_of group topic s.tables.offsets, eu)
      (
        refl,
        offset_of-set_offset group topic r.id _
            (has_offset-ensure_offset group topic s.tables.offsets),
      )
