-- ===== src/EventBus/Once.antt =====
-- Delivery of the Postgres bus (event_bus.py, `subscribe`) under crashes and concurrent publishers.
use event_driven_rag_pipelin.Prelude.{
  ℕ, ◌≤◌, ◌≡◌, refl, sym, subst, ◌≢◌, Text, text_eq, true, none, some, Option, List, [], ◌∷◌, arith,
  All,
}
use event_driven_rag_pipelin.EventBus.{
  Row, Bus, Action, reserving, committing, publishing, polling, advancing, yielding, crashing,
  reserve, poll, advance, hand_over, crash, step, run, start,
}
use event_driven_rag_pipelin.EventBus.Rows.{
  IsAscending, Above, Lacks, Lacks-snoc, offset_of, offset_of-ensure_offset, offset_of-set_offset,
}
use event_driven_rag_pipelin.EventBus.Order.{
  IsOrdered, Located, offsets-commit, offsets-publish, step-IsOrdered, run-IsOrdered,
  start-IsOrdered,
}

-- Whatever sequence of publishing, committing, polling, offset updates, yields and crashes happens
-- from the empty database, the ids that the consumer has yielded are strictly ascending, so no
-- event is yielded twice, and every one of them has the topic that was subscribed to.
pub at_most_once :
    (group topic : Text) (actions : List Action)
    → IsAscending (run group topic actions start).consumer.delivered
      × All (λ r. text_eq r.topic topic ≡ true) (run group topic actions start).consumer.delivered
at_most_once group topic actions =
    let h = run-IsOrdered group topic actions start (start-IsOrdered group topic) in
    (h.consumer.delivered_ascending, h.consumer.delivered_topic)

abbrev pub NotCurrent : ℕ → Option Row → Type 0
NotCurrent i none = Unit
NotCurrent i (some r) = r.id ≢ i

module _ (group topic : Text) (i : ℕ) where
  -- the offset has passed `i`, which was not yielded and is not about to be
  pub record IsMissed (s : Bus) : Type 0 where
    pub passed : i ≤ offset_of group topic s.tables.offsets
    pub not_current : NotCurrent i s.consumer.current
    pub not_delivered : Lacks i s.consumer.delivered

  poll-IsMissed :
      (rows : List Row) (o : Option Row) (s : Bus)
      → IsMissed s
      → IsMissed (poll group topic rows o s)
  unfolding poll
  poll-IsMissed [] none s h = record {
    passed = omega (arith, h.passed, offset_of-ensure_offset group topic s.tables.offsets);
    not_current = h.not_current;
    not_delivered = h.not_delivered;
  }
  poll-IsMissed (r ∷ rows) none s h = h
  poll-IsMissed [] (some r) s h = h
  poll-IsMissed (x ∷ rows) (some r) s h = h

  advance-IsMissed :
      (rows : List Row) (o : Option Row) (s : Bus)
      → s.consumer.rows ≡ rows
      → IsOrdered group topic s
      → IsMissed s
      → IsMissed (advance group topic rows o s)
  unfolding advance
  advance-IsMissed (r ∷ rows) none s e w h =
      let above = subst (Above (offset_of group topic s.tables.offsets)) e w.consumer.rows_above in
      let located = subst (λ l. Located group topic l s.tables.offsets) e w.consumer.located in
      record {
        passed = omega (
          arith,
          h.passed,
          above.0,
          offset_of-set_offset group topic r.id s.tables.offsets located,
        );
        not_current = omega (arith, h.passed, above.0);
        not_delivered = h.not_delivered;
      }
  advance-IsMissed [] none s e w h = h
  advance-IsMissed [] (some r) s e w h = h
  advance-IsMissed (x ∷ rows) (some r) s e w h = h

  hand_over-IsMissed :
      (o : Option Row) (s : Bus)
      → s.consumer.current ≡ o
      → IsMissed s
      → IsMissed (hand_over group topic o s)
  unfolding hand_over
  hand_over-IsMissed none s e h = h
  hand_over-IsMissed (some r) s e h = record {
    passed = h.passed;
    not_current = tt;
    not_delivered =
        Lacks-snoc i s.consumer.delivered r h.not_delivered (subst (NotCurrent i) e h.not_current);
  }

  step-IsMissed :
      (a : Action) (s : Bus)
      → IsOrdered group topic s
      → IsMissed s
      → IsMissed (step group topic a s)
  unfolding step
  step-IsMissed (reserving t p) s w h =
      unfold reserve in
      record { passed = h.passed; not_current = h.not_current; not_delivered = h.not_delivered }
  step-IsMissed (committing j) s w h = record {
    passed = subst (λ l. i ≤ offset_of group topic l) (sym (offsets-commit j s.tables)) h.passed;
    not_current = h.not_current;
    not_delivered = h.not_delivered;
  }
  step-IsMissed (publishing t p) s w h = record {
    passed = subst (λ l. i ≤ offset_of group topic l) (sym (offsets-publish t p s.tables)) h.passed;
    not_current = h.not_current;
    not_delivered = h.not_delivered;
  }
  step-IsMissed polling s w h = poll-IsMissed s.consumer.rows s.consumer.current s h
  step-IsMissed advancing s w h = advance-IsMissed s.consumer.rows s.consumer.current s refl w h
  step-IsMissed yielding s w h = hand_over-IsMissed s.consumer.current s refl h
  step-IsMissed crashing s w h =
      unfold crash in
      record { passed = h.passed; not_current = tt; not_delivered = h.not_delivered }

  run-IsMissed :
      (l : List Action) (s : Bus)
      → IsOrdered group topic s
      → IsMissed s
      → IsMissed (run group topic l s)
  unfolding run
  run-IsMissed [] s w h = h
  run-IsMissed (a ∷ l) s w h =
      run-IsMissed l (step group topic a s) (step-IsOrdered group topic a s w)
        (step-IsMissed a s w h)

-- Once the stored offset has reached the id `i` while the event `i` is neither yielded nor the one
-- being yielded (its process died between the two, or its transaction committed late), no further
-- run of the system, restarts included, ever yields it.
pub passed_never_delivered :
    (group topic : Text) (i : ℕ) (before after : List Action)
    → IsMissed group topic i (run group topic before start)
    → Lacks i (run group topic after (run group topic before start)).consumer.delivered
passed_never_delivered group topic i before after h =
    (run-IsMissed group topic i after (run group topic before start)
      (run-IsOrdered group topic before start (start-IsOrdered group topic)) h).not_delivered
