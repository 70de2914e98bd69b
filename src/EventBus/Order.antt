-- ===== src/EventBus/Order.antt =====
-- What the consumer of event_bus.py has seen, whatever the other sessions do and wherever it dies.
use mathlib.Core.List.{List}
use event_driven_rag_pipelin.Prelude.{
  ℕ, suc, ◌+◌, ◌<◌, ◌≡◌, refl, sym, ◌∙◌, subst, Text, text_eq, Bool, true, ◌&&◌, none, some, Option,
  [], ◌∷◌, arith, ltb, keep, All, All-take, All-append, keep-passes,
}
use event_driven_rag_pipelin.EventBus.{
  Row, Offset, Tables, Consumer, Bus, Action, reserving, committing, publishing, polling, advancing,
  yielding, crashing, with_id, reserve, commit, publish, make_visible, ensure_offset, set_offset,
  select_batch, batch_size, poll, advance, hand_over, crash, step, run, start,
}
use event_driven_rag_pipelin.EventBus.Rows.{
  IsAscending, Above, Below, Lacks, IsFresh, Below-mono, keep-IsAscending, take-Above,
  take-IsAscending, IsAscending-snoc, Below-snoc, insert_row-IsAscending, Below-insert_row,
  Below-without, IsFresh-without, with_id_lem, offset_of, has_offset, ensure_offset-eq-offset_of,
  offset_of-ensure_offset, has_offset-ensure_offset, offset_of-set_offset, has_offset-set_offset,
}

-- The tables: ids ascend in the log, were all handed out, and no pending id is visible yet.
pub record IsTable (b : Tables) : Type 0 where
  pub log_ascending : IsAscending b.log
  pub log_below : Below b.next_id b.log
  pub pending_below : Below b.next_id b.pending
  pub pending_fresh : IsFresh b.log b.pending

IsFresh-reserve : (n : ℕ) (log : List Row) → Below n log → Lacks n log
IsFresh-reserve n [] h = tt
IsFresh-reserve n (r ∷ l) h = (omega arith, IsFresh-reserve n l h.1)

pub reserve-IsTable : (t p : Text) (b : Tables) → IsTable b → IsTable (reserve t p b)
unfolding reserve
reserve-IsTable t p b h = record {
  log_ascending = h.log_ascending;
  log_below = Below-mono b.next_id (b.next_id + 1) b.log (omega arith) h.log_below;
  pending_below =
      (omega arith, Below-mono b.next_id (b.next_id + 1) b.pending (omega arith) h.pending_below);
  pending_fresh = (IsFresh-reserve b.next_id b.log h.log_below, h.pending_fresh);
}

make_visible-IsTable :
    (b : Tables) (o : Option Row)
    → ((r : Row) → o ≡ some r → (r.id < b.next_id) × Lacks r.id b.log)
    → IsTable b
    → IsTable (make_visible o b)
unfolding make_visible
make_visible-IsTable b none k h = h
make_visible-IsTable b (some r) k h = record {
  log_ascending = insert_row-IsAscending r b.log h.log_ascending (k r refl).1;
  log_below = Below-insert_row b.next_id r b.log (k r refl).0 h.log_below;
  pending_below = Below-without b.next_id r.id b.pending h.pending_below;
  pending_fresh = IsFresh-without r b.log b.pending h.pending_fresh;
}

pub commit-IsTable : (i : ℕ) (b : Tables) → IsTable b → IsTable (commit i b)
unfolding commit
commit-IsTable i b h =
    make_visible-IsTable b (with_id i b.pending)
      (λ r e. with_id_lem i b.pending b.log {r = r} b.next_id h.pending_below h.pending_fresh e) h

pub publish-IsTable : (t p : Text) (b : Tables) → IsTable b → IsTable (publish t p b)
unfolding publish
publish-IsTable t p b h = commit-IsTable b.next_id (reserve t p b) (reserve-IsTable t p b h)

offsets-make_visible : (o : Option Row) (b : Tables) → (make_visible o b).offsets ≡ b.offsets
unfolding make_visible
offsets-make_visible none b = refl
offsets-make_visible (some r) b = refl

pub offsets-commit : (i : ℕ) (b : Tables) → (commit i b).offsets ≡ b.offsets
unfolding commit
offsets-commit i b = offsets-make_visible (with_id i b.pending) b

pub offsets-publish : (t p : Text) (b : Tables) → (publish t p b).offsets ≡ b.offsets
unfolding publish reserve
offsets-publish t p b = offsets-commit b.next_id (reserve t p b)

-- the offset row that `advance` updates is there
abbrev pub Located : Text → Text → List Row → List Offset → Type 0
Located group topic [] l = Unit
Located group topic (r ∷ rows) l = has_offset group topic l ≡ true

-- where the last yield stands against the offset
abbrev pub CurrentAt : ℕ → List Row → Option Row → Type 0
CurrentAt n delivered none = Below (suc n) delivered
CurrentAt n delivered (some r) = (r.id ≡ n) × Below r.id delivered

abbrev pub OfTopic : Text → Option Row → Type 0
OfTopic topic none = Unit
OfTopic topic (some r) = text_eq r.topic topic ≡ true

module _ (group topic : Text) where
  -- The consumer: its rows ascend above the offset, its yields ascend up to it.
  pub record IsConsumer (l : List Offset) (c : Consumer) : Type 0 where
    pub rows_ascending : IsAscending c.rows
    pub rows_above : Above (offset_of group topic l) c.rows
    pub rows_topic : All (λ r. text_eq r.topic topic ≡ true) c.rows
    pub located : Located group topic c.rows l
    pub current_at : CurrentAt (offset_of group topic l) c.delivered c.current
    pub current_topic : OfTopic topic c.current
    pub delivered_ascending : IsAscending c.delivered
    pub delivered_topic : All (λ r. text_eq r.topic topic ≡ true) c.delivered

  pub record IsOrdered (s : Bus) : Type 0 where
    pub table : IsTable s.tables
    pub consumer : IsConsumer s.tables.offsets s.consumer

  selected :
      (n : ℕ) (l : List Row)
      → All (λ r. (text_eq r.topic topic && ltb n r.id) ≡ true) l
      → All (λ r. n < r.id) l × All (λ r. text_eq r.topic topic ≡ true) l
  selected n [] h = (tt, tt)
  selected n (r ∷ l) h = ground (arith, selected n l h.1)

  select_batch-lem :
      (n : ℕ) (log : List Row)
      → IsAscending log
      → IsAscending (select_batch topic n batch_size log)
        × Above n (select_batch topic n batch_size log)
        × All (λ r. text_eq r.topic topic ≡ true) (select_batch topic n batch_size log)
  unfolding select_batch
  select_batch-lem n log h =
      let p : Row → Bool = λ r. text_eq r.topic topic && ltb n r.id in
      let facts = selected n (keep p log) (keep-passes p log) in
      (
        take-IsAscending 100 (keep p log) (keep-IsAscending p log h),
        take-Above n 100 (keep p log) facts.0,
        All-take (λ r. text_eq r.topic topic ≡ true) 100 (keep p log) facts.1,
      )

  Located-intro :
      (rows : List Row) (l : List Offset)
      → has_offset group topic l ≡ true
      → Located group topic rows l
  Located-intro [] l h = tt
  Located-intro (r ∷ rows) l h = h

  Located-cong :
      (rows : List Row) (l l' : List Offset)
      → has_offset group topic l' ≡ has_offset group topic l
      → Located group topic rows l
      → Located group topic rows l'
  Located-cong [] l l' e h = tt
  Located-cong (r ∷ rows) l l' e h = cc

  offsets-IsTable : (b : Tables) (l : List Offset) → IsTable b → IsTable (record b { offsets = l })
  offsets-IsTable b l h = record {
    log_ascending = h.log_ascending;
    log_below = h.log_below;
    pending_below = h.pending_below;
    pending_fresh = h.pending_fresh;
  }

  poll-IsOrdered :
      (rows : List Row) (o : Option Row) (s : Bus)
      → s.consumer.current ≡ o
      → IsOrdered s
      → IsOrdered (poll group topic rows o s)
  unfolding poll
  poll-IsOrdered [] none s eo h =
      let e : (ensure_offset group topic s.tables.offsets).0
          ≡ offset_of group topic (ensure_offset group topic s.tables.offsets).1 =
        ensure_offset-eq-offset_of group topic s.tables.offsets
        ∙ sym (offset_of-ensure_offset group topic s.tables.offsets) in
      let facts =
        select_batch-lem (ensure_offset group topic s.tables.offsets).0 s.tables.log
          h.table.log_ascending in
      record {
        table = offsets-IsTable s.tables (ensure_offset group topic s.tables.offsets).1 h.table;
        consumer = record {
          rows_ascending = facts.0;
          rows_above =
              subst
                (λ k. Above k (
                  select_batch topic (ensure_offset group topic s.tables.offsets).0 batch_size
                    s.tables.log))
                e facts.1;
          rows_topic = facts.2;
          located = Located-intro _ _ (has_offset-ensure_offset group topic s.tables.offsets);
          current_at =
              subst (λ k. CurrentAt k s.consumer.delivered s.consumer.current)
                (sym (offset_of-ensure_offset group topic s.tables.offsets)) h.consumer.current_at;
          current_topic = h.consumer.current_topic;
          delivered_ascending = h.consumer.delivered_ascending;
          delivered_topic = h.consumer.delivered_topic;
        };
      }
  poll-IsOrdered (r ∷ rows) none s eo h = h
  poll-IsOrdered [] (some r) s eo h = h
  poll-IsOrdered (x ∷ rows) (some r) s eo h = h

  advance-IsOrdered :
      (rows : List Row) (o : Option Row) (s : Bus)
      → s.consumer.rows ≡ rows
      → s.consumer.current ≡ o
      → IsOrdered s
      → IsOrdered (advance group topic rows o s)
  unfolding advance
  advance-IsOrdered (r ∷ rows) none s er eo h =
      let c = h.consumer in
      let located = subst (λ l. Located group topic l s.tables.offsets) er c.located in
      let ascending = subst IsAscending er c.rows_ascending in
      let above = subst (Above (offset_of group topic s.tables.offsets)) er c.rows_above in
      let topics = subst (All (λ x. text_eq x.topic topic ≡ true)) er c.rows_topic in
      let at_r = offset_of-set_offset group topic r.id s.tables.offsets located in
      let yielded =
        subst (CurrentAt (offset_of group topic s.tables.offsets) s.consumer.delivered) eo
          c.current_at in
      record {
        table = offsets-IsTable s.tables (set_offset r.id group topic s.tables.offsets) h.table;
        consumer = record {
          rows_ascending = ascending.1;
          rows_above = subst (λ k. Above k rows) (sym at_r) ascending.0;
          rows_topic = topics.1;
          located =
              Located-intro rows _
                (has_offset-set_offset group topic r.id s.tables.offsets ∙ located);
          current_at = (
            sym at_r,
            Below-mono (suc (offset_of group topic s.tables.offsets)) r.id s.consumer.delivered
                above.0 yielded,
          );
          current_topic = topics.0;
          delivered_ascending = c.delivered_ascending;
          delivered_topic = c.delivered_topic;
        };
      }
  advance-IsOrdered [] none s er eo h = h
  advance-IsOrdered [] (some r) s er eo h = h
  advance-IsOrdered (x ∷ rows) (some r) s er eo h = h

  hand_over-IsOrdered :
      (o : Option Row) (s : Bus)
      → s.consumer.current ≡ o
      → IsOrdered s
      → IsOrdered (hand_over group topic o s)
  unfolding hand_over
  hand_over-IsOrdered none s eo h = h
  hand_over-IsOrdered (some r) s eo h =
      let c = h.consumer in
      let yielded =
        subst (CurrentAt (offset_of group topic s.tables.offsets) s.consumer.delivered) eo
          c.current_at in
      record {
        table = h.table;
        consumer = record {
          rows_ascending = c.rows_ascending;
          rows_above = c.rows_above;
          rows_topic = c.rows_topic;
          located = c.located;
          current_at =
              Below-snoc (suc (offset_of group topic s.tables.offsets)) s.consumer.delivered r
                (Below-mono r.id (suc (offset_of group topic s.tables.offsets)) s.consumer.delivered
                  (omega (arith, yielded.0)) yielded.1)
                (omega (arith, yielded.0));
          current_topic = tt;
          delivered_ascending =
              IsAscending-snoc s.consumer.delivered r c.delivered_ascending yielded.1;
          delivered_topic =
              All-append (λ x. text_eq x.topic topic ≡ true) s.consumer.delivered (r ∷ [])
                c.delivered_topic (subst (OfTopic topic) eo c.current_topic, tt);
        };
      }

  -- a crash after the UPDATE and before the yield leaves the offset past the row
  current_passed :
      (n : ℕ) (delivered : List Row) (o : Option Row)
      → CurrentAt n delivered o
      → Below (suc n) delivered
  current_passed n delivered none h = h
  current_passed n delivered (some r) h = Below-mono r.id (suc n) delivered (omega (arith, h.0)) h.1

  crash-IsOrdered : (s : Bus) → IsOrdered s → IsOrdered (crash group topic s)
  unfolding crash
  crash-IsOrdered s h = record {
    table = h.table;
    consumer = record {
      rows_ascending = tt;
      rows_above = tt;
      rows_topic = tt;
      located = tt;
      current_at =
          current_passed (offset_of group topic s.tables.offsets) s.consumer.delivered
            s.consumer.current h.consumer.current_at;
      current_topic = tt;
      delivered_ascending = h.consumer.delivered_ascending;
      delivered_topic = h.consumer.delivered_topic;
    };
  }

  pub step-IsOrdered : (a : Action) (s : Bus) → IsOrdered s → IsOrdered (step group topic a s)
  unfolding step
  step-IsOrdered (reserving t p) s h = record {
    table = reserve-IsTable t p s.tables h.table;
    consumer = unfold reserve in h.consumer;
  }
  step-IsOrdered (committing i) s h = record {
    table = commit-IsTable i s.tables h.table;
    consumer = subst (λ l. IsConsumer l s.consumer) (sym (offsets-commit i s.tables)) h.consumer;
  }
  step-IsOrdered (publishing t p) s h = record {
    table = publish-IsTable t p s.tables h.table;
    consumer = subst (λ l. IsConsumer l s.consumer) (sym (offsets-publish t p s.tables)) h.consumer;
  }
  step-IsOrdered polling s h = poll-IsOrdered s.consumer.rows s.consumer.current s refl h
  step-IsOrdered advancing s h = advance-IsOrdered s.consumer.rows s.consumer.current s refl refl h
  step-IsOrdered yielding s h = hand_over-IsOrdered s.consumer.current s refl h
  step-IsOrdered crashing s h = crash-IsOrdered s h

  pub run-IsOrdered : (l : List Action) (s : Bus) → IsOrdered s → IsOrdered (run group topic l s)
  unfolding run
  run-IsOrdered [] s h = h
  run-IsOrdered (a ∷ l) s h = run-IsOrdered l (step group topic a s) (step-IsOrdered a s h)

  pub start-IsOrdered : IsOrdered start
  start-IsOrdered = record {
    table = record { log_ascending = tt; log_below = tt; pending_below = tt; pending_fresh = tt };
    consumer = record {
      rows_ascending = tt;
      rows_above = tt;
      rows_topic = tt;
      located = tt;
      current_at = tt;
      current_topic = tt;
      delivered_ascending = tt;
      delivered_topic = tt;
    };
  }
