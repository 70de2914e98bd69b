-- ===== src/EventBus.antt =====
-- The Postgres event bus, src/event_driven_rag_service/infrastructure/event_bus.py: the two tables,
-- `publish`, and the generator `subscribe` of one consumer, a step at a time. `publish` is one
-- INSERT: it takes an id from the identity column (`reserve`) and becomes visible when its
-- transaction commits (`commit`), which other publishers can do in any order. `delivered` is the
-- history of what the generator has yielded, over restarts.
pub mod Rows
pub mod Order
pub mod Once
pub mod Complete
mod Tests
use event_driven_rag_pipelin.Prelude.{
  ℕ, ◌+◌, Text, text_eq, Bool, true, false, ◌&&◌, Option, none, some, List, [], ◌∷◌, ◌++◌, ltb,
  ◌==◌, if◌then◌else◌, keep, take,
}

-- event_log; `payload` is the JSON text
pub record Row : Type 0 where
  pub id : ℕ
  pub topic : Text
  pub payload : Text

-- consumer_offsets
pub record Offset : Type 0 where
  pub group : Text
  pub topic : Text
  pub last_id : ℕ

-- `log` is kept by ascending id; `pending` holds rows of transactions that have not committed.
pub record Tables : Type 0 where
  pub log : List Row
  pub next_id : ℕ
  pub pending : List Row
  pub offsets : List Offset

abbrev pub batch_size : ℕ
batch_size = 100

-- a row at its place by id
pub insert_row : Row → List Row → List Row
insert_row r [] = r ∷ []
insert_row r (x ∷ l) = if ltb r.id x.id then r ∷ x ∷ l else x ∷ insert_row r l

-- INSERT INTO event_log, up to the commit
pub reserve : Text → Text → Tables → Tables
reserve topic payload b = record b {
  next_id = b.next_id + 1;
  pending = record { id = b.next_id; topic = topic; payload = payload } ∷ b.pending;
}

abbrev has_id : ℕ → Row → Bool
has_id i r = r.id == i

abbrev pub without : ℕ → List Row → List Row
without i [] = []
without i (r ∷ l) = if r.id == i then without i l else r ∷ without i l

abbrev pub with_id : ℕ → List Row → Option Row
with_id i [] = none
with_id i (r ∷ l) = if r.id == i then some r else with_id i l

make_visible : Option Row → Tables → Tables
unfolding insert_row
make_visible none b = b
make_visible (some r) b = record b { log = insert_row r b.log; pending = without r.id b.pending }

-- the commit of the transaction that holds the row `i`
pub commit : ℕ → Tables → Tables
unfolding make_visible
commit i b = make_visible (with_id i b.pending) b

-- `publish`, with no other publisher between the id and the commit
pub publish : Text → Text → Tables → Tables
unfolding reserve commit
publish topic payload b = commit b.next_id (reserve topic payload b)

abbrev pub same_key : Text → Text → Offset → Bool
same_key group topic o = text_eq o.group group && text_eq o.topic topic

-- INSERT ... ON CONFLICT DO UPDATE SET last_id = last_id RETURNING last_id
pub ensure_offset : Text → Text → List Offset → ℕ × List Offset
ensure_offset group topic [] = (0, record { group = group; topic = topic; last_id = 0 } ∷ [])
ensure_offset group topic (o ∷ l) =
    let (n, l') = ensure_offset group topic l in
    if same_key group topic o then (o.last_id, o ∷ l) else (n, o ∷ l')

-- UPDATE consumer_offsets SET last_id = n WHERE consumer_group = group AND topic = topic
pub set_offset : ℕ → Text → Text → List Offset → List Offset
set_offset n group topic [] = []
set_offset n group topic (o ∷ l) =
    (if same_key group topic o then record o { last_id = n } else o) ∷ set_offset n group topic l

-- SELECT ... WHERE topic = $1 AND id > $2 ORDER BY id ASC LIMIT $3
pub select_batch : Text → ℕ → ℕ → List Row → List Row
select_batch topic last_id limit log =
    take limit (keep (λ r. text_eq r.topic topic && ltb last_id r.id) log)

-- The locals of one `subscribe` generator, and the history of its yields.
pub record Consumer : Type 0 where
  pub rows : List Row
  pub current : Option Row
  pub delivered : List Row

pub record Bus : Type 0 where
  pub tables : Tables
  pub consumer : Consumer

-- What can happen next.
pub data Action : Type 0 where
  reserving : Text → Text → Action
  committing : ℕ → Action
  publishing : Text → Text → Action
  polling advancing yielding crashing : Action

module _ (group topic : Text) where
  -- the top of the `while True` loop, when the last batch is used up
  poll : List Row → Option Row → Bus → Bus
  unfolding ensure_offset select_batch
  poll [] none s =
      let (n, offsets) = ensure_offset group topic s.tables.offsets in
      record {
        tables = record s.tables { offsets = offsets };
        consumer = record s.consumer { rows = select_batch topic n batch_size s.tables.log };
      }
  poll _ _ s = s

  -- the offset is written before the row is yielded
  advance : List Row → Option Row → Bus → Bus
  unfolding set_offset
  advance (r ∷ rows) none s = record {
    tables = record s.tables { offsets = set_offset r.id group topic s.tables.offsets };
    consumer = record s.consumer { rows = rows; current = some r };
  }
  advance _ _ s = s

  hand_over : Option Row → Bus → Bus
  hand_over none s = s
  hand_over (some r) s = record s {
    consumer = record s.consumer { current = none; delivered = s.consumer.delivered ++ (r ∷ []) };
  }

  -- the process ends and a new generator starts with no locals
  crash : Bus → Bus
  crash s = record s { consumer = record s.consumer { rows = []; current = none } }

  pub step : Action → Bus → Bus
  unfolding poll advance hand_over crash reserve commit publish
  step (reserving t p) s = record s { tables = reserve t p s.tables }
  step (committing i) s = record s { tables = commit i s.tables }
  step (publishing t p) s = record s { tables = publish t p s.tables }
  step polling s = poll s.consumer.rows s.consumer.current s
  step advancing s = advance s.consumer.rows s.consumer.current s
  step yielding s = hand_over s.consumer.current s
  step crashing s = crash s

  pub run : List Action → Bus → Bus
  unfolding step
  run [] s = s
  run (a ∷ l) s = run l (step a s)

-- `setup_tables` on an empty database, and a consumer that has yielded nothing
abbrev pub start : Bus
start = record {
  tables = record { log = []; next_id = 1; pending = []; offsets = [] };
  consumer = record { rows = []; current = none; delivered = [] };
}
