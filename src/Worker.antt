-- ===== src/Worker.antt =====
-- src/event_driven_rag_service/worker/base_worker.py: the broker's channel as the worker sees it,
-- the poll of a queue, and the callback of a single-message worker. What RabbitMQ does with a call
-- is written out: a get takes the oldest message of the queue and gives it the next delivery tag.
pub mod Settle
pub mod Message
pub mod Gpu
use event_driven_rag_pipelin.Prelude.{
  ℕ, zero, suc, ◌+◌, ◌-◌, ◌≡◌, Text, text_eq, Bool, true, false, Option, none, some, List, [], ◌∷◌,
  ◌++◌, if◌then◌else◌, Dict, lookup, insert,
}
use event_driven_rag_pipelin.Prelude.Action.{Exception, Outcome, returned, raised}

-- `acked` and `nacked` list the tags that were settled; a nack without requeue goes to the DLQ.
pub record Channel : Type 0 where
  pub queues : Dict (List Text)
  pub next_tag : ℕ
  pub acked : List ℕ
  pub nacked : List ℕ

pub ack : ℕ → Channel → Channel
ack tag c = record c { acked = tag ∷ c.acked }

pub nack : ℕ → Channel → Channel
nack tag c = record c { nacked = tag ∷ c.nacked }

abbrev waiting : Option (List Text) → List Text
waiting none = []
waiting (some l) = l

abbrev pub queue_of : Text → Channel → List Text
queue_of q c = waiting (lookup q c.queues)

-- the channel after one body left the queue under the next tag
abbrev pub taken : Text → List Text → Channel → Channel
taken q rest c = record c { queues = insert q rest c.queues; next_tag = c.next_tag + 1 }

abbrev cons_result : ℕ × Text → List (ℕ × Text) × Channel → List (ℕ × Text) × Channel
cons_result r (l, c) = (r ∷ l, c)

-- The loop of `_poll_queue` over the bodies that wait: up to `room` results, and a body that is
-- empty is nacked and does not count.
pub poll_bodies : Text → ℕ → List Text → Channel → List (ℕ × Text) × Channel
unfolding ack nack
poll_bodies q zero bodies c = ([], c)
poll_bodies q (suc room) [] c = ([], c)
poll_bodies q (suc room) ([] ∷ rest) c =
    poll_bodies q (suc room) rest (nack c.next_tag (taken q rest c))
poll_bodies q (suc room) ((b ∷ bs) ∷ rest) c =
    cons_result (c.next_tag, b ∷ bs) (poll_bodies q room rest (taken q rest c))

-- `_poll_queue`: (delivery tag, body) pairs
pub poll_queue : Text → ℕ → Channel → List (ℕ × Text) × Channel
unfolding poll_bodies
poll_queue q max_msgs c = poll_bodies q max_msgs (queue_of q c) c

abbrev settle_message : {W : Type 0} → ℕ → Channel → Outcome (Unit {0}) × W → Channel × W
settle_message tag c (returned u, w) = (ack tag c, w)
settle_message tag c (raised e, w) = (nack tag c, w)

-- `_on_message`: `run` is `process(json.loads(body))`, with its effect on the handler's world. The
-- channel's calls do not raise.
pub on_message :
    {W : Type 0} → (Text → W → Outcome (Unit {0}) × W) → ℕ → Text → Channel → W → Channel × W
unfolding ack nack
on_message run tag body c w = settle_message tag c (run body w)
