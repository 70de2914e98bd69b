-- ===== src/Worker/Settle.antt =====
-- Delivery tags of base_worker.py: fresh when handed out, settled at most once.
use event_driven_rag_pipelin.Prelude.{
  ℕ, zero, suc, ◌+◌, ◌≤◌, ◌≡◌, Text, List, [], ◌∷◌, ◌++◌, map, arith, count, count-append, length,
}
use event_driven_rag_pipelin.Worker.{Channel, ack, nack, taken, poll_bodies, poll_queue, queue_of}

-- how often a tag was settled
abbrev pub settled : ℕ → Channel → ℕ
settled a c = count a c.acked + count a c.nacked

abbrev pub tags : {B : Type 0} → List (ℕ × B) → List ℕ
tags l = map (λ r. r.0) l

-- Tags that were handed out, each once, and are not settled.
pub record IsOpen (c : Channel) (l : List ℕ) : Type 0 where
  pub open_once : (a : ℕ) → count a l + settled a c ≤ 1
  pub handed_out : (a : ℕ) → c.next_tag ≤ a → count a l + settled a c ≡ 0

pub IsOpen-counts :
    {c : Channel} (l l' : List ℕ) → ((a : ℕ) → count a l' ≤ count a l) → IsOpen c l → IsOpen c l'
IsOpen-counts l l' e h = record {
  open_once = λ a. omega (arith, e a, h.open_once a);
  handed_out = λ a b. omega (arith, e a, h.handed_out a b);
}

-- a tag that is held is settled, and is held no more
pub ack-IsOpen :
    (tag : ℕ) (c : Channel) (held : List ℕ) → IsOpen c (tag ∷ held) → IsOpen (ack tag c) held
unfolding ack
ack-IsOpen tag c held h = record {
  open_once = λ a. ground (arith, h.open_once a);
  handed_out = λ a b. ground (arith, h.handed_out a b);
}

pub nack-IsOpen :
    (tag : ℕ) (c : Channel) (held : List ℕ) → IsOpen c (tag ∷ held) → IsOpen (nack tag c) held
unfolding nack
nack-IsOpen tag c held h = record {
  open_once = λ a. ground (arith, h.open_once a);
  handed_out = λ a b. ground (arith, h.handed_out a b);
}

taken-IsOpen :
    (q : Text) (rest : List Text) (c : Channel) (held : List ℕ)
    → IsOpen c held
    → IsOpen (taken q rest c) (c.next_tag ∷ held)
taken-IsOpen q rest c held h = record {
  open_once = λ a. ground (arith, h.open_once a, h.handed_out a);
  handed_out = λ a b. ground (arith, h.handed_out a);
}

-- A poll hands out fresh tags, and each of them is returned or settled by the poll itself.
pub poll_bodies-IsOpen :
    (q : Text) (room : ℕ) (bodies : List Text) (c : Channel) (held : List ℕ)
    → IsOpen c held
    → IsOpen (poll_bodies q room bodies c).1 (tags (poll_bodies q room bodies c).0 ++ held)
unfolding poll_bodies
poll_bodies-IsOpen q zero bodies c held h = h
poll_bodies-IsOpen q (suc room) [] c held h = h
poll_bodies-IsOpen q (suc room) ([] ∷ rest) c held h =
    poll_bodies-IsOpen q (suc room) rest (nack c.next_tag (taken q rest c)) held
      (nack-IsOpen c.next_tag (taken q rest c) held (taken-IsOpen q rest c held h))
poll_bodies-IsOpen q (suc room) ((b ∷ bs) ∷ rest) c held h =
    IsOpen-counts (tags (poll_bodies q room rest (taken q rest c)).0 ++ (c.next_tag ∷ held)) _
      (λ a. moved a (tags (poll_bodies q room rest (taken q rest c)).0))
      (poll_bodies-IsOpen q room rest (taken q rest c) (c.next_tag ∷ held)
        (taken-IsOpen q rest c held h))
  where
    moved :
        (a : ℕ) (l : List ℕ)
        → count a (c.next_tag ∷ (l ++ held)) ≤ count a (l ++ (c.next_tag ∷ held))
    moved a l = ground (arith, count-append a l held, count-append a l (c.next_tag ∷ held))

pub poll_queue-IsOpen :
    (q : Text) (max_msgs : ℕ) (c : Channel) (held : List ℕ)
    → IsOpen c held
    → IsOpen (poll_queue q max_msgs c).1 (tags (poll_queue q max_msgs c).0 ++ held)
unfolding poll_queue
poll_queue-IsOpen q max_msgs c held h = poll_bodies-IsOpen q max_msgs (queue_of q c) c held h

-- A poll returns at most as many messages as it was asked for.
pub poll_bodies_bound :
    (q : Text) (room : ℕ) (bodies : List Text) (c : Channel)
    → length (poll_bodies q room bodies c).0 ≤ room
unfolding poll_bodies
poll_bodies_bound q zero bodies c = omega arith
poll_bodies_bound q (suc room) [] c = omega arith
poll_bodies_bound q (suc room) ([] ∷ rest) c =
    poll_bodies_bound q (suc room) rest (nack c.next_tag (taken q rest c))
poll_bodies_bound q (suc room) ((b ∷ bs) ∷ rest) c =
    omega (arith, poll_bodies_bound q room rest (taken q rest c))
