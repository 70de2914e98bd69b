-- ===== src/Worker/Message.antt =====
-- The callback of base_worker.py: how a single-message worker settles its message.
use event_driven_rag_pipelin.Prelude.{ℕ, ◌≡◌, refl, Text, List, ◌∷◌}
use event_driven_rag_pipelin.Prelude.Action.{Outcome, returned, raised}
use event_driven_rag_pipelin.Worker.{Channel, ack, nack, settle_message, on_message}
use event_driven_rag_pipelin.Worker.Settle.{IsOpen, ack-IsOpen, nack-IsOpen}

-- how the message of a callback was settled
abbrev pub Verdict : Outcome (Unit {0}) → ℕ → Channel → Channel → Type 0
Verdict (returned u) tag c c' = (c'.acked ≡ tag ∷ c.acked) × (c'.nacked ≡ c.nacked)
Verdict (raised e) tag c c' = (c'.acked ≡ c.acked) × (c'.nacked ≡ tag ∷ c.nacked)

settle_message-settles :
    {W : Type 0} (r : Outcome (Unit {0}) × W) (tag : ℕ) (c : Channel) (held : List ℕ)
    → IsOpen c (tag ∷ held)
    → IsOpen (settle_message tag c r).0 held
      × ((settle_message tag c r).1 ≡ r.1)
      × Verdict r.0 tag c (settle_message tag c r).0
unfolding ack nack
settle_message-settles (returned u, w) tag c held h = (ack-IsOpen tag c held h, refl, (refl, refl))
settle_message-settles (raised e, w) tag c held h = (nack-IsOpen tag c held h, refl, (refl, refl))

-- The callback settles an open tag exactly once, with an ack when `process` returns and a nack when
-- it raises, so that no other tag is settled and no tag twice; what `process` did to the world stays.
pub on_message-settles :
    {W : Type 0} (run : Text → W → Outcome (Unit {0}) × W) (tag : ℕ) (body : Text) (c : Channel)
    (w : W) (held : List ℕ)
    → IsOpen c (tag ∷ held)
    → IsOpen (on_message run tag body c w).0 held
      × ((on_message run tag body c w).1 ≡ (run body w).1)
      × Verdict (run body w).0 tag c (on_message run tag body c w).0
unfolding on_message
on_message-settles run tag body c w held h = settle_message-settles (run body w) tag c held h
