-- ===== src/EventBus/Tests.antt =====
-- Runs of the bus of event_bus.py, and the theorems at concrete histories.
use event_driven_rag_pipelin.Prelude.{
  ℕ, ◌≡◌, refl, Text, text, text_eq, true, List, [], ◌∷◌, ◌++◌, arith, All,
}
use event_driven_rag_pipelin.EventBus.{
  Row, Action, reserving, committing, publishing, polling, advancing, yielding, crashing, run,
  start,
}
use event_driven_rag_pipelin.EventBus.Rows.{IsAscending, Lacks, offset_of}
use event_driven_rag_pipelin.EventBus.Once.{IsMissed, at_most_once, passed_never_delivered}
use event_driven_rag_pipelin.EventBus.Complete.{
  pending_yield, unread, of_topic, nothing_lost, next_delivered,
}

abbrev group : Text
group = text "g"

abbrev topic : Text
topic = text "t"

abbrev two : List Action
two = publishing topic (text "a") ∷ publishing topic (text "b") ∷ []

abbrev deliver : List Action
deliver = polling ∷ advancing ∷ yielding ∷ []

-- The row 1 is reserved first and commits after the row 2 has been yielded.
abbrev late : List Action
late = reserving topic (text "a") ∷ publishing topic (text "b") ∷ deliver

abbrev row : ℕ → Text → Row
row i p = record { id = i; topic = topic; payload = p }

two_delivered :
    (run group topic (two ++ (deliver ++ (advancing ∷ yielding ∷ []))) start).consumer.delivered
    ≡ row 1 (text "a") ∷ row 2 (text "b") ∷ []
unfolding run text_eq
two_delivered = refl

late-IsMissed : IsMissed group topic 1 (run group topic late start)
unfolding run text_eq
late-IsMissed = record { passed = omega arith; not_current = tt; not_delivered = (omega arith, tt) }

passed_never_delivered_example :
    Lacks 1
      (run group topic (committing 1 ∷ deliver) (run group topic late start)).consumer.delivered
passed_never_delivered_example =
    passed_never_delivered group topic 1 late (committing 1 ∷ deliver) late-IsMissed

at_most_once_example :
    let s = run group topic (two ++ (deliver ++ (crashing ∷ deliver))) start in
    IsAscending s.consumer.delivered × All (λ r. text_eq r.topic topic ≡ true) s.consumer.delivered
at_most_once_example = at_most_once group topic (two ++ (deliver ++ (crashing ∷ deliver)))

nothing_lost_example :
    let s = run group topic (two ++ deliver) start in
    s.consumer.delivered
      ++ (pending_yield s.consumer.current
          ++ unread topic (offset_of group topic s.tables.offsets) s.tables.log)
    ≡ of_topic topic s.tables.log
nothing_lost_example = nothing_lost group topic (two ++ deliver) (tt, (tt, (tt, (tt, (tt, tt)))))

next_delivered_example :
    let s = run group topic two start in
    let s' = run group topic deliver s in
    (s'.consumer.delivered ≡ s.consumer.delivered ++ (row 1 (text "a") ∷ []))
    × (offset_of group topic s'.tables.offsets ≡ 1)
unfolding run text_eq
next_delivered_example =
    next_delivered group topic (run group topic two start) {r = row 1 (text "a")}
      {rest = row 2 (text "b") ∷ []} refl refl refl
