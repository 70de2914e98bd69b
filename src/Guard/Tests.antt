-- ===== src/Guard/Tests.antt =====
-- A run of the guard: one model is killed while another runs to its end.
use event_driven_rag_pipelin.Prelude.{◌≡◌, ◌≢◌, refl, ap, Text, text, text_eq, [], ◌∷◌, arith, ℕ}
use event_driven_rag_pipelin.Prelude.Action.{raised, embedding_unavailable}
use event_driven_rag_pipelin.Guard.{
  check, start, path, sanitize, running, Process, passes, done, next, restart,
}
use event_driven_rag_pipelin.Guard.Killed.{killed_blocked}

abbrev large : Text
large = text "a/b"

abbrev small : Text
small = text "c"

abbrev describe : Text → Text
describe m = m

abbrev fresh : Process
fresh = record { guard = record { files = []; active = [] }; cleared = large ∷ [] }

abbrev started : Process
started = record fresh { guard = start large fresh.guard }

markers_differ : running small ≢ running large
unfolding path sanitize
markers_differ e = apart (ap head_code e)
  where
    head_code : Text → ℕ
    head_code [] = 0
    head_code (c ∷ s) = c

    apart : ◌≢◌ {A = ℕ} 99 97
    apart e = omega (arith, e)

large_stays_blocked :
    (check describe large
      (restart (record {
        guard = (check describe small started.guard).1;
        cleared = small ∷ large ∷ [];
      })).guard).0
    ≡ raised (embedding_unavailable large)
unfolding check start path text_eq sanitize
large_stays_blocked =
    killed_blocked describe large fresh (next (passes small started refl) (done _)) (done _)
