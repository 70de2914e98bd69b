-- ===== src/Guard.antt =====
-- src/event_driven_rag_service/worker/local_run_guard.py: the markers of local runs. `files` is the
-- directory, which survives a restart of the process; `active` is the process's own set. The content
-- of a marker is never read and is left out; the message of the exception is a parameter.
pub mod Markers
pub mod Killed
mod Tests
use event_driven_rag_pipelin.Prelude.{
  ℕ, ◌≡◌, ◌&&◌, ◌||◌, ◌==◌, Text, text, text_eq, contains, Bool, true, false, not, List, [], ◌∷◌,
  ◌++◌, map, keep, leb, if◌then◌else◌,
}
use event_driven_rag_pipelin.Prelude.Action.{
  Outcome, returned, raised, Action, embedding_unavailable, Exception, pure, raise, modify, rescue,
  ◌>>=◌, ◌>>◌,
}

pub record LocalRunGuard : Type 0 where
  pub files : List Text
  pub active : List Text

-- `[A-Za-z0-9._-]`
abbrev is_path_char : ℕ → Bool
is_path_char c =
    (leb 65 c && leb c 90)
    || ((leb 97 c && leb c 122)
        || ((leb 48 c && leb c 57) || ((c == 46) || ((c == 95) || (c == 45)))))

pub sanitize : Text → Text
sanitize model = map (λ c. if is_path_char c then c else 95) model

-- `_path`
unfoldable pub path : Text → Text → Text
path model suffix = sanitize model ++ (46 ∷ suffix)

abbrev pub running : Text → Text
running model = path model (text "running")

abbrev pub blocked : Text → Text
blocked model = path model (text "blocked")

unfoldable pub without : Text → List Text → List Text
without f files = keep (λ g. not (text_eq g f)) files

-- `old.replace(new)`
unfoldable pub replace : Text → Text → List Text → List Text
unfolding without
replace old new files = new ∷ without new (without old files)

-- the marker becomes a block if its run is not one of this process
unfoldable pub settle : Text → LocalRunGuard → LocalRunGuard
unfolding replace
settle model g =
    if not (contains model g.active) && contains (running model) g.files
    then record g { files = replace (running model) (blocked model) g.files }
    else g

-- between the check and the body of `run`
unfoldable pub start : Text → LocalRunGuard → LocalRunGuard
unfolding without
start model g = record {
  files = running model ∷ without (running model) g.files;
  active = if contains model g.active then g.active else model ∷ g.active;
}

-- the `finally` block of `run`
unfoldable pub finish : Text → LocalRunGuard → LocalRunGuard
unfolding without
finish model g = record { files = without (running model) g.files; active = without model g.active }

module _ (describe : Text → Text) where
  abbrev pub refuse_if : Bool → Text → Outcome (Unit {0})
  refuse_if true model = raised (embedding_unavailable (describe model))
  refuse_if false model = returned tt

  unfoldable pub check : Text → Action LocalRunGuard (Unit {0})
  unfolding settle
  check model g =
      (refuse_if (contains (blocked model) (settle model g).files) model, settle model g)

  -- `with guard.run(model): body`, where the body does not use the guard
  abbrev ended :
      {A : Type 0}
      → Text
      → Outcome (Unit {0})
      → Outcome A
      → LocalRunGuard
      → Outcome A × LocalRunGuard
  ended model (returned u) result g = (result, finish model (start model g))
  ended model (raised e) result g = (raised e, g)

  unfoldable pub run : {A : Type 0} → Text → Outcome A → Action LocalRunGuard A
  unfolding check start finish
  run model result g = ended model (check model g).0 result (check model g).1

-- What the threads of the processes that share the directory do, one process after the other. `cleared`
-- are the models whose check passed and whose run has not started. `MayFinish` says whose runs finish.
pub record Process : Type 0 where
  pub guard : LocalRunGuard
  pub cleared : List Text

-- the process is killed and a new one starts
abbrev pub restart : Process → Process
restart p = record { guard = record { files = p.guard.files; active = [] }; cleared = [] }

module _ (describe : Text → Text) (MayFinish : Text → Type 0) where
  pub data Step : Process → Process → Type 0 where
    passes :
        (m : Text) (p : Process)
        → (check describe m p.guard).0 ≡ returned tt
        → Step p (record { guard = (check describe m p.guard).1; cleared = m ∷ p.cleared })
    refused :
        (m : Text) (p : Process) (e : Exception)
        → (check describe m p.guard).0 ≡ raised e
        → Step p (record p { guard = (check describe m p.guard).1 })
    starts :
        (m : Text) (p : Process)
        → contains m p.cleared ≡ true
        → Step p (record p { guard = start m p.guard })
    finishes :
        (m : Text) (p : Process)
        → contains m p.guard.active ≡ true
        → MayFinish m
        → Step p (record p { guard = finish m p.guard })

  pub data Steps : Process → Process → Type 0 where
    done : (p : Process) → Steps p p
    next : {p q r : Process} → Step p q → Steps q r → Steps p r
    restarts : {p q : Process} → Steps (restart p) q → Steps p q
