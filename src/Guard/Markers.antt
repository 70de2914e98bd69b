-- ===== src/Guard/Markers.antt =====
-- What the calls of worker/local_run_guard.py leave of the marker and of the block of a model.
use event_driven_rag_pipelin.Prelude.{
  ℕ, ◌≡◌, ◌≢◌, refl, sym, ap, ◌∙◌, inl, inr, Text, text, text_eq, text_eq_iff, text_eq_ne,
  text_eq_refl, contains, true, false, Option, none, some, List, [], ◌∷◌, ◌++◌, if◌then◌else◌,
  Bool-cases, arith, take, length, length-append, ◌-◌,
}
use event_driven_rag_pipelin.Guard.{
  LocalRunGuard, sanitize, path, running, blocked, without, replace, settle,
}

abbrev last : Text → Option ℕ
last [] = none
last (c ∷ []) = some c
last (c ∷ d ∷ s) = last (d ∷ s)

last-append : (s : Text) (c : ℕ) (t : Text) → last (s ++ (c ∷ t)) ≡ last (c ∷ t)
last-append [] c t = refl
last-append (a ∷ []) c t = refl
last-append (a ∷ b ∷ s) c t = last-append (b ∷ s) c t

abbrev or_zero : Option ℕ → ℕ
or_zero none = 0
or_zero (some n) = n

-- a marker is never the block of a model
pub running-ne-blocked : (m n : Text) → text_eq (running m) (blocked n) ≡ false
unfolding path
running-ne-blocked m n = text_eq_ne _ _ (λ e. apart (
    sym (last-append (sanitize m) 46 (text "running"))
    ∙ ap last e
    ∙ last-append (sanitize n) 46 (text "blocked")))
  where
    apart : last (46 ∷ text "running") ≢ last (46 ∷ text "blocked")
    apart e = let apart_codes : ◌≡◌ {A = ℕ} 103 100 = ap or_zero e in omega arith

pub contains-without :
    (f h : Text) (files : List Text)
    → contains f (without h files) ≡ (if text_eq f h then false else contains f files)
unfolding without
contains-without f h [] = ground arith
contains-without f h (x ∷ files) =
    ground (arith, contains-without f h files, text_eq_iff f h, text_eq_iff x f, text_eq_iff x h)

contains-replace :
    (f old new : Text) (files : List Text)
    → contains f (replace old new files)
      ≡ (if text_eq new f then true else if text_eq f old then false else contains f files)
unfolding replace
contains-replace f old new files = ground (
  arith,
  contains-without f new (without old files),
  contains-without f old files,
  text_eq_iff new f,
  text_eq_iff f new,
)

take_append : (s t : Text) → take (length s) (s ++ t) ≡ s
take_append [] t = refl
take_append (c ∷ s) t = ap (λ l. c ∷ l) (take_append s t)

-- a file name without its suffix
stem : ℕ → Text → Text
stem n f = take (length f - n) f

stem-append : (s t : Text) → stem (length t) (s ++ t) ≡ s
unfolding stem
stem-append s t = ap (λ n. take n (s ++ t)) (omega (arith, length-append s t)) ∙ take_append s t

-- models that share their marker share their block
pub same_block : (m n : Text) → running n ≡ running m → blocked n ≡ blocked m
unfolding path
same_block m n e =
    let stems : sanitize n ≡ sanitize m =
      sym (stem-append (sanitize n) (46 ∷ text "running"))
      ∙ ap (stem 8) e
      ∙ stem-append (sanitize m) (46 ∷ text "running") in
    ap (λ s. s ++ (46 ∷ text "blocked")) stems

module _ (m : Text) where
  -- no model with the marker of `m` is in the list
  abbrev pub Idle : List Text → Type 0
  Idle l = (n : Text) → running n ≡ running m → contains n l ≡ false

  abbrev pub HasBlock : LocalRunGuard → Type 0
  HasBlock g = contains (blocked m) g.files ≡ true

  abbrev pub HasMarker : LocalRunGuard → Type 0
  HasMarker g = contains (running m) g.files ≡ true

  pub Idle-cons : (n : Text) (l : List Text) → Idle l → running n ≢ running m → Idle (n ∷ l)
  Idle-cons n l h d k e = elim (Bool-cases (text_eq n k)) [
    | inl t ↦ absurd (d (ap running ((text_eq_iff n k).0 t) ∙ e))
    | inr f ↦ rw f (h k e)
  ]

  pub settle-active : (n : Text) (g : LocalRunGuard) → (settle n g).active ≡ g.active
  unfolding settle
  settle-active n g = ground arith

  pub settle-HasBlock : (n : Text) (g : LocalRunGuard) → HasBlock g → HasBlock (settle n g)
  unfolding settle
  settle-HasBlock n g h = ground (
    arith,
    contains-replace (blocked m) (running n) (blocked n) g.files,
    running-ne-blocked n m,
    text_eq_iff (running n) (blocked m),
    text_eq_iff (blocked m) (running n),
  )

  -- a check turns the marker of a run of another process into a block
  pub settle_idle :
      (n : Text) (g : LocalRunGuard)
      → running n ≡ running m
      → contains n g.active ≡ false
      → HasMarker g
      → HasBlock (settle n g)
  unfolding settle
  settle_idle n g e i h =
      let t = text_eq_refl (blocked m) in
      rw
        (i, e, h, contains-replace (blocked m) (running m) (blocked n) g.files, same_block m n e, t)
        refl

  pub settle_active :
      (n : Text) (g : LocalRunGuard)
      → contains n g.active ≡ true
      → HasMarker g
      → HasMarker (settle n g)
  unfolding settle
  settle_active n g a h = rw a h

  pub settle_other :
      (n : Text) (g : LocalRunGuard) → running n ≢ running m → HasMarker g → HasMarker (settle n g)
  unfolding settle
  settle_other n g d h = ground (
    arith,
    contains-replace (running m) (running n) (blocked n) g.files,
    text_eq_iff (running m) (running n),
  )
