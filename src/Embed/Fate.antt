-- ===== src/Embed/Fate.antt =====
-- What embed_handler.py's fetch loop makes of a batch, and the two ways to list its tasks.
use event_driven_rag_pipelin.Prelude.{
  ℕ, ◌≡◌, refl, sym, ap, ◌∙◌, ◌≢◌, Text, text_eq, text_eq_refl, text_eq_ne, Bool, true, false, not,
  Option, none, some, List, [], ◌∷◌, ◌++◌, append_assoc, append-nil, arith, ◌==◌, if◌then◌else◌,
  keep, exists, All, All-mono,
}
use event_driven_rag_pipelin.Tasks.{EmbedKind, EmbedTask, chunk, query}
use event_driven_rag_pipelin.Embed.{
  Deps, Triple, Fetched, skipped, failed, texts, task_eq, texts_eq, option_eq, kind_eq, not_in,
  fetched, add_texts, add_fetched, gather, seen,
}

-- The tasks of a batch are different objects, with different task ids.
abbrev pub IsBatch : List EmbedTask → Type 0
IsBatch [] = Unit
IsBatch (t ∷ ts) =
    All (λ (u : EmbedTask). (t.ident ≢ u.ident) × (t.base.task_id ≢ u.base.task_id)) ts × IsBatch ts

-- The tasks are different objects.
abbrev pub IsDistinct : List EmbedTask → Type 0
IsDistinct [] = Unit
IsDistinct (t ∷ ts) = All (λ (u : EmbedTask). t.ident ≢ u.ident) ts × IsDistinct ts

pub IsBatch-IsDistinct : (l : List EmbedTask) → IsBatch l → IsDistinct l
IsBatch-IsDistinct [] h = tt
IsBatch-IsDistinct (t ∷ l) h = (All-mono _ _ l (λ u p. p.0) h.0, IsBatch-IsDistinct l h.1)

module _ {V : Type 0} (d : Deps V) where
  abbrev pub is_failed : EmbedTask → Bool
  is_failed t = elim (fetched d t) [ skipped ↦ false | failed ↦ true | texts pairs ↦ false ]

  -- at least one text was fetched
  abbrev pub has_texts : EmbedTask → Bool
  has_texts t = elim (fetched d t) [
    | skipped ↦ false
    | failed ↦ false
    | texts pairs ↦ elim pairs [ [] ↦ false | p ∷ ps ↦ true ]
  ]

  gather-failed_step :
      (t : EmbedTask) (f : Fetched) (r : List Triple × List EmbedTask)
      → (add_fetched t f r).1 ≡ (
          if elim f [ skipped ↦ false | failed ↦ true | texts pairs ↦ false ] then t ∷ r.1 else r.1)
  unfolding add_fetched
  gather-failed_step t skipped r = refl
  gather-failed_step t failed r = refl
  gather-failed_step t (texts pairs) r = refl

  pub gather-failed : (tasks : List EmbedTask) → (gather d tasks).1 ≡ keep is_failed tasks
  unfolding gather
  gather-failed [] = refl
  gather-failed (t ∷ tasks) =
      gather-failed_step t (fetched d t) (gather d tasks)
      ∙ ap (λ l. if is_failed t then t ∷ l else l) (gather-failed tasks)

  abbrev pub NotIn : EmbedTask → List EmbedTask → Type 0
  NotIn t l = All (λ (u : EmbedTask). u.ident ≢ t.ident) l

  exists-NotIn :
      (t : EmbedTask) (l : List EmbedTask) → NotIn t l → exists (λ x. x.ident == t.ident) l ≡ false
  exists-NotIn t [] h = refl
  exists-NotIn t (u ∷ l) h = ground (arith, exists-NotIn t l h.1)

  exists_last :
      (t : EmbedTask) (l : List EmbedTask) → exists (λ x. x.ident == t.ident) (l ++ (t ∷ [])) ≡ true
  exists_last t [] = ground arith
  exists_last t (u ∷ l) = ground (arith, exists_last t l)

  NotIn-snoc :
      (t u : EmbedTask) (l : List EmbedTask)
      → NotIn t l
      → u.ident ≢ t.ident
      → NotIn t (l ++ (u ∷ []))
  NotIn-snoc t u [] h e = (e, tt)
  NotIn-snoc t u (x ∷ l) h e = (h.0, NotIn-snoc t u l h.1 e)

  -- the further texts of a task that is already listed
  seen_again :
      (t : EmbedTask) (pairs : List (Text × Text)) (rest : List Triple) (acc : List EmbedTask)
      → exists (λ x. x.ident == t.ident) acc ≡ true
      → seen (add_texts t pairs rest) acc ≡ seen rest acc
  unfolding seen
  seen_again t [] rest acc h = refl
  seen_again t ((c, s) ∷ pairs) rest acc h = rw (h, seen) (seen_again t pairs rest acc h)

  seen-add_fetched :
      (t : EmbedTask) (f : Fetched) (r : List Triple × List EmbedTask) (acc : List EmbedTask)
      → NotIn t acc
      → seen (add_fetched t f r).0 acc
        ≡ seen r.0 (
            if elim f [
              | skipped ↦ false
              | failed ↦ false
              | texts pairs ↦ elim pairs [ [] ↦ false | p ∷ ps ↦ true ]
            ]
            then acc ++ (t ∷ [])
            else acc)
  unfolding seen add_fetched
  seen-add_fetched t skipped r acc h = refl
  seen-add_fetched t failed r acc h = refl
  seen-add_fetched t (texts []) r acc h = refl
  seen-add_fetched t (texts ((c, s) ∷ pairs)) r acc h =
      rw (exists-NotIn t acc h, seen) (seen_again t pairs r.0 (acc ++ (t ∷ [])) (exists_last t acc))

  abbrev Apart : List EmbedTask → List EmbedTask → Type 0
  Apart acc tasks = All (λ t. NotIn t acc) tasks

  Apart-snoc :
      (acc : List EmbedTask) (t : EmbedTask) (tasks : List EmbedTask)
      → Apart acc tasks
      → All (λ (u : EmbedTask). t.ident ≢ u.ident) tasks
      → Apart (acc ++ (t ∷ [])) tasks
  Apart-snoc acc t [] h b = tt
  Apart-snoc acc t (u ∷ tasks) h b = (NotIn-snoc u t acc h.0 b.0, Apart-snoc acc t tasks h.1 b.1)

  Apart-if :
      (b : Bool) (acc : List EmbedTask) (t : EmbedTask) (tasks : List EmbedTask)
      → Apart acc tasks
      → All (λ (u : EmbedTask). t.ident ≢ u.ident) tasks
      → Apart (if b then acc ++ (t ∷ []) else acc) tasks
  Apart-if true acc t tasks h b = Apart-snoc acc t tasks h b
  Apart-if false acc t tasks h b = h

  kept_if :
      (b : Bool) (acc rest : List EmbedTask) (t : EmbedTask)
      → (if b then acc ++ (t ∷ []) else acc) ++ rest ≡ acc ++ (if b then t ∷ rest else rest)
  kept_if true acc rest t = append_assoc acc (t ∷ []) rest
  kept_if false acc rest t = refl

  seen-gather :
      (tasks : List EmbedTask) (acc : List EmbedTask)
      → IsDistinct tasks
      → Apart acc tasks
      → seen (gather d tasks).0 acc ≡ acc ++ keep has_texts tasks
  unfolding gather
  seen-gather [] acc b h = unfold seen in sym (append-nil acc)
  seen-gather (t ∷ tasks) acc b h =
      seen-add_fetched t (fetched d t) (gather d tasks) acc h.0
      ∙ seen-gather tasks (if has_texts t then acc ++ (t ∷ []) else acc) b.1
          (Apart-if (has_texts t) acc t tasks h.1 b.0)
      ∙ kept_if (has_texts t) acc (keep has_texts tasks) t

  Apart-nil : (tasks : List EmbedTask) → Apart [] tasks
  Apart-nil [] = tt
  Apart-nil (t ∷ tasks) = (tt, Apart-nil tasks)

  -- The tasks that the handler reports as done are those with a fetched text, in batch order.
  pub seen-eq-keep :
      (tasks : List EmbedTask)
      → IsDistinct tasks
      → seen (gather d tasks).0 [] ≡ keep has_texts tasks
  seen-eq-keep tasks b = seen-gather tasks [] b (Apart-nil tasks)

-- `task_eq` at tasks with different ids, and at one task
task_eq_ne : (t u : EmbedTask) → t.base.task_id ≢ u.base.task_id → task_eq t u ≡ false
unfolding task_eq
task_eq_ne t u h = rw (text_eq_ne t.base.task_id u.base.task_id h)

option_eq_refl {ℓ} :
    {A : Type ℓ} (eq : A → A → Bool)
    → ((a : A) → eq a a ≡ true)
    → (o : Option A) → option_eq eq o o ≡ true
option_eq_refl eq h none = refl
option_eq_refl eq h (some a) = h a

texts_eq_refl : (l : List Text) → texts_eq l l ≡ true
texts_eq_refl [] = refl
texts_eq_refl (s ∷ l) = rw (text_eq_refl s) (texts_eq_refl l)

kind_eq_refl : (k : EmbedKind) → kind_eq k k ≡ true
kind_eq_refl chunk = refl
kind_eq_refl query = refl

nat_eq_refl : (n : ℕ) → (n == n) ≡ true
nat_eq_refl n = ground arith

task_eq_refl : (t : EmbedTask) → task_eq t t ≡ true
unfolding task_eq
task_eq_refl t = simp (
  text_eq_refl,
  kind_eq_refl,
  texts_eq_refl,
  option_eq_refl text_eq text_eq_refl,
  option_eq_refl (λ (m : ℕ) (n : ℕ). m == n) nat_eq_refl,
)

module _ (p : EmbedTask → Bool) where
  exists_other :
      (t : EmbedTask) (l : List EmbedTask)
      → All (λ (u : EmbedTask). t.base.task_id ≢ u.base.task_id) l
      → exists (λ f. task_eq t f) (keep p l) ≡ false
  exists_other t [] h = refl
  exists_other t (u ∷ l) h = ground (arith, task_eq_ne t u h.0, exists_other t l h.1)

  abbrev NewTo : EmbedTask → List EmbedTask → Type 0
  NewTo t l = All (λ (u : EmbedTask). t.base.task_id ≢ u.base.task_id) l

  exists_in :
      (front : List EmbedTask) (t : EmbedTask) (l : List EmbedTask)
      → NewTo t front
      → NewTo t l
      → exists (λ f. task_eq t f) (keep p (front ++ (t ∷ l))) ≡ p t
  exists_in [] t l h k = ground (arith, task_eq_refl t, exists_other t l k)
  exists_in (u ∷ front) t l h k = ground (arith, task_eq_ne t u h.0, exists_in front t l h.1 k)

  NewTo-snoc :
      (front : List EmbedTask) (t u : EmbedTask)
      → NewTo u front
      → u.base.task_id ≢ t.base.task_id
      → NewTo u (front ++ (t ∷ []))
  NewTo-snoc [] t u h e = (e, tt)
  NewTo-snoc (x ∷ front) t u h e = (h.0, NewTo-snoc front t u h.1 e)

  AllNew-snoc :
      (front : List EmbedTask) (t : EmbedTask) (l : List EmbedTask)
      → All (λ u. NewTo u front) l
      → All (λ (u : EmbedTask). (t.ident ≢ u.ident) × (t.base.task_id ≢ u.base.task_id)) l
      → All (λ u. NewTo u (front ++ (t ∷ []))) l
  AllNew-snoc front t [] h k = tt
  AllNew-snoc front t (u ∷ l) h k =
      (NewTo-snoc front t u h.0 (λ e. k.0.1 (sym e)), AllNew-snoc front t l h.1 k.1)

  not_in_from :
      (front l : List EmbedTask)
      → IsBatch l
      → All (λ u. NewTo u front) l
      → keep (λ t. not (exists (λ f. task_eq t f) (keep p (front ++ l)))) l
        ≡ keep (λ t. not (p t)) l
  not_in_from front [] b h = refl
  not_in_from front (t ∷ l) b h = rw (exists_in front t l h.0 (All-mono _ _ l (λ u k. k.1) b.0)) (
      ap (λ r. if not (p t) then t ∷ r else r)
        (ap (λ whole. keep (λ u. not (exists (λ f. task_eq u f) (keep p whole))) l)
            (sym (append_assoc front (t ∷ []) l))
          ∙ not_in_from (front ++ (t ∷ [])) l b.1 (AllNew-snoc front t l h.1 b.0)))

  NewTo-nil : (l : List EmbedTask) → All (λ u. NewTo u []) l
  NewTo-nil [] = tt
  NewTo-nil (t ∷ l) = (tt, NewTo-nil l)

  -- Leaving out by `==` the tasks that pass a test is leaving them out by the test.
  pub not_in-keep : (l : List EmbedTask) → IsBatch l → not_in (keep p l) l ≡ keep (λ t. not (p t)) l
  unfolding not_in
  not_in-keep l b = not_in_from [] l b (NewTo-nil l)

  -- a task that stands in a list by `==` is found there
  pub exists_self :
      (front : List EmbedTask) (t : EmbedTask) (l : List EmbedTask)
      → p t ≡ true
      → exists (λ f. task_eq t f) (keep p (front ++ (t ∷ l))) ≡ true
  exists_self [] t l h = ground (arith, task_eq_refl t)
  exists_self (u ∷ front) t l h = ground (arith, exists_self front t l h)
