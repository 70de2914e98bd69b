-- ===== src/Remote/Batches.antt =====
-- The sub-batches of manager.py's `encode`.
use event_driven_rag_pipelin.Prelude.{
  ℕ, zero, suc, ◌-◌, ◌≤◌, ◌≡◌, refl, ap, ◌∙◌, Text, text_eq_refl, some, List, [], ◌∷◌, ◌++◌, map,
  length, length-map, max, All, arith,
}
use mathlib.Core.List.{map-append}
use event_driven_rag_pipelin.Prelude.Action.{returned}
use event_driven_rag_pipelin.Remote.{
  Deps, ModelManager, Settings, ModelSpec, embed, get_spec, split, batches, encode_batches, counted,
  encode,
}

abbrev pub concat : {A : Type 0} → List (List A) → List A
concat [] = []
concat (l ∷ ls) = l ++ concat ls

module _ {A : Type 0} (k : ℕ) where
  split-concat : (room : ℕ) (l : List A) → (split k room l).0 ++ concat (split k room l).1 ≡ l
  split-concat room [] = refl
  split-concat zero (x ∷ l) = ap (λ r. x ∷ r) (split-concat (k - 1) l)
  split-concat (suc room) (x ∷ l) = ap (λ r. x ∷ r) (split-concat room l)

  split_bound :
      (room : ℕ) (l : List A)
      → 1 ≤ k
      → (length (split k room l).0 ≤ room) × All (λ b. length b ≤ k) (split k room l).1
  split_bound room [] h = (omega arith, tt)
  split_bound zero (x ∷ l) h =
      let (now, later) = split_bound (k - 1) l h in (omega arith, (omega (arith, now, h), later))
  split_bound (suc room) (x ∷ l) h =
      let (now, later) = split_bound room l h in (omega (arith, now), later)

  -- The sub-batches put together are the texts in order, and none is longer than the size.
  pub batches_lem :
      (l : List A) → 1 ≤ k → (concat (batches k l) ≡ l) × All (λ b. length b ≤ k) (batches k l)
  unfolding batches
  batches_lem l h = (joined l, (split_bound 0 l h).1)
    where
      joined : (l : List A) → concat (split k 0 l).1 ≡ l
      joined [] = refl
      joined (x ∷ l) = ap (λ r. x ∷ r) (split-concat (k - 1) l)

module _ {M S : Type 0} (d : Deps M S) (m : M) (f : Text → List S) where
  encode_batches-map :
      ((l : List Text) → d.encode m l ≡ returned (map f l))
      → (bs : List (List Text)) → encode_batches d m bs ≡ returned (map f (concat bs))
  unfolding encode_batches
  encode_batches-map h [] = refl
  encode_batches-map h (b ∷ bs) =
      rw (h b, encode_batches-map h bs)
        (ap (λ l. returned l) (rw (map-append f b (concat bs)) refl))

  counted_all : {B : Type 0} {n : ℕ} (l : List B) → length l ≡ n → counted d n l ≡ returned l
  counted_all l h = ground (arith, h)

  -- If the resident model encodes each text by itself, then `encode` returns the vectors of the texts
  -- in the order of the texts, one for each, for every batch size that is configured.
  pub encode_unbatched :
      (settings : Settings) (i : Text) (sp : ModelSpec) (texts : List Text) (now : ℕ)
      (s : ModelManager M)
      → ((l : List Text) → d.encode m l ≡ returned (map f l))
      → get_spec i ≡ some sp
      → sp.kind ≡ embed
      → s.model_id ≡ some i
      → s.model ≡ some m
      → (encode d settings i texts now s).0 ≡ returned (map f texts)
  unfolding encode
  encode_unbatched settings i sp [] now s h g k ei em = rw (g, k) refl
  encode_unbatched settings i sp (t ∷ ts) now s h g k ei em =
      let all : encode_batches d m (batches (max 1 settings.max_batch_size) (t ∷ ts))
          ≡ returned (map f (t ∷ ts)) =
        encode_batches-map h (batches (max 1 settings.max_batch_size) (t ∷ ts))
        ∙ ap (λ l. returned (map f l))
            (batches_lem (max 1 settings.max_batch_size) (t ∷ ts) (omega arith)).0 in
      rw (g, k, ei, text_eq_refl i, em, all) (counted_all (map f (t ∷ ts)) (length-map f (t ∷ ts)))
