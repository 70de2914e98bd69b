-- ===== src/Ladder/Legs.antt =====
-- Which leg answers in remote_embedding.py and reranking.py.
use event_driven_rag_pipelin.Prelude.{
  ◌≡◌, refl, sym, ap, ◌∙◌, subst, ◌⊎◌, inl, inr, text, text_eq, Bool, true, false, Option, none,
  some, List, if◌then◌else◌, Bool-cases,
}
use event_driven_rag_pipelin.Prelude.Action.{
  Exception, Outcome, returned, raised, Action, pure, attempt, rescue, continue, ◌>>=◌,
  >>=-returned,
}
use event_driven_rag_pipelin.Ladder.{
  Endpoint, RemoteModel, ModelEntry, listed, is_listed, truthy, is_endpoint_healthy, model_entry,
  is_model_available, ensure_model_loaded, load_unless, when, prefer_remote,
}

-- a check that never raises
abbrev IsTotal : {W : Type 0} → Action W Bool → Type 0
IsTotal {W} c = (w : W) → (b : Bool) × ((c w).0 ≡ returned b)

if-IsTotal :
    {W : Type 0} (b : Bool) (c d : Action W Bool)
    → IsTotal c
    → IsTotal d
    → IsTotal (if b then c else d)
if-IsTotal true c d hc hd = hc
if-IsTotal false c d hc hd = hd

module _ {W A : Type 0} (e : Endpoint W A) (m : RemoteModel) (local : Action W A) where
  -- How a run ended: with an answer of the remote batch, or as the local leg ends from some world.
  abbrev pub Legs : Outcome A × W → Type 0
  Legs r =
      ((w : W) × (a : A) × (e.ask m.name w ≡ (returned a, r.1)) × (r.0 ≡ returned a))
      ⊎ ((w : W) × (r ≡ local w))

  attempt-IsTotal :
      {B : Type 0} (c : Action W B) (f : B → Bool) (w : W)
      → (b : Bool) × ((attempt (c >>= λ x. pure (f x)) (λ x. pure false) w).0 ≡ returned b)
  attempt-IsTotal {B} c f w = of_outcome (c w).0 (c w).1
    where
      of_outcome :
          (r : Outcome B) (w' : W)
          → (b : Bool) × ((rescue
                (continue {W = W} r (λ x. pure (f x)) w').0
                (λ x. pure false)
                (continue {W = W} r (λ x. pure (f x)) w').1).0
              ≡ returned b)
      of_outcome (returned x) w' = (f x, refl)
      of_outcome (raised x) w' = (false, refl)

  model_entry-returns : (w : W) → (o : Option ModelEntry) × ((model_entry e m w).0 ≡ returned o)
  unfolding model_entry
  model_entry-returns w = by_client m.has_load_client
    where
      of_outcome :
          (r : Outcome (List ModelEntry)) (w' : W)
          → (o : Option ModelEntry) × ((rescue
                (continue {W = W} r (λ x. pure (listed m.name x)) w').0
                (λ x. pure none)
                (continue {W = W} r (λ x. pure (listed m.name x)) w').1).0
              ≡ returned o)
      of_outcome (returned x) w' = (listed m.name x, refl)
      of_outcome (raised x) w' = (none, refl)

      by_client :
          (b : Bool)
          → (o : Option ModelEntry) × (((if◌then◌else◌ {A = Action W (Option ModelEntry)} b
                  (attempt (e.models >>= λ entries. pure (listed m.name entries)) (λ x. pure none))
                  (pure none))
                w).0
              ≡ returned o)
      by_client true = of_outcome (e.models w).0 (e.models w).1
      by_client false = (none, refl)

  is_endpoint_healthy-IsTotal : IsTotal (is_endpoint_healthy e m)
  unfolding is_endpoint_healthy
  is_endpoint_healthy-IsTotal w = attempt-IsTotal e.health (λ u. true) w

  is_model_available-IsTotal : IsTotal (is_model_available e m)
  unfolding is_model_available model_entry
  is_model_available-IsTotal = if-IsTotal m.has_load_client _ _ with_entry (λ w. (true, refl))
    where
      with_entry : IsTotal (model_entry e m >>= λ o. pure (is_listed o))
      with_entry w =
          let (o, h) = model_entry-returns w in
          (
            is_listed o,
            ap (λ r. r.0) (>>=-returned (model_entry e m) (λ o. pure (is_listed o)) w h),
          )

  load_unless-IsTotal : (o : Option ModelEntry) → IsTotal (load_unless e m o)
  load_unless-IsTotal none w = (false, refl)
  load_unless-IsTotal (some x) w = elim (Bool-cases (text_eq x.state (text "loaded"))) [
    | inl c ↦ rw c (true, refl)
    | inr c ↦ rw c (attempt-IsTotal (e.load m.name (truthy m.quantization)) (λ u. true) w)
  ]

  ensure_model_loaded-IsTotal : IsTotal (ensure_model_loaded e m)
  unfolding ensure_model_loaded model_entry
  ensure_model_loaded-IsTotal = if-IsTotal m.has_load_client _ _ with_entry (λ w. (true, refl))
    where
      with_entry : IsTotal (model_entry e m >>= load_unless e m)
      with_entry w =
          let (o, h) = model_entry-returns w in
          let (b, k) = load_unless-IsTotal o (model_entry e m w).1 in
          (b, ap (λ r. r.0) (>>=-returned (model_entry e m) (load_unless e m) w h) ∙ k)

  asked-Legs : (w : W) → Legs (attempt (e.ask m.name) (λ x. local) w)
  asked-Legs w = of_outcome (e.ask m.name w) refl
    where
      of_outcome : (r : Outcome A × W) → e.ask m.name w ≡ r → Legs (rescue r.0 (λ x. local) r.1)
      of_outcome (returned a, w') h = inl (w, a, h, refl)
      of_outcome (raised x, w') h = inr (w', refl)

  -- a step of the ladder: below it is the local leg
  checked-Legs :
      (c : Action W Bool) (next : Action W A)
      → IsTotal c
      → ((w : W) → Legs (next w))
      → (w : W) → Legs ((c >>= λ b. when e m b next local) w)
  checked-Legs c next t h w =
      let (b, k) = t w in
      subst Legs (sym (>>=-returned c (λ b. when e m b next local) w k)) (by_check b)
    where
      by_check : (b : Bool) → Legs (when e m b next local (c w).1)
      by_check true = h (c w).1
      by_check false = inr ((c w).1, refl)

  -- Whatever the endpoint does, the ladder ends with an answer that the remote batch returned, or
  -- exactly as the local leg ends: no exception of the remote leg and of its checks leaves it.
  pub prefer_remote-Legs : (w : W) → Legs (prefer_remote e m local w)
  unfolding prefer_remote
  prefer_remote-Legs = checked-Legs (is_endpoint_healthy e m) _ is_endpoint_healthy-IsTotal (
      checked-Legs (is_model_available e m) _ is_model_available-IsTotal
        (checked-Legs (ensure_model_loaded e m) _ ensure_model_loaded-IsTotal asked-Legs))

  -- an endpoint whose health request raises is passed over
  pub prefer_remote_down :
      (w : W) (x : Exception)
      → (e.health w).0 ≡ raised x
      → prefer_remote e m local w ≡ local (e.health w).1
  unfolding prefer_remote is_endpoint_healthy
  prefer_remote_down w x h = rw (h) refl
