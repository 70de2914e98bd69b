-- ===== src/Remote/Residency.antt =====
-- Which model manager.py holds after any requests.
use event_driven_rag_pipelin.Prelude.{
  ℕ, ◌-◌, ◌≡◌, refl, Text, text_eq, Bool, true, false, ◌&&◌, Option, none, some, List, [], ◌∷◌, leb,
  Bool-cases, inl, inr, ◌==◌, length, max,
}
use event_driven_rag_pipelin.Prelude.Action.{
  Outcome, returned, raised, Action, continue, pure, lift, modify, ◌>>=◌,
}
use event_driven_rag_pipelin.Remote.{
  Deps, ModelManager, Settings, ModelSpec, Kind, embed, rerank, get_spec, is_resident, is_some,
  same_flag, resolve_quantization, release, release_if, touch, evict, unload, unload_held,
  reap_once, reap_held, verified, installed, load_spec, load_found, load, ensure, held,
  encode_resident, encode_found, encode, score_resident, rerank_found, counted, batches,
  encode_batches, rerank_documents, Request, loading, unloading, encoding, reranking, reaping,
  serve, serve_all,
}

module _ {M S : Type 0} (d : Deps M S) where
  -- Nothing is held, or a model that the loader returned for the spec of its id at the recorded
  -- precision, and that passed the check of its dimension.
  abbrev pub Holds : Option M → Option Text → Bool → Type 0
  Holds none none q = Unit
  Holds (some m) (some i) q =
      (base : ModelSpec) × (get_spec i ≡ some base)
      × (d.loader (record base { quantize = q }) ≡ returned m)
      × (verified d (record base { quantize = q }) m ≡ true)
  Holds _ _ q = ⊥

  abbrev pub IsResident : ModelManager M → Type 0
  IsResident s = Holds s.model s.model_id s.quantized

  release_if-IsResident :
      (b : Bool) (s : ModelManager M) → IsResident s → IsResident (release_if b s)
  unfolding release
  release_if-IsResident true s h = tt
  release_if-IsResident false s h = h

  evict-IsResident : (i : Text) (s : ModelManager M) → IsResident s → IsResident (evict i s)
  unfolding evict
  evict-IsResident i s h =
      release_if-IsResident (is_some (release_if (is_resident s.model_id i) s).model_id)
        (release_if (is_resident s.model_id i) s)
        (release_if-IsResident (is_resident s.model_id i) s h)

  installed-IsResident :
      (i : Text) (base : ModelSpec) (q : Bool) (now : ℕ) (o : Outcome M) (s : ModelManager M)
      → get_spec i ≡ some base
      → d.loader (record base { quantize = q }) ≡ o
      → IsResident s
      → IsResident (installed d i (record base { quantize = q }) now o s).1
  installed-IsResident i base q now (raised e) s g l h = h
  installed-IsResident i base q now (returned m) s g l h =
      elim (Bool-cases (verified d (record base { quantize = q }) m)) [
        | inl v ↦ rw v (base, g, l, v)
        | inr v ↦ rw v h
      ]

  load_spec-IsResident :
      (i : Text) (base : ModelSpec) (q : Bool) (now : ℕ) (s : ModelManager M)
      → get_spec i ≡ some base
      → IsResident s
      → IsResident (load_spec d i (record base { quantize = q }) now s).1
  unfolding touch
  load_spec-IsResident i base q now s g h =
      elim (Bool-cases (is_resident s.model_id i && same_flag s.quantized q)) [
        | inl b ↦ rw b h
        | inr b ↦ rw b (
            installed-IsResident i base q now (d.loader (record base { quantize = q })) (evict i s)
              g refl (evict-IsResident i s h))
      ]

  load-IsResident :
      (i : Text) (quantization : Option Text) (now : ℕ) (s : ModelManager M)
      → IsResident s
      → IsResident (load d i quantization now s).1
  unfolding load
  load-IsResident i quantization now s h = of_spec (get_spec i) refl
    where
      of_spec :
          (o : Option ModelSpec)
          → get_spec i ≡ o
          → IsResident (load_found d i o quantization now s).1
      of_spec none g = h
      of_spec (some base) g =
          load_spec-IsResident i base (resolve_quantization base quantization) now s g h

  -- A block keeps the invariant when its parts do.
  block-IsResident :
      {A B : Type 0} (m : Action (ModelManager M) A) (f : A → Action (ModelManager M) B)
      (s : ModelManager M)
      → IsResident (m s).1
      → ((a : A) → IsResident (f a (m s).1).1)
      → IsResident ((m >>= f) s).1
  block-IsResident {A} {B} m f s h k = of_outcome (m s).0
    where
      of_outcome : (o : Outcome A) → IsResident (continue o f (m s).1).1
      of_outcome (returned a) = k a
      of_outcome (raised e) = h

  ensure-IsResident :
      (i : Text) (now : ℕ) (s : ModelManager M) → IsResident s → IsResident (ensure d i now s).1
  ensure-IsResident i now s h = elim (Bool-cases (is_resident s.model_id i)) [
    | inl b ↦ rw b h
    | inr b ↦ rw b (
        block-IsResident (load d i none now) (λ _. pure tt) s (load-IsResident i none now s h)
          (λ a. load-IsResident i none now s h))
  ]

  -- The common end of the two operations: the model, its answer, the time of the last use.
  touching-IsResident :
      {A B : Type 0} (now : ℕ) (o : Outcome M) (answer : M → Outcome A) (check : A → Outcome B)
      (s : ModelManager M)
      → IsResident s
      → IsResident
          ((lift o >>= λ m. (lift (answer m) >>= λ x. (modify (touch now) >>= λ _. lift (check x))))
            s).1
  unfolding touch
  touching-IsResident now (raised e) answer check s h = h
  touching-IsResident {A} {B} now (returned m) answer check s h = answered (answer m)
    where
      answered :
          (r : Outcome A)
          → IsResident ((lift r >>= λ x. (modify (touch now) >>= λ _. lift (check x))) s).1
      answered (returned x) = h
      answered (raised e) = h

  module _ (settings : Settings) where
    encode_resident-IsResident :
        (l : List Text) (now : ℕ) (s : ModelManager M)
        → IsResident s
        → IsResident (encode_resident d settings l now s).1
    encode_resident-IsResident l now s h =
        touching-IsResident now (held d s.model)
          (λ m. encode_batches d m (batches (max 1 settings.max_batch_size) l))
          (λ x. counted d (length l) x) s h

    score_resident-IsResident :
        (query : Text) (l : List Text) (now : ℕ) (s : ModelManager M)
        → IsResident s
        → IsResident (score_resident d query l now s).1
    score_resident-IsResident query l now s h =
        touching-IsResident now (held d s.model) (λ m. d.score m query l)
          (λ x. counted d (length l) x) s h

    encode-IsResident :
        (i : Text) (texts : List Text) (now : ℕ) (s : ModelManager M)
        → IsResident s
        → IsResident (encode d settings i texts now s).1
    unfolding encode touch
    encode-IsResident i texts now s h = of_spec (get_spec i)
      where
        of_kind :
            (sp : ModelSpec) (k : Kind) (l : List Text)
            → sp.kind ≡ k
            → IsResident (encode_found d settings i (some sp) l now s).1
        of_kind sp rerank l e = rw e h
        of_kind sp embed [] e = rw e h
        of_kind sp embed (t ∷ ts) e = rw e (
            block-IsResident (ensure d i now) (λ _. encode_resident d settings (t ∷ ts) now) s
              (ensure-IsResident i now s h)
              (λ u.
                encode_resident-IsResident (t ∷ ts) now (ensure d i now s).1
                  (ensure-IsResident i now s h)))

        of_spec : (o : Option ModelSpec) → IsResident (encode_found d settings i o texts now s).1
        of_spec none = h
        of_spec (some sp) = of_kind sp sp.kind texts refl

    rerank-IsResident :
        (i query : Text) (documents : List Text) (now : ℕ) (s : ModelManager M)
        → IsResident s
        → IsResident (rerank_documents d i query documents now s).1
    unfolding rerank_documents touch
    rerank-IsResident i query documents now s h = of_spec (get_spec i)
      where
        of_kind :
            (sp : ModelSpec) (k : Kind) (l : List Text)
            → sp.kind ≡ k
            → IsResident (rerank_found d i (some sp) query l now s).1
        of_kind sp embed l e = rw e h
        of_kind sp rerank [] e = rw e h
        of_kind sp rerank (t ∷ ts) e = rw e (
            block-IsResident (ensure d i now) (λ _. score_resident d query (t ∷ ts) now) s
              (ensure-IsResident i now s h)
              (λ u.
                score_resident-IsResident query (t ∷ ts) now (ensure d i now s).1
                  (ensure-IsResident i now s h)))

        of_spec : (o : Option ModelSpec) → IsResident (rerank_found d i o query documents now s).1
        of_spec none = h
        of_spec (some sp) = of_kind sp sp.kind documents refl

    unload-IsResident :
        (asked : Option Text) (s : ModelManager M) → IsResident s → IsResident (unload asked s).1
    unfolding unload release
    unload-IsResident asked s h = of_id asked s.model_id
      where
        of_id : (a o : Option Text) → IsResident (unload_held a o s).1
        of_id a none = h
        of_id none (some j) = tt
        of_id (some i) (some j) = elim (Bool-cases (text_eq j i)) [
          | inl b ↦ rw b tt
          | inr b ↦ rw b h
        ]

    reap_once-IsResident :
        (now : ℕ) (s : ModelManager M) → IsResident s → IsResident (reap_once settings now s).1
    unfolding reap_once release
    reap_once-IsResident now s h = elim (Bool-cases (settings.idle_unload_s == 0)) [
      | inl b ↦ rw b h
      | inr b ↦ rw b (of_id s.model_id (leb settings.idle_unload_s (now - s.last_used_at)))
    ]
      where
        of_id : (o : Option Text) (stale : Bool) → IsResident (reap_held o stale s).1
        of_id none stale = h
        of_id (some i) true = tt
        of_id (some i) false = h

    serve-IsResident :
        (r : Request) (s : ModelManager M) → IsResident s → IsResident (serve d settings r s)
    unfolding serve
    serve-IsResident (loading i q now) s h = load-IsResident i q now s h
    serve-IsResident (unloading asked) s h = unload-IsResident asked s h
    serve-IsResident (encoding i texts now) s h = encode-IsResident i texts now s h
    serve-IsResident (reranking i query documents now) s h =
        rerank-IsResident i query documents now s h
    serve-IsResident (reaping now) s h = reap_once-IsResident now s h

    -- After any requests and turns of the reaper, whatever the loader and the models do, the manager
    -- holds nothing, or one model: the one that the loader returned for the registered spec of the
    -- recorded id at the recorded precision, and that passed the check of its dimension.
    pub serve_all-IsResident :
        (requests : List Request) (s : ModelManager M)
        → IsResident s
        → IsResident (serve_all d settings requests s)
    unfolding serve_all
    serve_all-IsResident [] s h = h
    serve_all-IsResident (r ∷ requests) s h =
        serve_all-IsResident requests (serve d settings r s) (serve-IsResident r s h)
