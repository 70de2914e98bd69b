-- ===== src/Loader/Quantised.antt =====
-- The quantised load of worker/entrypoints/gpu.py and its retry.
use event_driven_rag_pipelin.Prelude.{
  ℕ, ◌≡◌, refl, sym, ap, ◌∙◌, subst, ◌⊎◌, ◌↔◌, inl, inr, ◌==◌, ==_iff, Text, Bool, true, false, not,
  Dict, Option, none, some, Bool-cases,
}
use event_driven_rag_pipelin.Prelude.Action.{Exception, Outcome, returned, raised}
use event_driven_rag_pipelin.Config.{EmbedConfig}
use event_driven_rag_pipelin.Loader.{
  config_in, wants, quant_int8, build_model, or_plain, refuse_dim, checked_dim,
  load_sentence_transformer,
}

module _ {M : Type 0} (build : Bool → Outcome M) (dim : M → ℕ) where
  -- a model of the dimension that the configuration declares, if it names the model
  abbrev pub Fits : Option EmbedConfig → M → Type 0
  Fits none m = Unit
  Fits (some cfg) m = dim m ≡ cfg.dim

  -- Where a model came from: the quantised load, if that was asked for; otherwise the plain one, which
  -- runs when none was asked for or when the quantised load raised.
  abbrev pub Source : Bool → M → Type 0
  Source wanted m =
      ((wanted ≡ true) × (build true ≡ returned m))
      ⊎ ((build false ≡ returned m)
          × ((wanted ≡ false) ⊎ ((e : Exception) × (build true ≡ raised e))))

  build_model-Source : (b : Bool) (m : M) → build_model build b ≡ returned m → Source b m
  unfolding build_model
  build_model-Source true m h = from_quantised (build true) refl h
    where
      from_quantised :
          (r : Outcome M) → build true ≡ r → or_plain build r ≡ returned m → Source true m
      from_quantised (returned x) e h = inl (refl, e ∙ h)
      from_quantised (raised x) e h = inr (h, inr (x, e))
  build_model-Source false m h = inr (h, inl refl)

  checked_dim-Fits :
      (name : Text) (o : Option EmbedConfig) (r : Outcome M) (m : M)
      → checked_dim build dim name o r ≡ returned m
      → (r ≡ returned m) × Fits o m
  checked_dim-Fits name o (raised e) m h = cc
  checked_dim-Fits name none (returned x) m h = (h, tt)
  checked_dim-Fits name (some cfg) (returned x) m h = by_dim (Bool-cases (dim x == cfg.dim))
    where
      by_dim :
          ((dim x == cfg.dim) ≡ true) ⊎ ((dim x == cfg.dim) ≡ false)
          → (returned x ≡ returned m) × (dim m ≡ cfg.dim)
      by_dim (inl e) =
          let same : returned x ≡ returned m =
            subst (λ b. refuse_dim build (not b) name x ≡ returned m) e h in
          (same, ap dim (unwrap (sym same)) ∙ (==_iff (dim x) cfg.dim).0 e)
        where
          unwrap : {a b : M} → returned a ≡ returned b → a ≡ b
          unwrap p = cc
      by_dim (inr e) =
          let stops = subst (λ b. refuse_dim build (not b) name x ≡ returned m) e h in cc

  Fits-checked_dim :
      (name : Text) (o : Option EmbedConfig) (r : Outcome M) (m : M)
      → r ≡ returned m
      → Fits o m
      → checked_dim build dim name o r ≡ returned m
  Fits-checked_dim name o r m e f =
      subst (λ x. checked_dim build dim name o x ≡ returned m) (sym e) (by_config o f)
    where
      by_config :
          (o : Option EmbedConfig)
          → Fits o m
          → checked_dim build dim name o (returned m) ≡ returned m
      by_config none f = refl
      by_config (some cfg) f =
          ap (λ b. refuse_dim build (not b) name m) ((==_iff (dim m) cfg.dim).1 f)

  build_model-returns : (b : Bool) (m : M) → Source b m → build_model build b ≡ returned m
  unfolding build_model
  build_model-returns true m (inl s) = ap (or_plain build) s.1
  build_model-returns false m (inl s) = cc
  build_model-returns true m (inr (e, inl f)) = cc
  build_model-returns true m (inr (e, inr (x, f))) = ap (or_plain build) f ∙ e
  build_model-returns false m (inr (e, f)) = e

  -- A load returns a model exactly when it fits the configured dimension and comes from the quantised
  -- load, asked for and successful, or from the plain one, after none was asked for or it raised.
  pub load_sentence_transformer_iff :
      (configs : Dict EmbedConfig) (name : Text) (quantization : Option Text) (m : M)
      → (load_sentence_transformer build dim configs name quantization ≡ returned m)
        ↔ (Source (wants quant_int8 quantization) m × Fits (config_in configs name) m)
  unfolding load_sentence_transformer
  load_sentence_transformer_iff configs name quantization m = (
    λ h.
        let (e, f) = checked_dim-Fits name (config_in configs name) _ m h in
        (build_model-Source (wants quant_int8 quantization) m e, f),
    λ h.
        Fits-checked_dim name (config_in configs name) _ m
          (build_model-returns (wants quant_int8 quantization) m h.0) h.1,
  )
