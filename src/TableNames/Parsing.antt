-- ===== src/TableNames/Parsing.antt =====
-- Truncated names of build_table_names.py, and what the parser makes of built names.
use event_driven_rag_pipelin.Prelude.{
  ℕ, zero, suc, ◌≤◌, ◌<◌, ◌≡◌, refl, sym, ap, ◌∙◌, ◌≢◌, Text, text_eq, text_eq_iff, text_eq_ne,
  text_eq_refl, true, false, ◌&&◌, Option, none, some, [], ◌∷◌, ◌++◌, append_assoc, arith, ◌==◌,
  leb, take, length, length-append, get_elem?, Dict, insert, All, ◌⊎◌, inl, inr, Bool-cases,
}
use event_driven_rag_pipelin.Config.{EmbedConfig, embed_configs}
use event_driven_rag_pipelin.TableNames.{
  truncate_identifier, marker, build_chunk_table_name, build_chunk_table_suffix_map, starts_with,
  cons_some, before, match_suffix, parse_chunk_table_name, sanitize_model_name, lower,
}

take_all : (k : ℕ) (s : Text) → length s ≤ k → take k s ≡ s
take_all zero [] h = refl
take_all zero (c ∷ s) h = absurd (omega (arith, h))
take_all (suc k) [] h = refl
take_all (suc k) (c ∷ s) h = ap (λ r. c ∷ r) (take_all k s (omega (arith, h)))

length-take_bound : (k : ℕ) (s : Text) → length (take k s) ≤ k
length-take_bound zero s = omega arith
length-take_bound (suc k) [] = omega arith
length-take_bound (suc k) (c ∷ s) = omega (arith, length-take_bound k s)

pub truncate-take : (s : Text) → truncate_identifier s ≡ take 63 s
unfolding truncate_identifier
truncate-take s = elim (Bool-cases (leb (length s) 63)) [
  | inl h ↦ rw h (sym (take_all 63 s (ground (arith, h))))
  | inr h ↦ rw h refl
]

-- A truncated name fits into a Postgres identifier, truncating it again changes nothing, and a name
-- that fits is kept.
pub truncate_identifier_lem :
    (s : Text)
    → (length (truncate_identifier s) ≤ 63)
      × (truncate_identifier (truncate_identifier s) ≡ truncate_identifier s)
      × (length s ≤ 63 → truncate_identifier s ≡ s)
truncate_identifier_lem s =
    let fits : length (truncate_identifier s) ≤ 63 =
      rw (truncate-take s) (length-take_bound 63 s) in
    (
      fits,
      truncate-take (truncate_identifier s) ∙ take_all 63 (truncate_identifier s) fits,
      λ h. truncate-take s ∙ take_all 63 s h,
    )

starts_with-append : (m s r : Text) → length m ≤ length s → starts_with m (s ++ r) ≡ starts_with m s
starts_with-append [] s r h = refl
starts_with-append (c ∷ m) [] r h = absurd (omega (arith, h))
starts_with-append (c ∷ m) (d ∷ s) r h =
    ap (λ b. (c == d) && b) (starts_with-append m s r (omega (arith, h)))

starts_with_self : (m r : Text) → starts_with m (m ++ r) ≡ true
starts_with_self [] r = refl
starts_with_self (c ∷ m) r = ground (arith, starts_with_self m r)

cons_some_eq : (c : ℕ) (o : Option Text) {p : Text} → cons_some c o ≡ some (c ∷ p) → o ≡ some p
cons_some_eq c none h = cc
cons_some_eq c (some s) h = cc

length-append_ge : (p m : Text) → length m ≤ length (p ++ m)
length-append_ge [] m = omega arith
length-append_ge (c ∷ p) m = omega (arith, length-append_ge p m)

before_empty : (m s : Text) → starts_with m s ≡ true → before m s ≡ some []
unfolding before
before_empty m [] h = rw h refl
before_empty m (c ∷ s) h = rw h refl

-- The first marker stays the first one when text is added behind it.
before-append : (m p r : Text) → before m (p ++ m) ≡ some p → before m ((p ++ m) ++ r) ≡ some p
unfolding before
before-append m [] r h = before_empty m (m ++ r) (starts_with_self m r)
before-append m (c ∷ p) r h = elim (Bool-cases (starts_with m (c ∷ (p ++ m)))) [
  | inl e ↦ absurd (nonempty (rw e at h))
  | inr e ↦
      let later : starts_with m (c ∷ ((p ++ m) ++ r)) ≡ false =
        starts_with-append m (c ∷ (p ++ m)) r (omega (arith, length-append_ge p m)) ∙ e in
      let inner : before m (p ++ m) ≡ some p = cons_some_eq c (before m (p ++ m)) (rw e at h) in
      rw later (ap (cons_some c) (before-append m p r inner))
]
  where
    nonempty : ◌≡◌ {A = Option Text} (some []) (some (c ∷ p)) → ⊥
    nonempty e = cc

-- what is left of `q ++ t` after the cut still starts as `t` does
take_past :
    (k : ℕ) (q t : Text)
    → length q < k
    → (r : Text) × (take k (q ++ t) ≡ q ++ r) × (get_elem? r 0 ≡ get_elem? t 0)
take_past zero q t h = absurd (omega (arith, h))
take_past (suc k) [] [] h = ([], refl, refl)
take_past (suc k) [] (c ∷ t) h = (c ∷ take k t, refl, refl)
take_past (suc k) (d ∷ q) t h =
    let (r, e, f) = take_past k q t (omega (arith, h)) in (r, ap (λ l. d ∷ l) e, f)

append_left : (q r s : Text) → q ++ r ≡ q ++ s → r ≡ s
append_left [] r s h = h
append_left (c ∷ q) r s h = append_left q r s (ap tail h)
  where
    tail : Text → Text
    tail [] = []
    tail (d ∷ l) = l

abbrev pub Suffixes : Type 0
Suffixes = Dict (Text × EmbedConfig)

-- The entry is listed, before any other whose suffix has its first letter.
abbrev pub IsFirstOf : ℕ → Text → Text × EmbedConfig → Suffixes → Type 0
IsFirstOf c s v [] = ⊥
IsFirstOf c s v ((t, w) ∷ d) =
    ((t ≡ c ∷ s) × (w ≡ v)) ⊎ ((get_elem? t 0 ≢ some c) × IsFirstOf c s v d)

-- The entry is listed.
abbrev pub Listed : Text → Text × EmbedConfig → Suffixes → Type 0
Listed s v [] = ⊥
Listed s v ((t, w) ∷ d) = ((t ≡ s) × (w ≡ v)) ⊎ Listed s v d

-- A name is read as belonging to a post table, a task type and a model only if cutting the full name
-- for them, with a suffix that is listed for that task type and model, gives this name.
pub match_suffix_lem :
    (table p ty : Text) (cfg : EmbedConfig) (d : Suffixes)
    → match_suffix table p d ≡ some (p, ty, cfg)
    → (s : Text) × (truncate_identifier (p ++ (marker ++ s)) ≡ table) × Listed s (ty, cfg) d
unfolding match_suffix
match_suffix_lem table p ty cfg [] h = cc
match_suffix_lem table p ty cfg ((s, (ty', cfg')) ∷ d) h =
    elim (Bool-cases (text_eq (truncate_identifier (p ++ (marker ++ s))) table)) [
      | inl e ↦
          let same : ◌≡◌ {A = Option (Text × Text × EmbedConfig)} (some (p, ty', cfg'))
              (some (p, ty, cfg)) =
            rw e at h in
          (s, (text_eq_iff _ table).0 e, inl (refl, entry ty' cfg' same))
      | inr e ↦ let (s', f, l) = match_suffix_lem table p ty cfg d (rw e at h) in (s', f, inr l)
    ]
  where
    get : Option (Text × Text × EmbedConfig) → Text × EmbedConfig → Text × EmbedConfig
    get none v = v
    get (some x) v = (x.1, x.2)

    entry :
        (ty' : Text) (cfg' : EmbedConfig)
        → ◌≡◌ {A = Option (Text × Text × EmbedConfig)} (some (p, ty', cfg')) (some (p, ty, cfg))
        → ◌≡◌ {A = Text × EmbedConfig} (ty', cfg') (ty, cfg)
    entry ty' cfg' e = ap (λ o. get o (ty, cfg)) e

module _ (p : Text) (c : ℕ) (s : Text) where
  abbrev built : Text
  built = truncate_identifier (p ++ (marker ++ (c ∷ s)))

  cut :
      (t : Text)
      → length p ≤ 54
      → (r : Text) × (truncate_identifier (p ++ (marker ++ t)) ≡ (p ++ marker) ++ r)
        × (get_elem? r 0 ≡ get_elem? t 0)
  cut t h =
      let (r, e, f) = take_past 63 (p ++ marker) t (omega (arith, h, length-append p marker)) in
      (
        r,
        truncate-take (p ++ (marker ++ t))
            ∙ ap (λ l. take 63 l) (sym (append_assoc p marker t))
            ∙ e,
        f,
      )

  other_suffix :
      (t : Text)
      → length p ≤ 54
      → get_elem? t 0 ≢ some c
      → text_eq (truncate_identifier (p ++ (marker ++ t))) built ≡ false
  other_suffix t h n =
      let (r, e, f) = cut t h in
      let (r', e', f') = cut (c ∷ s) h in
      text_eq_ne _ _ (λ k.
        n (sym f ∙ ap (λ l. get_elem? l 0) (append_left (p ++ marker) r r' (sym e ∙ k ∙ e')) ∙ f'))

  match_suffix-built :
      (ty : Text) (cfg : EmbedConfig) (d : Suffixes)
      → length p ≤ 54
      → IsFirstOf c s (ty, cfg) d
      → match_suffix built p d ≡ some (p, ty, cfg)
  unfolding match_suffix
  match_suffix-built ty cfg [] h l = absurd l
  match_suffix-built ty cfg ((t, (ty', cfg')) ∷ d) h (inl (e, f)) =
      rw (e, text_eq_refl built) (ap (λ (v : Text × EmbedConfig). some (p, v.0, v.1)) f)
  match_suffix-built ty cfg ((t, (ty', cfg')) ∷ d) h (inr (n, l)) =
      rw (other_suffix t h n) (match_suffix-built ty cfg d h l)

  -- If the marker occurs first at the end of `p ++ marker` and `p` leaves room for one letter of the
  -- suffix, the full name, cut or not, is read back as `p` with the entry of the suffix, provided
  -- that no earlier entry's suffix starts with the same letter.
  pub parse_chunk_table_name-built :
      (ty : Text) (cfg : EmbedConfig) (d : Suffixes)
      → length p ≤ 54
      → before marker (p ++ marker) ≡ some p
      → IsFirstOf c s (ty, cfg) d
      → parse_chunk_table_name (truncate_identifier (p ++ (marker ++ (c ∷ s)))) d
        ≡ some (p, ty, cfg)
  unfolding parse_chunk_table_name
  parse_chunk_table_name-built ty cfg d h m l =
      let (r, e, f) = cut (c ∷ s) h in
      let found : before marker built ≡ some p =
        ap (before marker) e ∙ before-append marker p r m in
      rw found (match_suffix-built ty cfg d h l)

apart : (a c : ℕ) → (a == c) ≡ false → ◌≢◌ {A = Option ℕ} (some a) (some c)
apart a c h e = ground (arith, h, ap (or_zero) e)
  where
    or_zero : Option ℕ → ℕ
    or_zero none = 0
    or_zero (some n) = n

-- For every configured chunk type, the table name that is built for a post table, the chunk type and
-- its model is read back as that post table, chunk type and config, also where the name was cut, if
-- the post table's name has at most 54 characters and the first place where the marker begins in that
-- name followed by the marker is the end of the name. A name that ends with the start of the marker,
-- as posts_chunks, is not of that form.
pub build-parse :
    (p : Text)
    → length p ≤ 54
    → before marker (p ++ marker) ≡ some p
    → All
        (λ (e : Text × EmbedConfig).
          parse_chunk_table_name
            (build_chunk_table_name p e.0 e.1.primary)
            (build_chunk_table_suffix_map embed_configs)
          ≡ some (p, e.0, e.1))
        embed_configs
unfolding build_chunk_table_name build_chunk_table_suffix_map embed_configs sanitize_model_name
    lower text_eq insert
build-parse p h m = (
  parse_chunk_table_name-built p _ _ _ _ _ h m (inl (refl, refl)),
  (
    parse_chunk_table_name-built p _ _ _ _ _ h m (inr (apart _ _ refl, inl (refl, refl))),
    (
      parse_chunk_table_name-built p _ _ _ _ _ h m
          (inr (apart _ _ refl, inr (apart _ _ refl, inl (refl, refl)))),
      (
        parse_chunk_table_name-built p _ _ _ _ _ h m
            (inr (apart _ _ refl, inr (apart _ _ refl, inr (apart _ _ refl, inl (refl, refl))))),
        tt,
      ),
    ),
  ),
)
