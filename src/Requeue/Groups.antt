-- ===== src/Requeue/Groups.antt =====
-- The grouping of un-embedded chunks by their post: `_publish_tasks` of requeue_service.py.
use event_driven_rag_pipelin.Prelude.{
  ℕ, ◌==◌, ◌≡◌, refl, sym, ap, ◌∙◌, Text, Bool, true, false, List, [], ◌∷◌, ◌++◌, append-nil,
  append_assoc, map, keep, exists, count, if◌then◌else◌, arith,
}
use event_driven_rag_pipelin.Requeue.{add_chunk, by_post}

-- the chunk ids in the group of a post
abbrev pub ids_for : ℕ → List (ℕ × List Text) → List Text
ids_for p [] = []
ids_for p ((q, ids) ∷ groups) = if q == p then ids else ids_for p groups

abbrev pub posts : List (ℕ × List Text) → List ℕ
posts groups = map (λ g. g.0) groups

ids_for-add_chunk :
    (p q : ℕ) (c : Text) (groups : List (ℕ × List Text))
    → ids_for p (add_chunk c q groups) ≡ ids_for p groups ++ (if q == p then c ∷ [] else [])
unfolding add_chunk
ids_for-add_chunk p q c [] = ground arith
ids_for-add_chunk p q c ((r, ids) ∷ groups) =
    ground (arith, ids_for-add_chunk p q c groups, append-nil ids, append-nil (ids_for p groups))

ids_for-by_post :
    (p : ℕ) (unembedded : List (Text × ℕ)) (groups : List (ℕ × List Text))
    → ids_for p (by_post unembedded groups)
      ≡ ids_for p groups ++ map (λ x. x.0) (keep (λ x. x.1 == p) unembedded)
unfolding by_post
ids_for-by_post p [] groups = sym (append-nil _)
ids_for-by_post p ((c, q) ∷ unembedded) groups =
    ids_for-by_post p unembedded (add_chunk c q groups)
    ∙ ap (λ l. l ++ map (λ x. x.0) (keep (λ x. x.1 == p) unembedded))
        (ids_for-add_chunk p q c groups)
    ∙ append_assoc (ids_for p groups) (if q == p then c ∷ [] else []) _
    ∙ ap (λ l. ids_for p groups ++ l) (first_of (q == p))
  where
    first_of :
        (b : Bool)
        → (if b then c ∷ [] else []) ++ map (λ x. x.0) (keep (λ x. x.1 == p) unembedded)
          ≡ map
              (λ x. x.0)
              (if b
                then (c, q) ∷ keep (λ x. x.1 == p) unembedded
                else keep (λ x. x.1 == p) unembedded)
    first_of true = refl
    first_of false = refl

count-add_chunk :
    (p q : ℕ) (c : Text) (groups : List (ℕ × List Text))
    → count p (posts (add_chunk c q groups)) ≡ (
        if q == p
        then (if count p (posts groups) == 0 then 1 else count p (posts groups))
        else count p (posts groups))
unfolding add_chunk
count-add_chunk p q c [] = ground arith
count-add_chunk p q c ((r, ids) ∷ groups) = ground (arith, count-add_chunk p q c groups)

count-by_post :
    (p : ℕ) (unembedded : List (Text × ℕ)) (groups : List (ℕ × List Text))
    → count p (posts (by_post unembedded groups)) ≡ (
        if exists (λ x. x.1 == p) unembedded
        then (if count p (posts groups) == 0 then 1 else count p (posts groups))
        else count p (posts groups))
unfolding by_post
count-by_post p [] groups = refl
count-by_post p ((c, q) ∷ unembedded) groups =
    ground (arith, count-by_post p unembedded (add_chunk c q groups), count-add_chunk p q c groups)

-- Each post with un-embedded chunks has exactly one group, no other post has one, and the group lists
-- the ids of all un-embedded chunks of the post in the order in which they were read.
pub by_post_lem :
    (p : ℕ) (unembedded : List (Text × ℕ))
    → (count p (posts (by_post unembedded []))
        ≡ (if exists (λ x. x.1 == p) unembedded then 1 else 0))
      × (ids_for p (by_post unembedded []) ≡ map (λ x. x.0) (keep (λ x. x.1 == p) unembedded))
by_post_lem p unembedded = (count-by_post p unembedded [], ids_for-by_post p unembedded [])
