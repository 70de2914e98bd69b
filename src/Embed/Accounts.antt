-- ===== src/Embed/Accounts.antt =====
-- Which tasks of a batch embed_handler.py's `embed_chunks` reports as done and as failed.
use event_driven_rag_pipelin.Prelude.{
  ℕ, ◌+◌, ◌≤◌, ◌≡◌, refl, ap, ◌∙◌, subst, ◌≢◌, Text, Bool, true, false, not, ◌&&◌, ◌⊎◌, List, [],
  ◌∷◌, ◌++◌, append_assoc, map, arith, keep, exists, count, inl, inr,
}
use event_driven_rag_pipelin.Prelude.Action.{
  chunk_table_not_found, embedding_unavailable, other, Outcome, returned, raised, lift,
  >>=-eq-returned,
}
use event_driven_rag_pipelin.Tasks.{EmbedTask}
use event_driven_rag_pipelin.Embed.{
  World, Deps, Triple, task_eq, not_in, gather, seen, rows_of, save_batch, publish_groups,
  group_from, first_trace, persist, encode_all, after_encode, embed_chunks,
}
use event_driven_rag_pipelin.Embed.Fate.{
  IsBatch, IsDistinct, IsBatch-IsDistinct, exists_self, is_failed, has_texts, gather-failed,
  seen-eq-keep, not_in-keep,
}

abbrev pub idents : List EmbedTask → List ℕ
idents l = map (λ t. t.ident) l

count-keep-not :
    (a : ℕ) (p : EmbedTask → Bool) (l : List EmbedTask)
    → count a (idents (keep (λ t. not (p t)) l)) + count a (idents (keep p l)) ≡ count a (idents l)
count-keep-not a p [] = omega arith
count-keep-not a p (t ∷ l) = ground (arith, count-keep-not a p l)

pub count-keep_apart :
    (a : ℕ) (p q : EmbedTask → Bool) (l : List EmbedTask)
    → ((t : EmbedTask) → p t ≡ true → q t ≡ false)
    → count a (idents (keep p l)) + count a (idents (keep q l)) ≤ count a (idents l)
count-keep_apart a p q [] h = omega arith
count-keep_apart a p q (t ∷ l) h = ground (arith, count-keep_apart a p q l h, h t)

-- leaving out by `==` leaves out at least the listed objects
count-not_in :
    (a : ℕ) (p : EmbedTask → Bool) (front l : List EmbedTask)
    → count a (idents (keep (λ t. not (exists (λ f. task_eq t f) (keep p (front ++ l)))) l))
        + count a (idents (keep p l))
      ≤ count a (idents l)
count-not_in a p front [] = omega arith
count-not_in a p front (t ∷ l) =
    let rest =
      subst
        (λ whole.
          count a (idents (keep (λ u. not (exists (λ f. task_eq u f) (keep p whole))) l))
            + count a (idents (keep p l))
          ≤ count a (idents l))
        (append_assoc front (t ∷ []) l) (count-not_in a p (front ++ (t ∷ [])) l) in
    ground (arith, rest, exists_self p front t l)

module _ {V : Type 0} (d : Deps V) (tasks : List EmbedTask) (model_name : Text)
    (encode : List Text → Outcome (List V)) where
  pub fetched_texts : List Text
  fetched_texts = map (λ x. x.content) (gather d tasks).0

  encode_all_unavailable :
      (triples : List Triple) (f : List EmbedTask) (w : World V) (m : Text)
      → encode (map (λ x. x.content) triples) ≡ raised (embedding_unavailable m)
      → encode_all d model_name encode tasks triples f w ≡ (returned (not_in f tasks, f), w)
  encode_all_unavailable [] f w m e = refl
  encode_all_unavailable (t ∷ triples) f w m e = rw e

  -- If no leg can serve the model, or nothing was fetched, then every task of the batch except those
  -- whose fetch failed is reported as done, those are reported as failed, and nothing is saved or
  -- published. The tasks are different objects with different task ids.
  pub unavailable_accounts :
      (w : World V)
      → IsBatch tasks
      → ((gather d tasks).0 ≡ [])
        ⊎ ((m : Text) × (encode fetched_texts ≡ raised (embedding_unavailable m)))
      → embed_chunks d tasks model_name encode w
        ≡ (returned (keep (λ t. not (is_failed d t)) tasks, keep (is_failed d) tasks), w)
  unfolding embed_chunks fetched_texts
  unavailable_accounts w b e =
      without_vectors (gather d tasks).0 e
      ∙ ap (λ f. (returned (not_in f tasks, f), w)) (gather-failed d tasks)
      ∙ ap (λ l. (returned (l, keep (is_failed d) tasks), w)) (not_in-keep (is_failed d) tasks b)
    where
      without_vectors :
          (triples : List Triple)
          → (triples ≡ [])
            ⊎ ((m : Text) × (encode (map (λ x. x.content) triples)
                  ≡ raised (embedding_unavailable m)))
          → encode_all d model_name encode tasks triples (gather d tasks).1 w
            ≡ (returned (not_in (gather d tasks).1 tasks, (gather d tasks).1), w)
      without_vectors [] e = refl
      without_vectors (t ∷ triples) (inl e) = cc
      without_vectors (t ∷ triples) (inr (m, e)) =
          encode_all_unavailable (t ∷ triples) (gather d tasks).1 w m e

  persist-returned :
      (triples : List Triple) (f : List EmbedTask) (vectors : List V) (w : World V)
      {r : List EmbedTask × List EmbedTask}
      → (persist d model_name triples f vectors w).0 ≡ returned r
      → r ≡ (seen triples [], f)
  unfolding persist
  persist-returned triples f vectors w {r} h =
      let (rows, e1, h1) = >>=-eq-returned (lift (rows_of model_name triples vectors)) _ w h in
      let (u, e2, h2) = >>=-eq-returned (save_batch d rows) _ w h1 in
      let (v, e3, h3) =
        >>=-eq-returned
          (publish_groups d model_name (d.propagate_trace (first_trace d triples))
            (group_from triples []))
          _ (save_batch d rows w).1 h2 in
      cc

  -- the three ways in which the handler reports a batch
  encode_all-returned :
      (triples : List Triple) (f : List EmbedTask) (w : World V)
      {r : List EmbedTask × List EmbedTask}
      → (encode_all d model_name encode tasks triples f w).0 ≡ returned r
      → ((r ≡ (not_in f tasks, f)) ⊎ (r ≡ ([], tasks))) ⊎ (r ≡ (seen triples [], f))
  encode_all-returned [] f w h = inl (inl (cc))
  encode_all-returned (t ∷ triples) f w {r} h =
      outcome (encode (map (λ x. x.content) (t ∷ triples))) h
    where
      outcome :
          (v : Outcome (List V))
          → (after_encode d model_name tasks (t ∷ triples) f v w).0 ≡ returned r
          → ((r ≡ (not_in f tasks, f)) ⊎ (r ≡ ([], tasks))) ⊎ (r ≡ (seen (t ∷ triples) [], f))
      outcome (returned vectors) h = inr (persist-returned (t ∷ triples) f vectors w h)
      outcome (raised (embedding_unavailable m)) h = inl (inl (cc))
      outcome (raised (chunk_table_not_found m)) h = inl (inr (cc))
      outcome (raised (other m)) h = inl (inr (cc))

  encode_all-encoded :
      (triples : List Triple) (f : List EmbedTask) (w : World V) (vectors : List V)
      {r : List EmbedTask × List EmbedTask}
      → triples ≢ []
      → encode (map (λ x. x.content) triples) ≡ returned vectors
      → (encode_all d model_name encode tasks triples f w).0 ≡ returned r
      → r ≡ (seen triples [], f)
  encode_all-encoded [] f w vectors n e h = absurd (n refl)
  encode_all-encoded (t ∷ triples) f w vectors n e h =
      persist-returned (t ∷ triples) f vectors w (rw e at h)

  not_failed : (t : EmbedTask) → has_texts d t ≡ true → is_failed d t ≡ false
  not_failed t h = ground arith

  -- Whatever the fetches, the encoder, the store and the event log do, no task object of a batch of
  -- different objects is reported more often than it stands in the batch, counting the done and the
  -- failed list together.
  pub embed_chunks-settles :
      (w : World V) {r : List EmbedTask × List EmbedTask} (a : ℕ)
      → IsDistinct tasks
      → (embed_chunks d tasks model_name encode w).0 ≡ returned r
      → count a (idents r.0) + count a (idents r.1) ≤ count a (idents tasks)
  unfolding embed_chunks
  embed_chunks-settles w {r} a b h =
      by_report (encode_all-returned (gather d tasks).0 (gather d tasks).1 w h)
    where
      by_report :
          ((r ≡ (not_in (gather d tasks).1 tasks, (gather d tasks).1)) ⊎ (r ≡ ([], tasks)))
            ⊎ (r ≡ (seen (gather d tasks).0 [], (gather d tasks).1))
          → count a (idents r.0) + count a (idents r.1) ≤ count a (idents tasks)
      by_report (inl (inl e)) =
          unfold not_in in rw (e, gather-failed d tasks) (count-not_in a (is_failed d) [] tasks)
      by_report (inl (inr e)) = rw e (omega arith)
      by_report (inr e) =
          rw (e, gather-failed d tasks, seen-eq-keep d tasks b)
            (count-keep_apart a (has_texts d) (is_failed d) tasks not_failed)

-- Nothing was fetched for the task, and no fetch failed.
abbrev pub is_unreported : {V : Type 0} → Deps V → EmbedTask → Bool
is_unreported d t = not (has_texts d t) && not (is_failed d t)

count-three :
    (a : ℕ) (p q : EmbedTask → Bool) (l : List EmbedTask)
    → ((t : EmbedTask) → p t ≡ true → q t ≡ false)
    → count a (idents (keep p l))
        + count a (idents (keep q l))
        + count a (idents (keep (λ t. not (p t) && not (q t)) l))
      ≡ count a (idents l)
count-three a p q [] h = omega arith
count-three a p q (t ∷ l) h = ground (arith, count-three a p q l h, h t)

-- When some text was fetched, the encoder returns and the call returns, the batch falls into three
-- parts: the tasks reported as done, those reported as failed, and those for which nothing was
-- fetched without an error (no chunk ids, no such chunk table), which are in neither list.
pub encoded_accounts :
    {V : Type 0} (d : Deps V) (tasks : List EmbedTask) (model_name : Text)
    (encode : List Text → Outcome (List V)) (w : World V) (vectors : List V)
    {r : List EmbedTask × List EmbedTask} (a : ℕ)
    → IsBatch tasks
    → (gather d tasks).0 ≢ []
    → encode (map (λ x. x.content) (gather d tasks).0) ≡ returned vectors
    → (embed_chunks d tasks model_name encode w).0 ≡ returned r
    → count a (idents r.0) + count a (idents r.1) + count a (idents (keep (is_unreported d) tasks))
      ≡ count a (idents tasks)
unfolding embed_chunks
encoded_accounts d tasks model_name encode w vectors {r} a b n e h =
    rw
      (encode_all-encoded d tasks model_name encode (gather d tasks).0 (gather d tasks).1 w vectors
          n e h
        ∙ ap (λ f. (seen (gather d tasks).0 [], f)) (gather-failed d tasks)
        ∙ ap (λ l. (l, keep (is_failed d) tasks))
            (seen-eq-keep d tasks (IsBatch-IsDistinct tasks b)))
      (count-three a (has_texts d) (is_failed d) tasks (λ t x. ground arith))
