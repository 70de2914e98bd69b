-- ===== src/Loader/Redelivery.antt =====
-- A batch whose local run killed the worker and that the broker delivers again: worker/local_run_guard.py,
-- `_LazyLocalModel` of worker/entrypoints/gpu.py and handlers/embed_handler.py together.
use event_driven_rag_pipelin.Prelude.{inr, ◌≡◌, ap, ◌∙◌, Text, not, Option, List, keep}
use event_driven_rag_pipelin.Prelude.Action.{
  Exception, embedding_unavailable, Outcome, returned, raised,
}
use event_driven_rag_pipelin.Tasks.{EmbedTask}
use event_driven_rag_pipelin.Guard.{check, Process, Steps, start, restart}
use event_driven_rag_pipelin.Guard.Killed.{killed_blocked, Other, Any}
use event_driven_rag_pipelin.Ladder.{Endpoint, RemoteModel}
use event_driven_rag_pipelin.Ladder as Ladder
use event_driven_rag_pipelin.Ladder.Legs.{prefer_remote_down}
use event_driven_rag_pipelin.Loader.{
  lazy_local, Local, guarded, lazy_encode, local_encode, encode, remote_endpoint,
}
use event_driven_rag_pipelin.Embed.{World, Deps, embed_chunks}
use event_driven_rag_pipelin.Embed.Fate.{IsBatch, is_failed}
use event_driven_rag_pipelin.Embed.Accounts.{unavailable_accounts}

module _ {M V : Type 0} (describe : Text → Text) (load : Text → Outcome M)
    (encode_with : M → List Text → Outcome (List V)) where
  -- a blocked model is neither loaded nor run
  lazy_encode_blocked :
      (primary : Text) (texts : List Text) (l : Local M) (e : Exception)
      → (check describe primary l.guard).0 ≡ raised e
      → lazy_encode describe load encode_with primary texts l
        ≡ (raised e, record { guard = (check describe primary l.guard).1; model = l.model })
  unfolding lazy_encode
  lazy_encode_blocked primary texts l e h =
      ap (guarded describe load encode_with primary texts l (check describe primary l.guard).1) h

module _ {W M V : Type 0} (describe : Text → Text) (load : Text → Outcome M)
    (encode_with : M → List Text → Outcome (List V)) where
  -- If a local run of a model started, no run with its marker finished and the process was killed, then
  -- in every later process a batch of the model that finds the endpoint down is skipped: every task but
  -- those whose fetch failed is reported as done, those as failed, nothing is saved or published, and
  -- the model is not loaded. The tasks are different objects with different task ids.
  pub killed_skips :
      (primary : Text) (p : Process) {q r : Process}
      → Steps describe (Other primary) (record p { guard = start primary p.guard }) q
      → Steps describe Any (restart q) r
      → (endpoint : List Text → Endpoint W (List V)) (m : RemoteModel) (w : W) (model : Option M)
        (x : Exception) (d : Deps V) (tasks : List EmbedTask) (store : World V)
      → IsBatch tasks
      → ((texts : List Text) → ((endpoint texts).health w).0 ≡ raised x)
      → let run = λ (texts : List Text).
        encode describe load encode_with endpoint m
          (lazy_local primary)
          texts
          (w, record { guard = r.guard; model = model }) in
        (embed_chunks d tasks primary (λ texts. (run texts).0) store
          ≡ (returned (keep (λ t. not (is_failed d t)) tasks, keep (is_failed d) tasks), store))
        × ((texts : List Text) → (run texts).1.1.model ≡ model)
  unfolding encode local_encode Ladder.encode
  killed_skips primary p {q} {r} s t endpoint m w model x d tasks store b down = (
    unavailable_accounts d tasks primary _ store b
        (inr (describe primary, ap (λ o. o.0) (refused _))),
    λ texts. ap (λ o. o.1.1.model) (refused texts),
  )
    where
      refused :
          (texts : List Text)
          → encode describe load encode_with endpoint m
              (lazy_local primary)
              texts
              (w, record { guard = r.guard; model = model })
            ≡ (
              raised (embedding_unavailable (describe primary)),
              (
                ((endpoint texts).health w).1,
                record { guard = (check describe primary r.guard).1; model = model },
              ),
            )
      refused texts =
          prefer_remote_down (remote_endpoint (endpoint texts)) m _
            (w, record { guard = r.guard; model = model }) x (down texts)
          ∙ ap (λ o. (o.0, (((endpoint texts).health w).1, o.1)))
              (lazy_encode_blocked describe load encode_with primary texts
                (record { guard = r.guard; model = model }) _
                (killed_blocked describe primary p s t))
