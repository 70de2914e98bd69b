-- ===== src/Worker/Gpu/Counts.antt =====
-- How often the handlers' reports of gpu_worker.py name the message of a batch.
use event_driven_rag_pipelin.Prelude.{
  ℕ, ◌+◌, ◌≤◌, ◌≡◌, refl, sym, subst, Text, Bool, true, false, Option, none, some, List, [], ◌∷◌,
  ◌++◌, map, count, count-append, arith, if◌then◌else◌, keep, All,
}
use event_driven_rag_pipelin.Prelude.Action.{returned, >>=-eq-returned}
use event_driven_rag_pipelin.Tasks.{
  EmbedTask, Task, chunk_task, embed_task, infer_task, search_run_task, search_rank_task,
  search_finalize_task,
}
use event_driven_rag_pipelin.Worker.{Channel, ack, nack}
use event_driven_rag_pipelin.Worker.Settle.{IsOpen, IsOpen-counts, ack-IsOpen, nack-IsOpen, tags}
use event_driven_rag_pipelin.Worker.Gpu.{
  WorkerMessage, Handlers, Settles, task_idents, as_object, add_parsed, discard, parse_batch,
  add_report, Reports, rank_one, process_rerank_batch, is_chunk, is_query, query_one,
  process_queries, add_embed_task, embed_tasks, has_ident, with_ident, messages_of, extend,
  process_chunks, ack_all, nack_all,
}

abbrev pub msg_tags : {S : Type 0} → List (WorkerMessage S) → List ℕ
msg_tags l = map (λ m. m.delivery_tag) l

abbrev pub Tagged : {S : Type 0} → Task S → ℕ → Type 0
Tagged (embed_task t) tag = t.ident ≡ tag
Tagged _ tag = Unit

abbrev pub IsTagged : {S : Type 0} → List (WorkerMessage S) → Type 0
IsTagged l = All (λ m. Tagged m.task m.delivery_tag) l

module _ {S : Type 0} where
  as_object-Tagged : (tag : ℕ) (t : Task S) → Tagged (as_object tag t) tag
  as_object-Tagged tag (embed_task t) = refl
  as_object-Tagged tag (chunk_task t) = tt
  as_object-Tagged tag infer_task = tt
  as_object-Tagged tag (search_run_task t) = tt
  as_object-Tagged tag (search_rank_task t) = tt
  as_object-Tagged tag (search_finalize_task t) = tt

  -- parsing keeps or settles each tag, and tags the task objects
  pub parse_batch-IsOpen :
      (parse : Text → Option (Task S)) (raw : List (ℕ × Text)) (c : Channel) (held : List ℕ)
      → IsOpen c (tags raw ++ held)
      → IsOpen (parse_batch parse raw c).1 (msg_tags (parse_batch parse raw c).0 ++ held)
        × IsTagged (parse_batch parse raw c).0
  unfolding parse_batch
  parse_batch-IsOpen parse [] c held h = (h, tt)
  parse_batch-IsOpen parse ((tag, body) ∷ raw) c held h =
      parsed (parse body) (parse_batch-IsOpen parse raw)
    where
      moved : (a : ℕ) (l : List ℕ) → count a (l ++ (tag ∷ held)) ≤ count a (tag ∷ (l ++ held))
      moved a l = ground (arith, count-append a l held, count-append a l (tag ∷ held))

      back : (a : ℕ) (l : List ℕ) → count a (tag ∷ (l ++ held)) ≤ count a (l ++ (tag ∷ held))
      back a l = ground (arith, count-append a l held, count-append a l (tag ∷ held))

      parsed :
          (o : Option (Task S))
          → ((c : Channel) (held : List ℕ)
              → IsOpen c (tags raw ++ held)
              → IsOpen (parse_batch parse raw c).1 (msg_tags (parse_batch parse raw c).0 ++ held)
                × IsTagged (parse_batch parse raw c).0)
          → IsOpen
              (add_parsed tag o (parse_batch parse raw (discard tag o c))).1
              (msg_tags (add_parsed tag o (parse_batch parse raw (discard tag o c))).0 ++ held)
            × IsTagged (add_parsed tag o (parse_batch parse raw (discard tag o c))).0
      parsed none rest = rest (nack tag c) held (nack-IsOpen tag c (tags raw ++ held) h)
      parsed (some t) rest =
          let (opened, tagged) =
            rest c (tag ∷ held) (IsOpen-counts _ _ (λ a. moved a (tags raw)) h) in
          (
            IsOpen-counts _ _ (λ a. back a (msg_tags (parse_batch parse raw c).0)) opened,
            (as_object-Tagged tag t, tagged),
          )

  -- the two loops that settle the reported messages
  pub ack_all-IsOpen :
      (msgs : List (WorkerMessage S)) (c : Channel) (held : List ℕ)
      → IsOpen c (msg_tags msgs ++ held)
      → IsOpen (ack_all msgs c) held
  ack_all-IsOpen [] c held h = h
  ack_all-IsOpen (m ∷ msgs) c held h =
      ack_all-IsOpen msgs (ack m.delivery_tag c) held (ack-IsOpen m.delivery_tag c _ h)

  pub nack_all-IsOpen :
      (msgs : List (WorkerMessage S)) (c : Channel) (held : List ℕ)
      → IsOpen c (msg_tags msgs ++ held)
      → IsOpen (nack_all msgs c) held
  nack_all-IsOpen [] c held h = h
  nack_all-IsOpen (m ∷ msgs) c held h =
      nack_all-IsOpen msgs (nack m.delivery_tag c) held (nack-IsOpen m.delivery_tag c _ h)

  -- no tag stands more often in the two reports than in the batch
  abbrev pub Within : List (WorkerMessage S) → Reports S → Type 0
  Within batch r =
      (a : ℕ) → count a (msg_tags r.0) + count a (msg_tags r.1) ≤ count a (msg_tags batch)

  add_report-Within :
      (b : Bool) (m : WorkerMessage S) (batch : List (WorkerMessage S)) (r : Reports S)
      → Within batch r
      → Within (m ∷ batch) (add_report b m r)
  add_report-Within true m batch r h a = ground (arith, h a)
  add_report-Within false m batch r h a = ground (arith, h a)

  with_ident-count :
      (a i : ℕ) (msgs : List (WorkerMessage S))
      → IsTagged msgs
      → count a (msg_tags (with_ident i msgs)) ≤ count a (i ∷ [])
  with_ident-count a i [] h = omega arith
  with_ident-count a i (m ∷ msgs) h = by_task m.task h.0 (with_ident-count a i msgs h.1)
    where
      by_task :
          (t : Task S)
          → Tagged t m.delivery_tag
          → count a (msg_tags (with_ident i msgs)) ≤ count a (i ∷ [])
          → count a (msg_tags (if has_ident i t then m ∷ [] else with_ident i msgs))
            ≤ count a (i ∷ [])
      by_task (embed_task t) e rest = ground arith
      by_task (chunk_task t) e rest = rest
      by_task infer_task e rest = rest
      by_task (search_run_task t) e rest = rest
      by_task (search_rank_task t) e rest = rest
      by_task (search_finalize_task t) e rest = rest

  map_tags-append :
      (a : ℕ) (xs ys : List (WorkerMessage S))
      → count a (msg_tags (xs ++ ys)) ≡ count a (msg_tags xs) + count a (msg_tags ys)
  map_tags-append a [] ys = omega arith
  map_tags-append a (x ∷ xs) ys = ground (arith, map_tags-append a xs ys)

  messages_of-count :
      (a : ℕ) (tasks : List EmbedTask) (msgs : List (WorkerMessage S))
      → IsTagged msgs
      → count a (msg_tags (messages_of tasks msgs)) ≤ count a (task_idents tasks)
  messages_of-count a [] msgs h = omega arith
  messages_of-count a (t ∷ tasks) msgs h =
      let one = with_ident-count a t.ident msgs h in
      let more = messages_of-count a tasks msgs h in
      let both = map_tags-append a (with_ident t.ident msgs) (messages_of tasks msgs) in
      ground (arith, one, more, both)

  embed_tasks-count :
      (a : ℕ) (msgs : List (WorkerMessage S))
      → IsTagged msgs
      → count a (task_idents (embed_tasks msgs)) ≤ count a (msg_tags msgs)
  embed_tasks-count a [] h = omega arith
  embed_tasks-count a (m ∷ msgs) h = by_task m.task h.0 (embed_tasks-count a msgs h.1)
    where
      by_task :
          (t : Task S)
          → Tagged t m.delivery_tag
          → count a (task_idents (embed_tasks msgs)) ≤ count a (msg_tags msgs)
          → count a (task_idents (add_embed_task t (embed_tasks msgs)))
            ≤ count a (m.delivery_tag ∷ msg_tags msgs)
      by_task (embed_task t) e rest = ground arith
      by_task (chunk_task t) e rest = ground arith
      by_task infer_task e rest = ground arith
      by_task (search_run_task t) e rest = ground arith
      by_task (search_rank_task t) e rest = ground arith
      by_task (search_finalize_task t) e rest = ground arith

  -- a message is a chunk message or a query message, never both
  pub split-count :
      (a : ℕ) (l : List (WorkerMessage S))
      → count a (msg_tags (keep (λ m. is_query m.task) l))
          + count a (msg_tags (keep (λ m. is_chunk m.task) l))
        ≤ count a (msg_tags l)
  split-count a [] = omega arith
  split-count a (m ∷ l) =
      by_task (is_query m.task) (is_chunk m.task) (apart m.task) (split-count a l)
    where
      apart : (t : Task S) → is_query t ≡ true → is_chunk t ≡ false
      apart (embed_task t) h = ground arith
      apart (chunk_task t) h = cc
      apart infer_task h = cc
      apart (search_run_task t) h = cc
      apart (search_rank_task t) h = cc
      apart (search_finalize_task t) h = cc

      by_task :
          (q c : Bool)
          → (q ≡ true → c ≡ false)
          → count a (msg_tags (keep (λ m. is_query m.task) l))
              + count a (msg_tags (keep (λ m. is_chunk m.task) l))
            ≤ count a (msg_tags l)
          → count a (
                msg_tags
                  (if q then m ∷ keep (λ m. is_query m.task) l else keep (λ m. is_query m.task) l))
              + count a (
                  msg_tags (
                    if c then m ∷ keep (λ m. is_chunk m.task) l else keep (λ m. is_chunk m.task) l))
            ≤ count a (m.delivery_tag ∷ msg_tags l)
      by_task true true h rest = cc (h refl)
      by_task true false h rest = ground arith
      by_task false true h rest = ground arith
      by_task false false h rest = ground arith

module _ {S M W : Type 0} (h : Handlers S M W) (law : Settles h) where
  pub rerank-Within :
      (batch : List (WorkerMessage S)) (n : Text) (m : M) (w : W) {r : Reports S}
      → (process_rerank_batch h batch n m w).0 ≡ returned r
      → Within batch r
  unfolding process_rerank_batch
  rerank-Within [] n m w e = λ a. ground arith
  rerank-Within (msg ∷ batch) n m w {r} e =
      let (b, e1, h1) = >>=-eq-returned (rank_one h h.rerank msg.task n m) _ w e in
      let (rest, e2, h2) =
        >>=-eq-returned (process_rerank_batch h batch n m) _ (rank_one h h.rerank msg.task n m w).1
          h1 in
      let same : r ≡ add_report b msg rest = cc in
      subst (Within (msg ∷ batch)) (sym same) (
        add_report-Within b msg batch rest
          (rerank-Within batch n m (rank_one h h.rerank msg.task n m w).1 e2))

  pub queries-Within :
      (batch : List (WorkerMessage S)) (n : Text) (m : M) (w : W) {r : Reports S}
      → (process_queries h batch n m w).0 ≡ returned r
      → Within batch r
  unfolding process_queries
  queries-Within [] n m w e = λ a. ground arith
  queries-Within (msg ∷ batch) n m w {r} e =
      let (b, e1, h1) = >>=-eq-returned (query_one h msg.task n m) _ w e in
      let (rest, e2, h2) =
        >>=-eq-returned (process_queries h batch n m) _ (query_one h msg.task n m w).1 h1 in
      let same : r ≡ add_report b msg rest = cc in
      subst (Within (msg ∷ batch)) (sym same) (
        add_report-Within b msg batch rest
          (queries-Within batch n m (query_one h msg.task n m w).1 e2))

  -- the reports of the queries and of the chunk messages together
  pub chunks-Within :
      (msgs : List (WorkerMessage S)) (q : Reports S) (n : Text) (m : M) (w : W) {r : Reports S}
      → IsTagged msgs
      → ((a : ℕ) → count a (msg_tags msgs) ≤ 1)
      → (process_chunks h msgs q n m w).0 ≡ returned r
      → (a : ℕ)
      → count a (msg_tags r.0) + count a (msg_tags r.1)
        ≤ count a (msg_tags q.0) + count a (msg_tags q.1) + count a (msg_tags msgs)
  chunks-Within [] q n m w {r} t u e a = let same : r ≡ q = cc in rw same (omega arith)
  chunks-Within (msg ∷ msgs) q n m w {r} t u e a =
      let tasks : List EmbedTask = embed_tasks (msg ∷ msgs) in
      let (x, e1, h1) = >>=-eq-returned (h.embed_chunks tasks n m) _ w e in
      let same : r ≡ extend q (msg ∷ msgs) x = cc in
      let once : (b : ℕ) → count b (task_idents tasks) ≤ 1 =
        λ b. omega (arith, embed_tasks-count b (msg ∷ msgs) t, u b) in
      rw same (
        omega (
          arith,
          map_tags-append a q.0 (messages_of x.0 (msg ∷ msgs)),
          map_tags-append a q.1 (messages_of x.1 (msg ∷ msgs)),
          messages_of-count a x.0 (msg ∷ msgs) t,
          messages_of-count a x.1 (msg ∷ msgs) t,
          embed_tasks-count a (msg ∷ msgs) t,
          law.reports tasks n m w once e1 a,
        ))
