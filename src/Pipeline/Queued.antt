-- ===== src/Pipeline/Queued.antt =====
-- The deduplication phase on a segment: each chunk is looked up and enters the index buffer.
use destor_lt.Prelude.{
  ℕ, suc, ◌≤◌, ◌<◌, ◌≡◌, refl, subst, sym, ◌∙◌, ap, arith, true, false, not, Option, List, [], ◌∷◌,
  ◌++◌, if◌then◌else◌, ◌==◌, Bool-cases, List-cases, inl, inr, length, All-append, Distinct,
  insert-Distinct, length-append,
}
use destor_lt.Chunk.{Chunk, ContainerId, is_file_signal}
use destor_lt.Storage.Container.{Container}
use destor_lt.Index.{IndexElem, IndexBuffer, queue_of, push_elem, is_temporary}
use destor_lt.Index.Counts.{
  count, total, count-append, total-append, head_id, has_id, queue_of-push_elem,
}
use destor_lt.Index.Order.{
  is_duplicate, Ready-mono, Ready-snoc, passes-cases, learns-Ready, learns_mono,
}
use destor_lt.Judge.Located.{containers_of, open_has, IsLocated, capacity}
use destor_lt.Judge.Loop.{passes, learns, Ready, IsReady, IsPlaced}
use destor_lt.Pipeline.Buffered.{Buffered}
use destor_lt.Pipeline.Seen.{Seen}

head_id-append :
    (q : List IndexElem) (e : IndexElem) → 0 < length q → head_id (q ++ e ∷ []) ≡ head_id q
head_id-append [] e h = absurd (ground (arith, h))
head_id-append (x ∷ q) e h = refl

-- A signal goes by.
pub signal-Buffered :
    (o : Option Container) (w : List Container) (b : IndexBuffer) (p : List Chunk) (c : Chunk)
    → Buffered o w b p
    → is_file_signal c ≡ true
    → IsPlaced (containers_of o w) c
    → Buffered o w b (p ++ c ∷ [])
unfolding count total
signal-Buffered o w b p c u signal place = record {
  counted = λ fp. ground (arith, u.counted fp, count-append fp p (c ∷ []), signal);
  all_counted = ground (arith, u.all_counted, total-append p (c ∷ []), signal);
  distinct = u.distinct;
  heads = u.heads;
  placed = All-append _ p (c ∷ []) u.placed (place, tt);
  ready =
      Ready-snoc is_duplicate p c (open_has o) (has_id b) u.ready
        (λ normal. absurd (ground (arith, signal, normal)));
}

module _ (o : Option Container) (w : List Container) (b : IndexBuffer) (p : List Chunk)
    (c c' : Chunk) (u : Buffered o w b p) (s : Seen o (containers_of o w) (queue_of c.fp b) c c')
    (normal : is_file_signal c ≡ false) where
  pushed_queue :
      (fp : ℕ)
      → queue_of fp (push_elem c' b) ≡ (
          if c.fp == fp
          then queue_of c.fp b ++ record { id = c'.id; fp = c'.fp } ∷ []
          else queue_of fp b)
  pushed_queue fp = queue_of-push_elem c' b fp ∙ rw (s.fp) refl

  pushed_head :
      (fp : ℕ)
      → 0 < length (queue_of fp b)
      → head_id (queue_of fp (push_elem c' b)) ≡ head_id (queue_of fp b)
  pushed_head fp h = ap head_id (pushed_queue fp) ∙ (elim (Bool-cases (c.fp == fp)) [
    | inl it ↦
        let same : c.fp ≡ fp = ground (arith, it) in
        rw (it, same) (head_id-append (queue_of fp b) (record { id = c'.id; fp = c'.fp }) h)
    | inr other ↦ rw (other) refl
  ])

  still-Ready : Ready is_duplicate (open_has o) (has_id (push_elem c' b)) p
  still-Ready =
      Ready-mono is_duplicate p (open_has o) (has_id b) (open_has o) (has_id (push_elem c' b))
        (λ fp n h. h)
        (λ fp n h.
          ap (λ (i : ContainerId). not (is_temporary i))
            (pushed_head fp (omega (arith, n, u.counted fp)))
          ∙ h)
        u.ready

  -- The first of a fingerprint has its id in the queue's head.
  first_head : queue_of c.fp b ≡ [] → head_id (queue_of c.fp (push_elem c' b)) ≡ c'.id
  first_head empty = ap head_id (pushed_queue c.fp) ∙ ground (arith, empty)

  unseen : c'.flag.duplicate ≡ false → passes p (open_has o) c.fp ≡ false
  unseen d =
      let (not_open, empty) = s.unique d in
      let none_left : length (queue_of c.fp b) ≡ 0 = ap length empty in
      elim (Bool-cases (passes p (open_has o) c.fp)) [
        | inl h ↦ elim (passes-cases p (open_has o) c.fp h) [
          | inl there ↦ absurd (ground (arith, there, not_open))
          | inr n ↦ absurd (omega (arith, n, u.counted c.fp, none_left))
        ]
        | inr h ↦ h
      ]

  learnt : c'.flag.duplicate ≡ true → learns p (has_id (push_elem c' b)) c.fp ≡ true
  learnt d = elim (List-cases (queue_of c.fp b)) [
    | inl empty ↦ learns_mono p (has_id (push_elem c' b)) c.fp (
        ap (λ (i : ContainerId). not (is_temporary i)) (first_head empty)
        ∙ ap not (s.named d empty))
    | inr (e, q, some_left) ↦
        let many : length (queue_of c.fp b) ≡ suc (length q) = ap length some_left in
        learns-Ready p (open_has o) (has_id (push_elem c' b)) c.fp still-Ready
          (omega (arith, u.counted c.fp, many))
  ]

  pushed-IsReady :
      IsReady is_duplicate (passes p (open_has o)) (learns p (has_id (push_elem c' b))) c'
  pushed-IsReady m = (
    λ d. rw (s.fp) (unseen d),
    λ d. subst (λ (j : ℕ). learns p (has_id (push_elem c' b)) j ≡ true) (sym s.fp) (learnt d),
  )

  pushed_count : (fp : ℕ) → length (queue_of fp (push_elem c' b)) ≡ count fp (p ++ c' ∷ [])
  unfolding count
  pushed_count fp = ap length (pushed_queue fp) ∙ (elim (Bool-cases (c.fp == fp)) [
    | inl it ↦
        let same : c.fp ≡ fp = ground (arith, it) in
        let one : count fp (c' ∷ []) ≡ 1 = ground (arith, s.fp, s.signal, normal, it) in
        rw (it) (
          omega (
            arith,
            one,
            length-append (queue_of c.fp b) (record { id = c'.id; fp = c'.fp } ∷ []),
            subst (λ (j : ℕ). length (queue_of c.fp b) ≡ count j p) same (u.counted c.fp),
            count-append fp p (c' ∷ []),
          ))
    | inr other ↦
        let zero_more : count fp (c' ∷ []) ≡ 0 = ground (arith, s.fp, other) in
        rw (other) (omega (arith, zero_more, u.counted fp, count-append fp p (c' ∷ [])))
  ])

  pushed-Heads :
      (fp : ℕ) → IsLocated (containers_of o w) fp (head_id (queue_of fp (push_elem c' b)))
  pushed-Heads fp = elim (List-cases (queue_of fp b)) [
    | inr (e, q, some_left) ↦
        let many : length (queue_of fp b) ≡ suc (length q) = ap length some_left in
        subst (IsLocated (containers_of o w) fp) (sym (pushed_head fp (omega (arith, many))))
          (u.heads fp)
    | inl empty ↦ elim (Bool-cases (c.fp == fp)) [
      | inl it ↦
          let same : c.fp ≡ fp = ground (arith, it) in
          subst (λ (j : ℕ). IsLocated (containers_of o w) j (head_id (queue_of j (push_elem c' b))))
            same
            (subst (IsLocated (containers_of o w) c.fp) (sym (first_head (rw (same) empty)))
              s.place)
      | inr other ↦
          let same : queue_of fp (push_elem c' b) ≡ queue_of fp b =
            pushed_queue fp ∙ rw (other) refl in
          subst (λ (q : List IndexElem). IsLocated (containers_of o w) fp (head_id q)) (sym same)
            (u.heads fp)
    ]
  ]

  push_total : (push_elem c' b).chunk_num ≡ total (p ++ c' ∷ [])
  unfolding push_elem total
  push_total = ground (arith, u.all_counted, total-append p (c' ∷ []), s.signal, normal)

  push-Distinct : Distinct (push_elem c' b).buffered_fingerprints
  unfolding push_elem
  push-Distinct =
      insert-Distinct c'.fp (queue_of c'.fp b ++ record { id = c'.id; fp = c'.fp } ∷ [])
        b.buffered_fingerprints u.distinct

  pub push-Buffered : c.size ≤ capacity → Buffered o w (push_elem c' b) (p ++ c' ∷ [])
  push-Buffered fits = record {
    counted = pushed_count;
    all_counted = push_total;
    distinct = push-Distinct;
    heads = pushed-Heads;
    placed = All-append _ p (c' ∷ []) u.placed ((rw (s.size) fits, rw (s.fp) s.place), tt);
    ready =
        Ready-snoc is_duplicate p c' (open_has o) (has_id (push_elem c' b)) still-Ready
          pushed-IsReady;
  }
