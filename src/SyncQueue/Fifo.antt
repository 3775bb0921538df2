-- ===== src/SyncQueue/Fifo.antt =====
-- What holds of a queue of utils/sync_queue.c in every state that its threads can reach.
use destor_lt.Prelude.{
  ℕ, ◌-◌, ◌≤◌, ◌<◌, ◌≡◌, refl, sym, ap, ◌∙◌, true, false, some, List, [], ◌∷◌, ◌++◌, arith, length,
  length-append, append_assoc, append-nil, ℤ, pos, negsuc, List-cases, inl, inr, Bool-cases,
  if◌then◌else◌,
}
use destor_lt.Queue.{queue_new, queue_push, queue_pop, queue_size}
use destor_lt.SyncQueue.{
  SyncQueue, Outcome, waits, ends, crashes, gives, sync_queue_new, sync_queue_push, sync_queue_pop,
  sync_queue_term, System, Step, refuse_push, start_push, finish_push, pop, terminate, Reach, here,
  next, start,
}

abbrev pub IsWithin : ℕ → ℤ → Type 0
IsWithin size (pos max_size) = 0 < max_size → size ≤ max_size
IsWithin size (negsuc n) = Unit {0}

-- The number is that of the elements, within a positive maximum, and the items leave in the order in
-- which they entered.
pub record IsFifo {ℓ} {A : Type ℓ} (s : System A) : Type ℓ where
  pub counted : s.s_queue.queue.elem_num ≡ length s.s_queue.queue.elems
  pub within : IsWithin s.s_queue.queue.elem_num s.s_queue.max_size
  pub ordered : s.pushed ≡ s.popped ++ s.s_queue.queue.elems

module _ {ℓ} {A : Type ℓ} where
  push-IsWithin :
      (s : System A) (item : A) (q : SyncQueue A)
      → sync_queue_push s.s_queue item ≡ some q
      → IsFifo s
      → IsWithin q.queue.elem_num q.max_size
  unfolding sync_queue_push queue_push queue_size
  push-IsWithin s item q e v = ground (arith, v.within)

  push-IsFifo :
      (s : System A) (waiting : List A) (item : A) (q : SyncQueue A)
      → sync_queue_push s.s_queue item ≡ some q
      → IsFifo s
      → IsFifo (record s { s_queue = q; waiting = waiting; pushed = s.pushed ++ item ∷ [] })
  unfolding sync_queue_push queue_push queue_size
  push-IsFifo s waiting item q e v = record {
    counted = ground (arith, v.counted, length-append s.s_queue.queue.elems (item ∷ []));
    within = push-IsWithin s item q e v;
    ordered =
        let entered : q.queue.elems ≡ s.s_queue.queue.elems ++ item ∷ [] = ground arith in
        rw (entered, v.ordered) (append_assoc s.popped s.s_queue.queue.elems (item ∷ []));
  }

  pub pop-IsFifo :
      (s : System A) (item : A) (q : SyncQueue A)
      → sync_queue_pop s.s_queue ≡ gives item q
      → IsFifo s
      → IsFifo (record s { s_queue = q; popped = s.popped ++ item ∷ [] })
  unfolding sync_queue_pop queue_pop queue_size
  pop-IsFifo s item q e v = elim (List-cases s.s_queue.queue.elems) [
    | inl none_there ↦ ground (arith, v.counted)
    | inr (x, rest, cons) ↦
        let first : item ≡ x = ground (arith, v.counted) in
        let left : q.queue.elems ≡ rest = ground (arith, v.counted) in
        record {
          counted = ground (arith, v.counted);
          within = ground (arith, v.within, v.counted);
          ordered = rw (left, first, append_assoc s.popped (x ∷ []) rest, ← cons) (v.ordered);
        }
  ]

  pub Step-IsFifo : {s t : System A} → Step s t → IsFifo s → IsFifo t
  unfolding sync_queue_term
  Step-IsFifo (refuse_push s item e) v = v
  Step-IsFifo (start_push s item e) v = record {
    counted = v.counted;
    within = v.within;
    ordered = v.ordered;
  }
  Step-IsFifo (finish_push s before after item q at e) v =
      push-IsFifo s (before ++ after) item q e v
  Step-IsFifo (pop s item q e) v = pop-IsFifo s item q e v
  Step-IsFifo (terminate s) v = record {
    counted = v.counted;
    within = v.within;
    ordered = v.ordered;
  }

  start-IsFifo : (size : ℤ) → IsFifo (start {A = A} size)
  unfolding sync_queue_new queue_new
  start-IsFifo (pos n) = record { counted = refl; within = λ h. omega arith; ordered = refl }
  start-IsFifo (negsuc n) = record { counted = refl; within = tt; ordered = refl }

  -- In every state that threads reach from a new queue, however their calls interleave, the queue
  -- counts its elements, holds no more than a positive maximum, and hands the items out in the order
  -- in which they entered.
  pub Reach-IsFifo : (size : ℤ) {s : System A} → Reach (start size) s → IsFifo s
  Reach-IsFifo size here = start-IsFifo size
  Reach-IsFifo size (next r step) = Step-IsFifo step (Reach-IsFifo size r)

  -- What a pop does in such a state.
  abbrev pub PopOf : System A → Outcome A → Type ℓ
  PopOf s waits = (s.s_queue.queue.elems ≡ []) × (s.s_queue.term ≡ false)
  PopOf s ends = (s.popped ≡ s.pushed) × (s.s_queue.term ≡ true)
  PopOf s crashes = ⊥ × (s.popped ≡ s.pushed)
  PopOf s (gives item q) = s.s_queue.queue.elems ≡ item ∷ q.queue.elems

  pub pop_empty :
      (q : SyncQueue A) → q.queue.elem_num ≡ 0 → sync_queue_pop q ≡ (if q.term then ends else waits)
  unfolding sync_queue_pop queue_size
  pop_empty q none_left = ground (arith, none_left)

  pub pop_first :
      (q : SyncQueue A) (item : A) (rest : List A)
      → q.queue.elem_num ≡ length q.queue.elems
      → q.queue.elems ≡ item ∷ rest
      → sync_queue_pop q
        ≡ gives item (record q { queue = record { elems = rest; elem_num = q.queue.elem_num - 1 } })
  unfolding sync_queue_pop queue_pop queue_size
  pop_first q item rest counted cons = ground (arith, counted, cons)

  pop-PopOf : (s : System A) → IsFifo s → PopOf s (sync_queue_pop s.s_queue)
  pop-PopOf s v = elim (List-cases s.s_queue.queue.elems) [
    | inl none_there ↦
        let e = pop_empty s.s_queue (v.counted ∙ ap length none_there) in
        let all_out : s.popped ≡ s.pushed =
          sym (v.ordered ∙ ap (λ l. s.popped ++ l) none_there ∙ append-nil s.popped) in
        elim (Bool-cases s.s_queue.term) [
          | inl over ↦ rw (e, over) (all_out, refl)
          | inr running ↦ rw (e, running) (none_there, refl)
        ]
    | inr (x, rest, cons) ↦ rw (pop_first s.s_queue x rest v.counted cons) cons
  ]

  -- In every state that threads reach from a new queue a pop never dereferences NULL. It waits only
  -- while the queue is empty and not terminated, and otherwise gives the first item; it returns NULL
  -- only once the queue is terminated and every item that entered has been popped.
  pub pop-reached :
      (size : ℤ) {s : System A} → Reach (start size) s → PopOf s (sync_queue_pop s.s_queue)
  pop-reached size {s} r = pop-PopOf s (Reach-IsFifo size r)
