-- ===== src/SyncQueue.antt =====
-- The bounded queue between two phases: destor-master/src/utils/sync_queue.c. Every call holds the
-- mutex but where it waits.
pub mod Fifo
mod Tests
use destor_lt.Prelude.{
  ℕ, Bool, true, false, not, ◌&&◌, ◌≡◌, Option, none, some, List, [], ◌∷◌, ◌++◌, ltb, leb, ◌==◌,
  if◌then◌else◌, ℤ, pos, negsuc,
}
use destor_lt.Queue.{Queue, queue_new, queue_push, queue_pop, queue_top, queue_size}

pub record SyncQueue {ℓ} (A : Type ℓ) : Type ℓ where
  pub term : Bool
  pub max_size : ℤ
  pub queue : Queue A

-- What a call that may wait does: it waits, returns NULL, crashes, or returns an element.
pub data Outcome {ℓ} (A : Type ℓ) : Type ℓ where
  waits : Outcome A
  ends : Outcome A
  crashes : Outcome A
  gives : A → SyncQueue A → Outcome A

abbrev pub is_full : ℕ → ℤ → Bool
is_full size (pos max_size) = ltb 0 max_size && leb max_size size
is_full size (negsuc n) = false

module _ {ℓ} {A : Type ℓ} where
  unfoldable pub sync_queue_new : ℤ → SyncQueue A
  sync_queue_new size = record { term = false; max_size = size; queue = queue_new }

  -- The push behind its test of `term`; `none` is the wait for room. Whoever waits does not test
  -- `term` again.
  unfoldable pub sync_queue_push : SyncQueue A → A → Option (SyncQueue A)
  sync_queue_push s_queue item =
      if is_full (queue_size s_queue.queue) s_queue.max_size
      then none
      else some (record s_queue { queue = queue_push s_queue.queue item })

  unfoldable pub sync_queue_pop : SyncQueue A → Outcome A
  sync_queue_pop s_queue =
      if queue_size s_queue.queue == 0
      then (if s_queue.term then ends else waits)
      else elim (queue_pop s_queue.queue) [
        | none ↦ crashes
        | some (none, queue) ↦ ends
        | some (some item, queue) ↦ gives item (record s_queue { queue = queue })
      ]

  unfoldable pub sync_queue_get_top : SyncQueue A → Outcome A
  sync_queue_get_top s_queue =
      if queue_size s_queue.queue == 0
      then (if s_queue.term then ends else waits)
      else elim (queue_top s_queue.queue) [
        | none ↦ crashes
        | some none ↦ ends
        | some (some item) ↦ gives item s_queue
      ]

  unfoldable pub sync_queue_term : SyncQueue A → SyncQueue A
  sync_queue_term s_queue = record s_queue { term = true }

-- The queue, the items whose push has passed the test of `term`, and, in their order, the items that
-- entered the queue and those that were popped.
pub record System {ℓ} (A : Type ℓ) : Type ℓ where
  pub s_queue : SyncQueue A
  pub waiting : List A
  pub pushed : List A
  pub popped : List A

-- One step of a thread. A push takes two, between which others may run: the test of `term`, and the
-- entry, for which it may wait.
pub data Step {ℓ} {A : Type ℓ} : System A → System A → Type ℓ where
  refuse_push : (s : System A) (item : A) → s.s_queue.term ≡ true → Step s s
  start_push :
      (s : System A) (item : A)
      → s.s_queue.term ≡ false
      → Step s (record s { waiting = item ∷ s.waiting })
  finish_push :
      (s : System A) (before after : List A) (item : A) (q : SyncQueue A)
      → s.waiting ≡ before ++ item ∷ after
      → sync_queue_push s.s_queue item ≡ some q
      → Step s (record s { s_queue = q; waiting = before ++ after; pushed = s.pushed ++ item ∷ [] })
  pop :
      (s : System A) (item : A) (q : SyncQueue A)
      → sync_queue_pop s.s_queue ≡ gives item q
      → Step s (record s { s_queue = q; popped = s.popped ++ item ∷ [] })
  terminate : (s : System A) → Step s (record s { s_queue = sync_queue_term s.s_queue })

pub data Reach {ℓ} {A : Type ℓ} (s : System A) : System A → Type ℓ where
  here : Reach s s
  next : {t u : System A} → Reach s t → Step t u → Reach s u

abbrev pub start {ℓ} : {A : Type ℓ} → ℤ → System A
start size = record { s_queue = sync_queue_new size; waiting = []; pushed = []; popped = [] }
