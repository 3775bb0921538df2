-- ===== src/Queue.antt =====
-- The queue of destor-master/src/utils/queue.c: the linked elements from `first` on, and their number.
use destor_lt.Prelude.{ℕ, ◌+◌, ◌-◌, Option, none, some, List, [], ◌∷◌, ◌++◌, ◌==◌, if◌then◌else◌}

pub record Queue {ℓ} (A : Type ℓ) : Type ℓ where
  pub elems : List A
  pub elem_num : ℕ

module _ {ℓ} {A : Type ℓ} where
  unfoldable pub queue_new : Queue A
  queue_new = record { elems = []; elem_num = 0 }

  unfoldable pub queue_push : Queue A → A → Queue A
  queue_push queue element = record {
    elems = queue.elems ++ element ∷ [];
    elem_num = queue.elem_num + 1;
  }

  -- The element, or `none` for NULL, and the queue; the outer `none` is the dereference of a NULL
  -- `first`, here and below.
  unfoldable pub queue_pop : Queue A → Option (Option A × Queue A)
  queue_pop queue = if queue.elem_num == 0 then some (none, queue) else elim queue.elems [
    | [] ↦ none
    | x ∷ rest ↦ some (some x, record { elems = rest; elem_num = queue.elem_num - 1 })
  ]

  unfoldable pub queue_top : Queue A → Option (Option A)
  queue_top queue =
      if queue.elem_num == 0
      then some none
      else elim queue.elems [ [] ↦ none | x ∷ _ ↦ some (some x) ]

  unfoldable pub queue_size : Queue A → ℕ
  queue_size queue = queue.elem_num
