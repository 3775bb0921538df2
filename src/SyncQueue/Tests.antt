-- ===== src/SyncQueue/Tests.antt =====
-- A queue of utils/sync_queue.c with room for one item.
use destor_lt.Prelude.{ℕ, ◌≡◌, refl, false, none, [], ◌∷◌, pos}
use destor_lt.Queue.{queue_new, queue_push, queue_pop, queue_top, queue_size}
use destor_lt.SyncQueue.{
  SyncQueue, ends, gives, sync_queue_new, sync_queue_push, sync_queue_pop, sync_queue_get_top,
  sync_queue_term, System, start_push, finish_push, Reach, here, next, start,
}
use destor_lt.SyncQueue.Fifo.{IsFifo, Reach-IsFifo, PopOf, pop-reached}

program : Unit {0}
unfolding queue_new queue_push queue_pop queue_top queue_size sync_queue_new sync_queue_push
    sync_queue_pop sync_queue_get_top sync_queue_term
program = tt

abbrev one_item : SyncQueue ℕ
one_item = record {
  term = false;
  max_size = pos 1;
  queue = record { elems = 7 ∷ []; elem_num = 1 };
}

waits_for_room : sync_queue_push one_item 8 ≡ none
unfolding program
waits_for_room = refl

shows_first : sync_queue_get_top one_item ≡ gives 7 one_item
unfolding program
shows_first = refl

ends_when_empty : sync_queue_pop (sync_queue_term (sync_queue_new {A = ℕ} (pos 1))) ≡ ends
unfolding program
ends_when_empty = refl

abbrev waiting_state : System ℕ
waiting_state = record (start (pos 1)) { waiting = 7 ∷ [] }

abbrev pushed_state : System ℕ
pushed_state = record { s_queue = one_item; waiting = []; pushed = 7 ∷ []; popped = [] }

pushes : Reach (start (pos 1)) pushed_state
unfolding program
pushes =
    next (next here (start_push (start (pos 1)) 7 refl))
      (finish_push waiting_state [] [] 7 one_item refl refl)

Reach-IsFifo_example : IsFifo pushed_state
Reach-IsFifo_example = Reach-IsFifo (pos 1) pushes

pop-reached_example : PopOf pushed_state (sync_queue_pop one_item)
pop-reached_example = pop-reached (pos 1) pushes
