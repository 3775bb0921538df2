-- ===== src/Pipeline/Tests.antt =====
-- A run of the phases, with an index that knows every container that was handed over.
use destor_lt.Prelude.{
  ℕ, ◌≡◌, refl, arith, Bool, true, false, Option, none, some, List, [], ◌∷◌, length, All, pos,
  lookup, insert, remove, map,
}
use destor_lt.Chunk.{Chunk, ContainerId, new_chunk}
use destor_lt.Lru.{new_lru_cache, lru_cache_lookup, lru_cache_insert, unlink_first}
use destor_lt.RestoreAware.{
  init_restore_aware, restore_aware_update, restore_aware_contains, restore_aware_get_cfl,
}
use destor_lt.Storage.Container.{
  Container, create_container, init_container_meta, add_chunk_to_container, container_overflow,
  lookup_fingerprint_in_container, lookup_fingerprint_in_container_meta,
}
use destor_lt.Index.{
  IndexBuffer, empty_buffer, queue_of, is_full, reaches, index_check_buffer, check_buffer_chunk,
  check_elem, gt_id, pop_elem, update_chunk, index_update_chunks, index_update_buffer,
}
use destor_lt.Index.Counts.{count, total}
use destor_lt.Judge.{
  Filter, flag_cached, switch_rewrite, settle_copy, deny_for, deny_rewritten, is_written,
  index_container, hand_over, open_container, current_container, make_room, take_container,
  count_added, take_added, put_chunk, is_writable, store_chunk, monitor_id, monitor_stored,
  judge_settled, judge_chunk, judge_chunks, filter_segment, finish_filter,
}
use destor_lt.Judge.Located.{located}
use destor_lt.Judge.Room.{all_of}
use destor_lt.Judge.Loop.{AllKept, IsNamed}
use destor_lt.Pipeline.Runs.{System, chunks_of, looked_up, filtered, Step, Reach}
use destor_lt.Pipeline.Correct.{
  Reached, filter_segment-reached, index_buffer-reached, finish_filter-reached,
}
use destor_lt.Pipeline.Example.{
  known_backend, known_promises, config, inputs, start_state, looked, looked_index, looks,
}

abbrev waiting : System (List Container)
waiting = record {
  pending = looked ∷ [];
  buffer = looked_index.buffer;
  marks = looked_index.marks;
  lookup_requests = 0;
  lookup_requests_for_unique = 2;
  filter = start_state.filter;
}

-- After one lookup the segment waits.
waits : Reached known_backend known_promises (λ l. l) config 0 (pos 10) (pos 2) [] 0 [] waiting
unfolding looked_up is_full empty_buffer new_chunk
waits = Reach.steps Reach.at_start (
    Step.looks_up start_state inputs looked looked_index
      (
        ((refl, refl), omega arith),
        (((refl, refl), omega arith), (((refl, refl), omega arith), tt)),
      )
      refl looks)

known_sound : known_promises.IsSound [] []
unfolding known_promises
known_sound = refl

filter_segment-reached_example :
    (s' : List Chunk) × (b : IndexBuffer) × (f : Filter (List Container)) × (filter_segment
        known_backend
        (λ l. l)
        config
        (pos 10)
        looked
        waiting.buffer
        waiting.filter
      ≡ some (s', b, reaches b.chunk_num (pos 10), f))
    × AllKept looked s'
    × All (IsNamed (all_of f)) s'
filter_segment-reached_example =
    filter_segment-reached known_backend known_promises (λ l. l) config 0 (pos 10) (pos 2) [] 0 []
      waiting looked [] refl known_sound waits refl

index_buffer-reached_example :
    (waiting.buffer.chunk_num ≡ total (chunks_of waiting.pending))
    × ((fp : ℕ) → length (queue_of fp waiting.buffer) ≡ count fp (chunks_of waiting.pending))
index_buffer-reached_example =
    index_buffer-reached known_backend known_promises (λ l. l) config 0 (pos 10) (pos 2) [] 0 []
      waiting refl known_sound waits

-- What the filter phase writes of that segment: both fingerprints, in container 0.
abbrev outcome : Option (List Chunk × IndexBuffer × Bool × Filter (List Container))
outcome = filter_segment known_backend (λ l. l) config (pos 10) looked waiting.buffer waiting.filter

abbrev ids_of :
    Option (List Chunk × IndexBuffer × Bool × Filter (List Container)) → List ContainerId
ids_of none = []
ids_of (some (s, b, full, f)) = map (λ c. c.id) s

ids : ids_of outcome ≡ some 0 ∷ some 0 ∷ some 0 ∷ []
unfolding filter_segment index_check_buffer check_buffer_chunk check_elem gt_id judge_chunks
    judge_chunk judge_settled settle_copy flag_cached switch_rewrite deny_rewritten deny_for
    is_written is_writable store_chunk put_chunk take_added take_container current_container
    open_container make_room hand_over index_container count_added monitor_stored monitor_id
    index_update_buffer index_update_chunks update_chunk pop_elem queue_of create_container
    init_container_meta container_overflow add_chunk_to_container lookup insert remove
    restore_aware_update restore_aware_contains init_restore_aware new_lru_cache lru_cache_lookup
    lru_cache_insert unlink_first new_chunk restore_aware_get_cfl
ids = refl

abbrev result :
    Option (List Chunk × IndexBuffer × Bool × Filter (List Container))
    → List Chunk × IndexBuffer × Bool × Filter (List Container)
result none = ([], empty_buffer, false, start_state.filter)
result (some r) = r

filters :
    outcome ≡ some ((result outcome).0, (result outcome).1, (result outcome).2, (result outcome).3)
unfolding filter_segment index_check_buffer check_buffer_chunk check_elem gt_id judge_chunks
    judge_chunk judge_settled settle_copy flag_cached switch_rewrite deny_rewritten deny_for
    is_written is_writable store_chunk put_chunk take_added take_container current_container
    open_container make_room hand_over index_container count_added monitor_stored monitor_id
    index_update_buffer index_update_chunks update_chunk pop_elem queue_of create_container
    init_container_meta container_overflow add_chunk_to_container lookup insert remove
    restore_aware_update restore_aware_contains init_restore_aware new_lru_cache lru_cache_lookup
    lru_cache_insert unlink_first new_chunk restore_aware_get_cfl
filters = refl

abbrev filtered_state : System (List Container)
filtered_state = record {
  pending = [];
  buffer = (result outcome).1;
  marks = looked_index.marks;
  lookup_requests = 0;
  lookup_requests_for_unique = 2;
  filter = (result outcome).3;
}

is_filtered :
    Reached known_backend known_promises (λ l. l) config 0 (pos 10) (pos 2) [] 0 [] filtered_state
unfolding filtered
is_filtered = Reach.steps waits (
    Step.filters waiting looked (result outcome).0 [] (result outcome).1 (result outcome).2
      (result outcome).3 refl filters)

is_located : located 0 6 (all_of filtered_state.filter) ≡ true
unfolding filter_segment index_check_buffer check_buffer_chunk check_elem gt_id judge_chunks
    judge_chunk judge_settled settle_copy flag_cached switch_rewrite deny_rewritten deny_for
    is_written is_writable store_chunk put_chunk take_added take_container current_container
    open_container make_room hand_over index_container count_added monitor_stored monitor_id
    index_update_buffer index_update_chunks update_chunk pop_elem queue_of create_container
    init_container_meta container_overflow add_chunk_to_container lookup insert remove
    restore_aware_update restore_aware_contains init_restore_aware new_lru_cache lru_cache_lookup
    lru_cache_insert unlink_first new_chunk restore_aware_get_cfl located
    lookup_fingerprint_in_container lookup_fingerprint_in_container_meta
is_located = refl

finish_filter-reached_example :
    located 0 6 (finish_filter known_backend (λ l. l) config filtered_state.filter).written ≡ true
finish_filter-reached_example =
    finish_filter-reached known_backend known_promises (λ l. l) config 0 (pos 10) (pos 2) [] 0 []
      filtered_state filtered_state 0 6 refl known_sound is_filtered Reach.at_start is_located
