-- ===== src/Index.antt =====
-- The fingerprint index: destor-master/src/index/index.c and index_buffer.h.
pub mod Behind
pub mod Cache
pub mod Counts
pub mod Order
pub mod Check
pub mod Update
use destor_lt.Prelude.{
  ℕ, zero, suc, ◌+◌, ◌-◌, Bool, true, false, not, ◌&&◌, ◌||◌, Option, none, some, List, [], ◌∷◌,
  ◌++◌, ltb, leb, ◌==◌, if◌then◌else◌, lookup, insert, remove, length, map, ℤ, pos, negsuc,
}
use destor_lt.Chunk.{Chunk, ContainerId, temporary_id, eq_id, is_file_signal}
use destor_lt.Storage.Container.{Container, lookup_fingerprint_in_container}
use destor_lt.Gc.{Marks, mark_reference}
use destor_lt.Index.Behind.{Backend}

pub record IndexElem : Type 0 where
  pub id : ContainerId
  pub fp : ℕ

-- `buffered_fingerprints` maps a fingerprint to its queue, the head first.
pub record IndexBuffer : Type 0 where
  pub buffered_fingerprints : List (ℕ × List IndexElem)
  pub chunk_num : ℕ

unfoldable pub empty_buffer : IndexBuffer
empty_buffer = record { buffered_fingerprints = []; chunk_num = 0 }

-- The queue of a fingerprint; empty where the table has none.
unfoldable pub queue_of : ℕ → IndexBuffer → List IndexElem
queue_of fp b = elim (lookup fp b.buffered_fingerprints) [ none ↦ [] | some q ↦ q ]

-- What a lookup changes: the buffer, the caches and stores behind the index, the marks of the garbage
-- collection, and two counters of `index_overhead`.
pub record Index (σ : Type 0) : Type 0 where
  pub buffer : IndexBuffer
  pub behind : σ
  pub marks : Marks
  pub lookup_requests : ℕ
  pub lookup_requests_for_unique : ℕ

abbrev pub set_duplicate : Chunk → Chunk
set_duplicate c = record c { flag = record c.flag { duplicate = true } }

-- The storage buffer is asked first; `get_container_id` is the id of the container.
unfoldable pub check_storage : Option Container → Chunk → Chunk
check_storage none c = c
check_storage (some container) c =
    if lookup_fingerprint_in_container container c.fp
    then record c {
      id = container.meta.id;
      flag = record c.flag { duplicate = true; rewrite_denied = true };
    }
    else c

-- Then the fingerprints that are looked up and not updated yet.
unfoldable pub check_buffered : List IndexElem → Chunk → Chunk
check_buffered [] c = c
check_buffered (be ∷ q) c = if c.flag.duplicate then c else set_duplicate (record c { id = be.id })

-- The insertion into the buffer.
unfoldable pub push_elem : Chunk → IndexBuffer → IndexBuffer
push_elem c b = record {
  buffered_fingerprints =
      insert c.fp (queue_of c.fp b ++ record { id = c.id; fp = c.fp } ∷ []) b.buffered_fingerprints;
  chunk_num = b.chunk_num + 1;
}

module _ {σ : Type 0} (backend : Backend σ) (container_count_start : ℕ) where
  -- A chunk that the caches have under an id; `none` is a NULL that is dereferenced.
  unfoldable pub take_cached : Chunk → ℕ → Index σ → Option (Chunk × Index σ)
  take_cached c id ix =
      if ltb id container_count_start
      then elim (backend.retrieve_container_meta_by_id id ix.behind) [
        | none ↦ none
        | some cm ↦ elim (mark_reference id c.fp cm ix.marks) [
          | none ↦ none
          | some marks ↦
              some (set_duplicate (record c { id = some id }), record ix { marks = marks })
        ]
      ]
      else some (set_duplicate (record c { id = some id }), ix)

  -- What a lookup in the fingerprint cache gives.
  unfoldable pub take_found : Chunk → Index σ → Option (σ × ContainerId) → Option (Chunk × Index σ)
  take_found c ix none = none
  take_found c ix (some (behind, none)) = some (c, record ix { behind = behind })
  take_found c ix (some (behind, some id)) = take_cached c id (record ix { behind = behind })

  unfoldable pub check_cache : Chunk → Index σ → Option (Chunk × Index σ)
  check_cache c ix =
      if c.flag.duplicate
      then some (c, ix)
      else take_found c ix (backend.fingerprint_cache_lookup c.fp ix.behind)

  -- Behind the prefetching the cache is asked again.
  unfoldable pub take_prefetched : Chunk → Index σ → Option σ → Option (Chunk × Index σ)
  take_prefetched c ix none = none
  take_prefetched c ix (some behind) =
      take_found c (record ix { lookup_requests = ix.lookup_requests + 1 })
        (backend.fingerprint_cache_lookup c.fp behind)

  -- The unit of the first id is prefetched.
  unfoldable pub take_ids : Chunk → Index σ → Option (List ContainerId) → Option (Chunk × Index σ)
  take_ids c ix none =
      some (c, record ix { lookup_requests_for_unique = ix.lookup_requests_for_unique + 1 })
  take_ids c ix (some []) = none
  take_ids c ix (some (first ∷ ids)) =
      take_prefetched c ix (backend.fingerprint_cache_prefetch first ix.behind)

  unfoldable pub check_kvstore : Option (Chunk × Index σ) → Option (Chunk × Index σ)
  check_kvstore none = none
  check_kvstore (some (c, ix)) =
      if c.flag.duplicate
      then some (c, ix)
      else take_ids c ix (backend.kvstore_lookup c.fp ix.behind)

  unfoldable pub push_found : Option (Chunk × Index σ) → Option (Chunk × Index σ)
  push_found none = none
  push_found (some (c, ix)) = some (c, record ix { buffer = push_elem c ix.buffer })

  unfoldable pub lookup_chunk : Option Container → Chunk → Index σ → Option (Chunk × Index σ)
  lookup_chunk container c ix =
      if is_file_signal c
      then some (c, ix)
      else push_found (
          check_kvstore
            (check_cache (check_buffered (queue_of c.fp ix.buffer) (check_storage container c)) ix))

  unfoldable pub index_lookup_base :
      Option Container → List Chunk → Index σ → Option (List Chunk × Index σ)
  index_lookup_base container [] ix = some ([], ix)
  index_lookup_base container (c ∷ cs) ix = elim (lookup_chunk container c ix) [
    | none ↦ none
    | some (c', ix') ↦ elim (index_lookup_base container cs ix') [
      | none ↦ none
      | some (cs', ix'') ↦ some (c' ∷ cs', ix'')
    ]
  ]

-- A threshold that is not positive is never reached.
abbrev pub reaches : ℕ → ℤ → Bool
reaches n (pos threshold) = ltb 0 threshold && leb threshold n
reaches n (negsuc threshold) = false

-- Whether `index_lookup` refuses the segment: the buffer is full.
unfoldable pub is_full : ℤ → IndexBuffer → Bool
is_full wait_threshold b = reaches b.chunk_num wait_threshold

unfoldable pub gt_id : ContainerId → ContainerId → Bool
gt_id none b = false
gt_id (some a) none = true
gt_id (some a) (some b) = ltb b a

abbrev pub is_temporary : ContainerId → Bool
is_temporary none = true
is_temporary (some id) = false

-- A chunk that is to be rewritten, or a copy of one that had no id.
abbrev pub is_checked : Chunk → Bool
is_checked c = c.flag.duplicate && is_temporary c.id || (c.flag.out_of_order || c.flag.sparse)

unfoldable pub check_elem : IndexElem → Chunk → Chunk
check_elem be c =
    if gt_id be.id c.id
    then record c {
      id = be.id;
      flag = if is_temporary c.id then c.flag else record c.flag { rewrite_denied = true };
    }
    else c

-- `none` is the failed assertion that the fingerprint is buffered, or an empty queue.
unfoldable pub check_buffer_chunk : IndexBuffer → Chunk → Option Chunk
check_buffer_chunk b c =
    if is_file_signal c
    then some c
    else if is_checked c
    then (elim (queue_of c.fp b) [ [] ↦ none | be ∷ q ↦ some (check_elem be c) ])
    else some c

unfoldable pub index_check_buffer : IndexBuffer → List Chunk → Option (List Chunk)
index_check_buffer b [] = some []
index_check_buffer b (c ∷ cs) = elim (check_buffer_chunk b c) [
  | none ↦ none
  | some c' ↦ elim (index_check_buffer b cs) [ none ↦ none | some cs' ↦ some (c' ∷ cs') ]
]

abbrev pub with_id : ContainerId → IndexElem → IndexElem
with_id id ie = record ie { id = id }

-- The head is popped, and the queue removed or its elements given the id.
unfoldable pub pop_elem : Chunk → List IndexElem → IndexBuffer → Option IndexBuffer
pop_elem c [] b = none
pop_elem c (e ∷ []) b = some (record {
  buffered_fingerprints = remove c.fp b.buffered_fingerprints;
  chunk_num = b.chunk_num - 1;
})
pop_elem c (e ∷ ie ∷ q) b = some (record {
  buffered_fingerprints = insert c.fp (map (with_id c.id) (ie ∷ q)) b.buffered_fingerprints;
  chunk_num = b.chunk_num - 1;
})

-- `none` is a failed assertion, a missing queue or an empty one.
unfoldable pub update_chunk : Chunk → IndexBuffer → Option IndexBuffer
update_chunk c b =
    if is_file_signal c
    then some b
    else if is_temporary c.id
    then none
    else pop_elem c (queue_of c.fp b) b

unfoldable pub index_update_chunks : List Chunk → IndexBuffer → Option IndexBuffer
index_update_chunks [] b = some b
index_update_chunks (c ∷ cs) b = elim (update_chunk c b) [
  | none ↦ none
  | some b' ↦ index_update_chunks cs b'
]

-- The buffer, and whether it remains full.
unfoldable pub index_update_buffer : ℤ → List Chunk → IndexBuffer → Option (IndexBuffer × Bool)
index_update_buffer wait_threshold s b = elim (index_update_chunks s b) [
  | none ↦ none
  | some b' ↦ some (b', reaches b'.chunk_num wait_threshold)
]
