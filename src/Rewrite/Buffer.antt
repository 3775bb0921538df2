-- ===== src/Rewrite/Buffer.antt =====
-- The buffer of pending chunks of destor-master/src/rewrite_phase.c.
pub mod Balance
pub mod Moves
pub mod Pops
use destor_lt.Prelude.{
  ℕ, ◌+◌, ◌-◌, Bool, true, false, not, ◌&&◌, Option, none, some, List, [], ◌∷◌, ◌++◌, ltb, leb,
  ◌==◌, if◌then◌else◌, insert, remove,
}
use destor_lt.Chunk.{Chunk, is_signal}
use destor_lt.Rewrite.Records.{
  ContainerRecord, Records, int_bound, g_sequence_lookup, insert_sorted,
}
use destor_lt.Rewrite.Har.{Har, har_check}

pub record RewriteBuffer : Type 0 where
  pub chunk_queue : List Chunk
  pub container_record_seq : Records
  pub num : ℕ
  pub size : ℕ

abbrev pub init_rewrite_buffer : RewriteBuffer
init_rewrite_buffer = record { chunk_queue = []; container_record_seq = []; num = 0; size = 0 }

-- The container's record after a chunk came in; a new one is taken for out of order.
unfoldable pub count_in : ℕ → ℕ → Records → Records
count_in cid size seq = elim (g_sequence_lookup cid seq) [
  | none ↦ insert_sorted cid (record { size = size; out_of_order = true }) seq
  | some r ↦ insert cid (record r { size = r.size + size }) seq
]

-- Whether an int holds the differences that `g_record_cmp_by_id` takes of the id, and an int32_t the
-- size of the container's record.
unfoldable pub fits_in : ℕ → ℕ → Records → Bool
fits_in cid size seq = elim (g_sequence_lookup cid seq) [
  | none ↦ ltb cid int_bound && ltb size int_bound
  | some r ↦ ltb cid int_bound && ltb (r.size + size) int_bound
]

-- The records after a chunk came in; `none` is the failed assertion of a container id on a chunk
-- that is no duplicate, or the overflow of a difference of ids or of a record's size.
unfoldable pub count_chunk : Chunk → Records → Option Records
unfolding count_in
count_chunk c seq = elim c.id [
  | none ↦ some seq
  | some cid ↦
      if c.flag.duplicate && fits_in cid c.size seq then some (count_in cid c.size seq) else none
]

-- The buffer and whether it is full; `none` is a failed assertion, of the chunk or of
-- `num == rewrite_algorithm[1]`, here `limit`, or the overflow of a size.
unfoldable pub rewrite_buffer_push : ℕ → Chunk → RewriteBuffer → Option (RewriteBuffer × Bool)
rewrite_buffer_push limit c b =
    if is_signal c
    then some (record b { chunk_queue = b.chunk_queue ++ c ∷ [] }, false)
    else elim (count_chunk c b.container_record_seq) [
      | none ↦ none
      | some seq ↦
          let b' : RewriteBuffer = record {
            chunk_queue = b.chunk_queue ++ c ∷ [];
            container_record_seq = seq;
            num = b.num + 1;
            size = b.size + c.size;
          } in
          if leb int_bound b'.size
          then none
          else if leb limit b'.num
          then if b'.num == limit then some (b', true) else none
          else some (b', false)
    ]

unfoldable pub rewrite_buffer_top : RewriteBuffer → Option Chunk
rewrite_buffer_top b = elim b.chunk_queue [ [] ↦ none | c ∷ _ ↦ some c ]

-- The container's record after a chunk went out; `none` is the failed `assert(iter)`. A record never
-- holds less than goes out (Balance), so the subtraction does not pass below 0.
unfoldable pub count_out : ℕ → ℕ → Records → Option Records
count_out cid size seq = elim (g_sequence_lookup cid seq) [
  | none ↦ none
  | some r ↦
      if r.size == size
      then some (remove cid seq)
      else some (insert cid (record r { size = r.size - size }) seq)
]

-- The records after a chunk went out, and the chunk, which the history-aware check may mark.
unfoldable pub release_chunk : Har → Chunk → Records → Option (Records × Chunk)
unfolding count_out
release_chunk har c seq =
    if c.flag.duplicate
    then elim c.id [
      | none ↦ some (seq, c)
      | some cid ↦ elim (count_out cid c.size seq) [
        | none ↦ none
        | some seq' ↦
            some (seq', if har.enabled then har_check har.inherited_sparse_containers c else c)
      ]
    ]
    else some (seq, c)

-- The buffer and the first chunk, if there is one; the outer `none` is a failed assertion.
unfoldable pub rewrite_buffer_pop : Har → RewriteBuffer → Option (RewriteBuffer × Option Chunk)
rewrite_buffer_pop har b = elim b.chunk_queue [
  | [] ↦ some (b, none)
  | c ∷ queue ↦
      if is_signal c
      then some (record b { chunk_queue = queue }, some c)
      else elim (release_chunk har c b.container_record_seq) [
        | none ↦ none
        | some (seq, c') ↦ some (
          record {
            chunk_queue = queue;
            container_record_seq = seq;
            num = b.num - 1;
            size = b.size - c.size;
          },
          some c',
        )
      ]
]
