-- ===== src/Rewrite/Cap.antt =====
-- Capping: destor-master/src/cap_rewrite.c.
pub mod Top
pub mod Stream
mod Tests
use destor_lt.Prelude.{
  ℕ, zero, suc, ◌≡◌, ◌≤◌, Bool, true, false, not, ◌&&◌, Option, none, some, List, [], ◌∷◌, ltb,
  if◌then◌else◌, length, lookup, insert, Distinct,
}
use destor_lt.Chunk.{Chunk, ContainerId, is_signal}
use destor_lt.Rewrite.Records.{ContainerRecord, Records}
use destor_lt.Rewrite.Har.{Har}
use destor_lt.Rewrite.Buffer.{RewriteBuffer, init_rewrite_buffer, rewrite_buffer_push}
use destor_lt.Rewrite.Drain.{drain_all}

-- `g_sequence_sort` by one of the comparisons. It moves the records and changes none, so that a
-- lookup by id finds the same record and no id occurs twice.
pub record Sorting : Type 0 where
  pub sort : Records → Records
  pub lookup-sort : (k : ℕ) (seq : Records) → Distinct seq → lookup k (sort seq) ≡ lookup k seq
  pub sort-Distinct : (seq : Records) → Distinct seq → Distinct (sort seq)
  pub length-sort : (seq : Records) → length (sort seq) ≡ length seq

-- The buffer's capacity, `rewrite_capping_level`, the history-aware check, and the sorts by
-- `g_record_descmp_by_length` and by `g_record_cmp_by_id`.
pub record Config : Type 0 where
  pub limit : ℕ
  pub rewrite_capping_level : ℕ
  pub har : Har
  pub by_length : Sorting
  pub by_id : Sorting

-- The buffer and what was pushed to `rewrite_queue`.
pub record State : Type 0 where
  pub buffer : RewriteBuffer
  pub out : List Chunk

-- The loop over the first `num` records; `none` is the failed assertion at the end of the sequence.
unfoldable pub add_top : ℕ → Records → Records → Option Records
add_top zero seq top = some top
add_top (suc num) [] top = none
add_top (suc num) ((cid, r) ∷ seq) top =
    add_top num seq (insert cid (record r { out_of_order = false }) top)

abbrev pub top_num : Config → Records → ℕ
top_num cfg sorted =
    if ltb cfg.rewrite_capping_level (length sorted)
    then cfg.rewrite_capping_level
    else length sorted

-- The table `top`, which is empty before, and the buffer, whose records are sorted twice.
unfoldable pub cap_segment_get_top : Config → RewriteBuffer → Option (Records × RewriteBuffer)
cap_segment_get_top cfg b =
    let sorted = cfg.by_length.sort b.container_record_seq in
    elim (add_top (top_num cfg sorted) sorted []) [
      | none ↦ none
      | some top ↦ some (top, record b { container_record_seq = cfg.by_id.sort sorted })
    ]

-- TEMPORARY_ID is no key of `top`.
abbrev pub in_top : Records → ContainerId → Bool
in_top top none = false
in_top top (some cid) = elim (lookup cid top) [ none ↦ false | some _ ↦ true ]

-- The body of the loop after a full buffer.
unfoldable pub judge : Records → Chunk → Chunk
judge top c =
    if not (is_signal c) && (c.flag.duplicate && not (in_top top c.id))
    then record c { flag = record c.flag { out_of_order = true } }
    else c

-- The body of the loop after the last chunk, which does not ask for a duplicate.
unfoldable pub judge_last : Records → Chunk → Chunk
judge_last top c =
    if not (is_signal c) && not (in_top top c.id)
    then record c { flag = record c.flag { out_of_order = true } }
    else c

-- The judgement of the pending chunks, with the body of either loop.
unfoldable pub settle_buffer : Config → (Records → Chunk → Chunk) → State → Option State
settle_buffer cfg body st = elim (cap_segment_get_top cfg st.buffer) [
  | none ↦ none
  | some (top, b) ↦ elim (drain_all cfg.har (λ c. some (body top c)) b st.out) [
    | none ↦ none
    | some (b', out) ↦ some (record { buffer = b'; out = out })
  ]
]

-- One round of the loop.
unfoldable pub cap_step : Config → Chunk → State → Option State
cap_step cfg c st = elim (rewrite_buffer_push cfg.limit c st.buffer) [
  | none ↦ none
  | some (b, full) ↦
      if full
      then settle_buffer cfg judge (record st { buffer = b })
      else some (record st { buffer = b })
]

unfoldable pub cap_loop : Config → List Chunk → State → Option State
cap_loop cfg [] st = some st
cap_loop cfg (c ∷ input) st = elim (cap_step cfg c st) [
  | none ↦ none
  | some st' ↦ cap_loop cfg input st'
]

abbrev pub start : State
start = record { buffer = init_rewrite_buffer; out = [] }

-- The chunks that the phase pushes to `rewrite_queue` for those that it pops from `dedup_queue`.
unfoldable pub cap_rewrite : Config → List Chunk → Option (List Chunk)
cap_rewrite cfg input = elim (cap_loop cfg input start) [
  | none ↦ none
  | some st ↦ elim (settle_buffer cfg judge_last st) [ none ↦ none | some st' ↦ some st'.out ]
]
