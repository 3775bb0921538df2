-- ===== src/Rewrite/Cfl.antt =====
-- CFL-based selective deduplication: destor-master/src/cfl_rewrite.c.
pub mod Stream
use destor_lt.Prelude.{
  ℕ, ◌-◌, ◌*◌, Bool, true, false, not, ◌&&◌, ◌||◌, Option, none, some, List, [], ◌∷◌, ltb,
  if◌then◌else◌,
}
use destor_lt.Chunk.{
  Chunk, ContainerId, temporary_id, eq_id, is_signal, container_size, container_meta_size,
}
use destor_lt.Rewrite.Har.{Har}
use destor_lt.Rewrite.Buffer.{RewriteBuffer, init_rewrite_buffer, rewrite_buffer_push}
use destor_lt.Rewrite.Drain.{drain_all}

-- `rewrite_algorithm[1]`, the capacity of the buffer; `rewrite_cfl_usage_threshold` as the fraction
-- `usage_num / usage_den`; and the history-aware check.
pub record Config : Type 0 where
  pub limit : ℕ
  pub usage_num : ℕ
  pub usage_den : ℕ
  pub har : Har

-- The local variables, the buffer and what was pushed to `rewrite_queue`.
pub record State : Type 0 where
  pub last_id : ContainerId
  pub buffer_full : Bool
  pub buffer : RewriteBuffer
  pub out : List Chunk

abbrev pub low_usage : Config → RewriteBuffer → Bool
low_usage cfg b =
    ltb (b.size * cfg.usage_den) (cfg.usage_num * (container_size - container_meta_size))

-- The body of the loops over the buffer; `none` is the failed assertion of a chunk with a container
-- that is no duplicate.
unfoldable pub judge : Bool → Chunk → Option Chunk
judge out_of_order bc =
    if is_signal bc
    then some bc
    else if out_of_order && not (eq_id bc.id temporary_id)
    then if bc.flag.duplicate
      then some (record bc { flag = record bc.flag { out_of_order = true } })
      else none
    else some bc

-- The judgement of the pending chunks.
unfoldable pub settle_buffer : Config → State → Option State
settle_buffer cfg st = elim (drain_all cfg.har (judge (low_usage cfg st.buffer)) st.buffer st.out) [
  | none ↦ none
  | some (b, out) ↦ some (record st { buffer_full = false; buffer = b; out = out })
]

abbrev pub is_boundary : State → Chunk → Bool
is_boundary st c =
    (not (eq_id st.last_id temporary_id) && not (eq_id st.last_id c.id)) || st.buffer_full

-- The chunk goes into the buffer.
unfoldable pub take_in : Config → Chunk → State → Option State
take_in cfg c st = elim (rewrite_buffer_push cfg.limit c st.buffer) [
  | none ↦ none
  | some (b, full) ↦
      some (record st { last_id = c.id; buffer = b; buffer_full = full || st.buffer_full })
]

-- One round of the loop.
unfoldable pub cfl_step : Config → Chunk → State → Option State
cfl_step cfg c st = elim (if is_boundary st c then settle_buffer cfg st else some st) [
  | none ↦ none
  | some st' ↦ take_in cfg c st'
]

unfoldable pub cfl_loop : Config → List Chunk → State → Option State
cfl_loop cfg [] st = some st
cfl_loop cfg (c ∷ input) st = elim (cfl_step cfg c st) [
  | none ↦ none
  | some st' ↦ cfl_loop cfg input st'
]

abbrev pub start : State
start = record {
  last_id = temporary_id;
  buffer_full = false;
  buffer = init_rewrite_buffer;
  out = [];
}

-- The chunks that the phase pushes to `rewrite_queue` for those that it pops from `dedup_queue`.
unfoldable pub cfl_rewrite : Config → List Chunk → Option (List Chunk)
cfl_rewrite cfg input = elim (cfl_loop cfg input start) [
  | none ↦ none
  | some st ↦ elim (settle_buffer cfg st) [ none ↦ none | some st' ↦ some st'.out ]
]
