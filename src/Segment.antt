-- ===== src/Segment.antt =====
-- Segments of the stream: destor-master/src/index/segmenting_method.c, and the loop of
-- dedup_phase.c that feeds it.
pub mod Stream
pub mod Bounds
pub mod Files
pub mod Counted
mod Tests
use destor_lt.Prelude.{
  ℕ, zero, suc, ◌+◌, ◌-◌, ◌%◌, Bool, Option, none, some, List, [], ◌∷◌, ◌++◌, ltb, leb, ◌==◌,
  if◌then◌else◌, drop,
}
use destor_lt.Chunk.{Chunk, is_file_signal}
use destor_lt.Storage.Serial.{serial_int, host_value}

pub record Segment : Type 0 where
  pub chunk_num : ℕ
  pub chunks : List Chunk

abbrev pub new_segment : Segment
new_segment = record { chunk_num = 0; chunks = [] }

-- The static variable `tmp` once it is no longer NULL.
abbrev pub opened : Option Segment → Segment
opened none = new_segment
opened (some s) = s

-- A signal and a chunk of a file at the end of the segment.
abbrev pub append_signal : Chunk → Segment → Segment
append_signal c s = record s { chunks = s.chunks ++ c ∷ [] }

abbrev pub append_chunk : Chunk → Segment → Segment
append_chunk c s = record { chunk_num = s.chunk_num + 1; chunks = s.chunks ++ c ∷ [] }

-- A method: from `tmp` and the chunk, or NULL at the end, to `tmp` and the segment it returns.
abbrev pub Method : Type 0
Method = Option Segment → Option Chunk → Option Segment × Option Segment

-- `index_segment_algorithm[1]`, `index_segment_min` and `index_segment_max`.
pub record Config : Type 0 where
  pub index_segment_avg : ℕ
  pub index_segment_min : ℕ
  pub index_segment_max : ℕ

unfoldable pub segment_fixed : Config → Method
segment_fixed cfg tmp none = (some (opened tmp), some (opened tmp))
segment_fixed cfg tmp (some c) =
    if is_file_signal c
    then (some (append_signal c (opened tmp)), none)
    else let s = append_chunk c (opened tmp) in
      if s.chunk_num == cfg.index_segment_avg then (none, some s) else (some s, none)

unfoldable pub segment_file_defined : Method
segment_file_defined tmp none = (some (opened tmp), some (opened tmp))
segment_file_defined tmp (some c) =
    if c.flag.file_end
    then (none, some (append_signal c (opened tmp)))
    else if c.flag.file_start
    then (some (append_signal c (opened tmp)), none)
    else (some (append_chunk c (opened tmp)), none)

-- The magnitude of the int that the last four bytes of a fingerprint are.
unfoldable pub head : ℕ → ℕ
head fp =
    let bits = host_value (drop 16 (serial_int 20 fp)) in
    if ltb bits 2_147_483_648 then bits else 4_294_967_296 - bits

-- `(*head) % index_segment_algorithm[1] == 0`. The configured size is not 0, where C's `%` traps.
abbrev pub is_boundary : Config → Chunk → Bool
is_boundary cfg c = head c.fp % cfg.index_segment_avg == 0

unfoldable pub segment_content_defined : Config → Method
segment_content_defined cfg tmp none = (some (opened tmp), some (opened tmp))
segment_content_defined cfg tmp (some c) =
    if is_file_signal c
    then (some (append_signal c (opened tmp)), none)
    else if ltb (opened tmp).chunk_num cfg.index_segment_min
    then (some (append_chunk c (opened tmp)), none)
    else if is_boundary cfg c
    then (some (append_chunk c new_segment), some (opened tmp))
    else let s = append_chunk c (opened tmp) in
      if leb cfg.index_segment_max s.chunk_num then (some new_segment, some s) else (some s, none)

-- `index_segment_algorithm[0]`.
pub data SegmentAlgorithm : Type 0 where
  index_segment_fixed : SegmentAlgorithm
  index_segment_content_defined : SegmentAlgorithm
  index_segment_file_defined : SegmentAlgorithm

unfoldable pub init_segmenting_method : Config → SegmentAlgorithm → Method
init_segmenting_method cfg index_segment_fixed = segment_fixed cfg
init_segmenting_method cfg index_segment_content_defined = segment_content_defined cfg
init_segmenting_method cfg index_segment_file_defined = segment_file_defined

-- The loop of `dedup_thread`: the segments it gets, and apart from them the one that it gets with
-- NULL, which ends it; `none` is a NULL for which it gets no segment, where it would pop forever.
unfoldable pub segments : Method → Option Segment → List Chunk → Option (List Segment × Segment)
segments method tmp [] = elim (method tmp none).1 [ none ↦ none | some s ↦ some ([], s) ]
segments method tmp (c ∷ input) =
    let (tmp', returned) = method tmp (some c) in
    elim (segments method tmp' input) [
      | none ↦ none
      | some (ss, last) ↦ some (elim returned [ none ↦ ss | some s ↦ s ∷ ss ], last)
    ]
