-- ===== src/Segment/Tests.antt =====
-- Segmenting a small stream with each method of index/segmenting_method.c.
use destor_lt.Prelude.{ℕ, ◌≡◌, refl, true, none, some, List, [], ◌∷◌, ◌++◌, arith, All}
use destor_lt.Chunk.{Chunk, no_flags, temporary_id}
use destor_lt.Storage.Serial.{serial_int, host_bytes, host_value}
use destor_lt.Segment.{
  Segment, Config, head, segment_fixed, segment_content_defined, segment_file_defined, segments,
}
use destor_lt.Segment.Stream.{all_chunks}
use destor_lt.Segment.Bounds.{
  IsFull, IsPartial, IsBetween, IsBelow, segment_fixed-segments, segment_content_defined-segments,
}
use destor_lt.Segment.Files.{IsFile, IsOpen, segment_file_defined-segments}

program : Unit {0}
unfolding serial_int host_bytes host_value head segment_fixed segment_content_defined
    segment_file_defined segments
program = tt

abbrev cfg : Config
cfg = record { index_segment_avg = 2; index_segment_min = 1; index_segment_max = 3 }

abbrev chunk : ℕ → Chunk
chunk fp = record { size = 8; flag = no_flags; id = temporary_id; fp = fp; bytes = [] }

abbrev file_start : Chunk
file_start = record (chunk 0) { flag = record no_flags { file_start = true } }

abbrev file_end : Chunk
file_end = record (chunk 0) { flag = record no_flags { file_end = true } }

abbrev stream : List Chunk
stream = file_start ∷ chunk 3 ∷ chunk 4 ∷ file_end ∷ chunk 5 ∷ []

-- The int that the last four bytes of a fingerprint make has the last byte highest: 4 reads 4 * 2 ^ 24.
reads_head : head 4 ≡ 67_108_864
unfolding program
reads_head = refl

-- 255 in the last byte makes the int negative.
reads_negative : head 255 ≡ 16_777_216
unfolding program
reads_negative = refl

cuts_files :
    segments segment_file_defined none stream
    ≡ some (
      record { chunk_num = 2; chunks = file_start ∷ chunk 3 ∷ chunk 4 ∷ file_end ∷ [] } ∷ [],
      record { chunk_num = 1; chunks = chunk 5 ∷ [] },
    )
unfolding program
cuts_files = refl

segment_fixed-segments_example :
    (ss : List Segment) × (last : Segment) × (segments (segment_fixed cfg) none stream
      ≡ some (ss, last))
    × (all_chunks ss ++ last.chunks ≡ stream)
    × All (IsFull cfg) ss
    × IsPartial cfg last
segment_fixed-segments_example = segment_fixed-segments cfg stream (omega arith)

segment_content_defined-segments_example :
    (ss : List Segment) × (last : Segment) × (segments (segment_content_defined cfg) none stream
      ≡ some (ss, last))
    × (all_chunks ss ++ last.chunks ≡ stream)
    × All (IsBetween cfg) ss
    × IsBelow cfg last
segment_content_defined-segments_example =
    segment_content_defined-segments cfg stream (omega arith) (omega arith) (omega arith)

segment_file_defined-segments_example :
    (ss : List Segment) × (last : Segment) × (segments segment_file_defined none stream
      ≡ some (ss, last))
    × (all_chunks ss ++ last.chunks ≡ stream)
    × All IsFile ss
    × IsOpen last
segment_file_defined-segments_example = segment_file_defined-segments stream
