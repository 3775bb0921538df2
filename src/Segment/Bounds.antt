-- ===== src/Segment/Bounds.antt =====
-- The sizes of the segments of index/segmenting_method.c.
use destor_lt.Prelude.{
  ℕ, ◌≡◌, ◌≤◌, ◌<◌, refl, true, false, none, some, List, [], ◌∷◌, ◌++◌, arith, All, append-nil,
  if◌then◌else◌, sum_by, sum_by-append,
}
use destor_lt.Chunk.{Chunk, is_file_signal}
use destor_lt.Segment.{
  Segment, opened, append_signal, append_chunk, Config, segment_fixed, segment_content_defined,
  segments,
}
use destor_lt.Segment.Stream.{IsMethod, all_chunks, segments-Cut}

-- One for a chunk of a file.
abbrev pub file_chunk : Chunk → ℕ
file_chunk c = if is_file_signal c then 0 else 1

abbrev pub IsCounted : Segment → Type 0
IsCounted s = s.chunk_num ≡ sum_by file_chunk s.chunks

pub append_signal-IsCounted :
    (c : Chunk) (s : Segment)
    → is_file_signal c ≡ true
    → IsCounted s
    → IsCounted (append_signal c s)
append_signal-IsCounted c s e counted = ground (arith, sum_by-append file_chunk s.chunks (c ∷ []))

pub append_chunk-IsCounted :
    (c : Chunk) (s : Segment)
    → is_file_signal c ≡ false
    → IsCounted s
    → IsCounted (append_chunk c s)
append_chunk-IsCounted c s e counted = ground (arith, sum_by-append file_chunk s.chunks (c ∷ []))

module _ (cfg : Config) where
  abbrev pub IsPartial : Segment → Type 0
  IsPartial s = IsCounted s × (s.chunk_num < cfg.index_segment_avg)

  abbrev pub IsFull : Segment → Type 0
  IsFull s = IsCounted s × (s.chunk_num ≡ cfg.index_segment_avg)

  segment_fixed-IsMethod : 0 < cfg.index_segment_avg → IsMethod (segment_fixed cfg) IsPartial IsFull
  unfolding segment_fixed
  segment_fixed-IsMethod positive = record {
    begins = (refl, positive);
    keeps = λ tmp c o. ground (
      arith,
      append-nil ((opened tmp).chunks ++ c ∷ []),
      append_signal-IsCounted c (opened tmp),
      append_chunk-IsCounted c (opened tmp),
    );
    ends = λ tmp. refl;
  }

  -- With a positive size, fixed segmenting puts every chunk into one segment, in the order of the
  -- stream. The first segments hold exactly `index_segment_algorithm[1]` chunks of files each, and the last fewer.
  pub segment_fixed-segments :
      (input : List Chunk)
      → 0 < cfg.index_segment_avg
      → (ss : List Segment) × (last : Segment) × (segments (segment_fixed cfg) none input
          ≡ some (ss, last))
        × (all_chunks ss ++ last.chunks ≡ input)
        × All IsFull ss
        × IsPartial last
  segment_fixed-segments input positive =
      segments-Cut (segment_fixed cfg) IsPartial IsFull (segment_fixed-IsMethod positive) none input
        (refl, positive)

  abbrev pub IsBelow : Segment → Type 0
  IsBelow s = IsCounted s × (s.chunk_num < cfg.index_segment_max)

  abbrev pub IsBetween : Segment → Type 0
  IsBetween s =
      IsCounted s × (cfg.index_segment_min ≤ s.chunk_num) × (s.chunk_num ≤ cfg.index_segment_max)

  segment_content_defined-IsMethod :
      0 < cfg.index_segment_min
      → cfg.index_segment_min < cfg.index_segment_max
      → IsMethod (segment_content_defined cfg) IsBelow IsBetween
  unfolding segment_content_defined
  segment_content_defined-IsMethod positive ordered = record {
    begins = (refl, omega arith);
    keeps = λ tmp c o. ground (
      arith,
      append-nil ((opened tmp).chunks ++ c ∷ []),
      append_signal-IsCounted c (opened tmp),
      append_chunk-IsCounted c (opened tmp),
    );
    ends = λ tmp. refl;
  }

  -- Where `index_segment_algorithm[1]`, by which the code takes remainders, is positive, content-defined
  -- segmenting puts every chunk into one segment, in the order of the stream. With the minimum
  -- positive and below the maximum, every segment holds at most `index_segment_max` chunks of files,
  -- and all but the last at least `index_segment_min`.
  pub segment_content_defined-segments :
      (input : List Chunk)
      → 0 < cfg.index_segment_avg
      → 0 < cfg.index_segment_min
      → cfg.index_segment_min < cfg.index_segment_max
      → (ss : List Segment) × (last : Segment) × (segments (segment_content_defined cfg) none input
          ≡ some (ss, last))
        × (all_chunks ss ++ last.chunks ≡ input)
        × All IsBetween ss
        × IsBelow last
  segment_content_defined-segments input divides positive ordered =
      segments-Cut (segment_content_defined cfg) IsBelow IsBetween
        (segment_content_defined-IsMethod positive ordered) none input (refl, omega arith)
