-- ===== src/Handoff/Tests.antt =====
-- Two segments, the parts of one file, on their way from dedup_phase.c to filter_phase.c.
use destor_lt.Prelude.{
  suc, ◌≡◌, refl, arith, true, none, some, List, [], ◌∷◌, map, All, length, lookup, insert, leb,
}
use destor_lt.Chunk.{Chunk, no_flags, new_chunk}
use destor_lt.Storage.Container.{Container}
use destor_lt.Segment.{
  Segment, Config, index_segment_fixed, segment_fixed, init_segmenting_method, segments,
}
use destor_lt.Segment.Stream.{all_chunks}
use destor_lt.Gc.{init_id_shift}
use destor_lt.Index.{
  Index, empty_buffer, queue_of, check_storage, check_buffered, push_elem, take_found, check_cache,
  take_ids, check_kvstore, push_found, lookup_chunk, index_lookup_base,
}
use destor_lt.Rewrite.Har.{har_check}
use destor_lt.Rewrite.Buffer.Moves.{IsSmall}
use destor_lt.Rewrite.Phase.{Algorithm, rewrite_no, no_rewrite, rewrite_phase}
use destor_lt.Pipeline.Runs.{SegmentsMarked}
use destor_lt.Handoff.{send_segment, send_segments, read_chunks, read_segments}
use destor_lt.Pipeline.Example.{find, known_backend}
use destor_lt.Handoff.Sent.{trace, IsInput, HasNear, Lookups}
use destor_lt.Handoff.Stream.{read_segments-stream}
use destor_lt.Handoff.Received.{IsSent, read_segments-rewrite_phase}

program : Unit {0}
unfolding new_chunk har_check no_rewrite rewrite_phase send_segment send_segments read_chunks
    read_segments lookup segment_fixed segments init_segmenting_method
program = tt

abbrev file_start : Chunk
file_start = record (new_chunk 4) { flag = record no_flags { file_start = true } }

abbrev file_end : Chunk
file_end = record (new_chunk 0) { flag = record no_flags { file_end = true } }

abbrev unique : Chunk
unique = record (new_chunk 100) { fp = 7 }

abbrev duplicate : Chunk
duplicate = record (new_chunk 100) {
  fp = 8;
  id = some 5;
  flag = record no_flags { duplicate = true };
}

abbrev first_segment : Segment
first_segment = record { chunk_num = 2; chunks = file_start ∷ unique ∷ duplicate ∷ [] }

abbrev second_segment : Segment
second_segment = record { chunk_num = 1; chunks = duplicate ∷ file_end ∷ [] }

abbrev sent : List Segment
sent = first_segment ∷ second_segment ∷ []

-- Container 5 is sparse; the filter phase is faster than the check from the fifth chunk on.
abbrev algorithm : Algorithm
algorithm =
    rewrite_no (record { enabled = true; inherited_sparse_containers = (5, 1) ∷ [] }) (λ n. leb 4 n)

abbrev marked_duplicate : Chunk
marked_duplicate = record duplicate { flag = record duplicate.flag { sparse = true } }

abbrev received : List Segment
received =
    record first_segment { chunks = file_start ∷ unique ∷ marked_duplicate ∷ [] }
    ∷ second_segment
    ∷ []

reads_marked :
    (out : List Chunk) × (rewrite_phase algorithm (send_segments sent) ≡ some out)
    × (read_segments 3 out ≡ some received)
unfolding program
reads_marked = (_, refl, refl)

cut_off_segment : read_segments 2 (file_start ∷ []) ≡ none
unfolding program
cut_off_segment = refl

sent-IsSent : All (IsSent 100) sent
unfolding program
sent-IsSent = (
  record {
    tidy = (tt, (((omega arith, tt), tt), (((omega arith, omega arith), refl), tt)));
    small = (omega arith, (omega arith, (omega arith, tt)));
    inner = (refl, (refl, (refl, tt)));
    counted = refl;
  },
  (
    record {
      tidy = (((omega arith, omega arith), refl), (tt, tt));
      small = (omega arith, (omega arith, tt));
      inner = (refl, (refl, tt));
      counted = refl;
    },
    tt,
  ),
)

read_segments-rewrite_phase_example :
    (out : List Chunk) × (rs : List Segment) × (rewrite_phase algorithm (send_segments sent)
      ≡ some out)
    × (read_segments (suc (length sent)) out ≡ some rs)
    × SegmentsMarked (map (λ s. s.chunks) sent) (map (λ s. s.chunks) rs)
    × (map (λ s. s.chunk_num) rs ≡ map (λ s. s.chunk_num) sent)
read_segments-rewrite_phase_example = read_segments-rewrite_phase 100 algorithm sent tt sent-IsSent

-- The stream of one file of two equal chunks, in fixed segments of two chunks.
abbrev stream : List Chunk
stream = file_start ∷ unique ∷ unique ∷ file_end ∷ []

abbrev cfg : Config
cfg = record { index_segment_avg = 2; index_segment_min = 0; index_segment_max = 0 }

abbrev full_segment : Segment
full_segment = record { chunk_num = 2; chunks = file_start ∷ unique ∷ unique ∷ [] }

abbrev last_segment : Segment
last_segment = record { chunk_num = 0; chunks = file_end ∷ [] }

cuts :
    segments (init_segmenting_method cfg index_segment_fixed) none stream
    ≡ some (full_segment ∷ [], last_segment)
unfolding program
cuts = refl

stream-IsInput : All IsInput stream
unfolding program
stream-IsInput = (
  ((tt, refl), refl),
  (
    (((omega arith, tt), refl), refl),
    ((((omega arith, tt), refl), refl), (((tt, refl), refl), tt)),
  ),
)

stream-IsSmall : All (IsSmall 100) stream
unfolding program
stream-IsSmall = (omega arith, (omega arith, (omega arith, (omega arith, tt))))

abbrev empty_index : Index (List Container)
empty_index = record {
  buffer = empty_buffer;
  behind = [];
  marks = init_id_shift;
  lookup_requests = 0;
  lookup_requests_for_unique = 0;
}

-- The second copy is found among the chunks that were looked up.
abbrev looked_chunks : List Chunk
looked_chunks =
    file_start ∷ unique ∷ record unique { flag = record no_flags { duplicate = true } } ∷ []

abbrev looked_index : Index (List Container)
looked_index = record empty_index {
  buffer = record {
    buffered_fingerprints =
        (7, record { id = none; fp = 7 } ∷ record { id = none; fp = 7 } ∷ []) ∷ [];
    chunk_num = 2;
  };
  lookup_requests_for_unique = 1;
}

looks :
    index_lookup_base known_backend 0 none full_segment.chunks empty_index
    ≡ some (looked_chunks, looked_index)
unfolding program index_lookup_base lookup_chunk check_storage check_buffered check_cache take_found
    check_kvstore take_ids push_found push_elem queue_of empty_buffer find insert
looks = refl

abbrev looked : List Segment
looked = record full_segment { chunks = looked_chunks } ∷ last_segment ∷ []

looks_all : Lookups known_backend 0 (full_segment ∷ last_segment ∷ []) looked
looks_all =
    Lookups.looks_up full_segment none empty_index looked_index looked_chunks looks
      (Lookups.skips last_segment refl Lookups.no_lookups)

looked_near : All (λ (s : Segment). All HasNear s.chunks) looked
unfolding program
looked_near = ((tt, (tt, (tt, tt))), ((tt, tt), tt))

read_segments-stream_example :
    (out : List Chunk) × (rs : List Segment) × (rewrite_phase algorithm (send_segments looked)
      ≡ some out)
    × (read_segments 3 out ≡ some rs)
    × (map (λ s. s.chunk_num) rs ≡ 2 ∷ 0 ∷ [])
    × (map trace (all_chunks rs) ≡ map trace stream)
read_segments-stream_example =
    read_segments-stream known_backend 0 cfg index_segment_fixed 100 algorithm stream
      (full_segment ∷ []) last_segment looked tt tt stream-IsInput stream-IsSmall cuts looks_all
      looked_near
