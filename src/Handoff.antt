-- ===== src/Handoff.antt =====
-- How segments pass from destor-master/src/dedup_phase.c, which sends them chunk by chunk, to
-- filter_phase.c, which puts them together again.
pub mod Looked
pub mod Received
pub mod Sent
pub mod Stream
mod Tests
use destor_lt.Prelude.{ℕ, zero, suc, true, Option, none, some, List, [], ◌∷◌, ◌++◌, if◌then◌else◌}
use destor_lt.Chunk.{Chunk, new_chunk, is_file_signal}
use destor_lt.Segment.{Segment, new_segment, append_signal, append_chunk}

-- `ss` and `se` of `send_segment`.
abbrev pub segment_start : Chunk
segment_start = let c = new_chunk 0 in record c { flag = record c.flag { segment_start = true } }

abbrev pub segment_end : Chunk
segment_end = let c = new_chunk 0 in record c { flag = record c.flag { segment_end = true } }

unfoldable pub send_segment : Segment → List Chunk
send_segment s = segment_start ∷ s.chunks ++ segment_end ∷ []

-- All that `dedup_thread` pushes to `dedup_queue` for the segments that it has looked up.
unfoldable pub send_segments : List Segment → List Chunk
send_segments [] = []
send_segments (s ∷ ss) = send_segment s ++ send_segments ss

-- The inner loop that puts a segment together, `c` being what it pops: the segment, and what is left in
-- the queue. `none` is the test of a flag of NULL.
unfoldable pub read_chunks : Segment → List Chunk → Option (Segment × List Chunk)
read_chunks s [] = none
read_chunks s (c ∷ input) =
    let later =
      read_chunks (if is_file_signal c then append_signal c s else append_chunk c s) input in
    if c.flag.segment_end then some (s, input) else later

-- The segments that `filter_thread` works on, until it pops NULL; one round of fuel for each and one for
-- NULL. `none` is a failed assertion, a test of NULL's flag, or that the fuel ran out.
unfoldable pub read_segments : ℕ → List Chunk → Option (List Segment)
read_segments zero input = none
read_segments (suc fuel) [] = some []
read_segments (suc fuel) (c ∷ input) =
    if c.flag.segment_start
    then (elim (read_chunks new_segment input) [
      | none ↦ none
      | some (s, rest) ↦ elim (read_segments fuel rest) [ none ↦ none | some ss ↦ some (s ∷ ss) ]
    ])
    else none
