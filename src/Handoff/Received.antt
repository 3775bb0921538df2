-- ===== src/Handoff/Received.antt =====
-- What the filter phase puts together of the segments that the deduplication phase sent.
use destor_lt.Prelude.{
  ℕ, zero, suc, ◌+◌, ◌<◌, ◌≡◌, refl, sym, ap, ◌∙◌, subst, arith, true, false, some, List, [], ◌∷◌,
  ◌++◌, map, append_assoc, append-nil, All, All-append, length, sum_by, if◌then◌else◌,
}
use destor_lt.Chunk.{Chunk, new_chunk, is_file_signal}
use destor_lt.Segment.{Segment, new_segment, append_signal, append_chunk}
use destor_lt.Segment.Bounds.{file_chunk}
use destor_lt.Rewrite.Buffer.Balance.{IsTidy}
use destor_lt.Rewrite.Buffer.Moves.{IsSmall}
use destor_lt.Rewrite.Drain.{unmarked}
use destor_lt.Rewrite.Phase.{Algorithm, IsConfigured, rewrite_phase, rewrite_phase-stream}
use destor_lt.Pipeline.Runs.{
  Marked, AllMarked, marked_nil, marked_cons, SegmentsMarked, no_segments, more_segments,
}
use destor_lt.Handoff.{
  segment_start, segment_end, send_segment, send_segments, read_chunks, read_segments,
}

-- A segment that is sent: its chunks are tidy and of at most `largest` bytes, none ends a segment, and it
-- counts those of files.
pub record IsSent (largest : ℕ) (s : Segment) : Type 0 where
  pub tidy : All IsTidy s.chunks
  pub small : All (IsSmall largest) s.chunks
  pub inner : All (λ (c : Chunk). c.flag.segment_end ≡ false) s.chunks
  pub counted : s.chunk_num ≡ sum_by file_chunk s.chunks

segment-IsTidy : (s : Segment) → All IsTidy s.chunks → All IsTidy (send_segment s)
unfolding send_segment new_chunk
segment-IsTidy s t = (tt, All-append IsTidy s.chunks (segment_end ∷ []) t (tt, tt))

segment-IsSmall :
    (largest : ℕ) (s : Segment)
    → All (IsSmall largest) s.chunks
    → All (IsSmall largest) (send_segment s)
unfolding send_segment new_chunk
segment-IsSmall largest s t =
    (omega arith, All-append (IsSmall largest) s.chunks (segment_end ∷ []) t (omega arith, tt))

send_segments-IsSmall :
    (largest : ℕ) (ss : List Segment)
    → All (IsSent largest) ss
    → All (IsSmall largest) (send_segments ss)
unfolding send_segments
send_segments-IsSmall largest [] t = tt
send_segments-IsSmall largest (s ∷ ss) (t, ts) =
    All-append (IsSmall largest) (send_segment s) (send_segments ss)
      (segment-IsSmall largest s t.small) (send_segments-IsSmall largest ss ts)

send_segments-IsTidy :
    (largest : ℕ) (ss : List Segment) → All (IsSent largest) ss → All IsTidy (send_segments ss)
unfolding send_segments
send_segments-IsTidy largest [] t = tt
send_segments-IsTidy largest (s ∷ ss) (t, ts) =
    All-append IsTidy (send_segment s) (send_segments ss) (segment-IsTidy s t.tidy)
      (send_segments-IsTidy largest ss ts)

-- The first of the chunks that were passed on, and the others.
first_passed :
    (out : List Chunk) (c : Chunk) (input : List Chunk)
    → map unmarked out ≡ unmarked c ∷ map unmarked input
    → (d : Chunk) × (rest : List Chunk) × (out ≡ d ∷ rest)
      × (unmarked d ≡ unmarked c)
      × (map unmarked rest ≡ map unmarked input)
first_passed [] c input e = absurd (ground (arith, e))
first_passed (d ∷ rest) c input e = (d, rest, refl, ground (arith, e), ground (arith, e))

passed-Marked : (c d : Chunk) → unmarked d ≡ unmarked c → Marked c d
passed-Marked c d e = record {
  kept = record {
    fp = ap (λ (x : Chunk). x.fp) e;
    duplicate = ap (λ (x : Chunk). x.flag.duplicate) e;
    signal = ap (λ (x : Chunk). is_file_signal x) e;
    size = ap (λ (x : Chunk). x.size) e;
  };
  id = ap (λ (x : Chunk). x.id) e;
}

AllMarked-append :
    {a b : List Chunk} {c d : Chunk}
    → AllMarked a b
    → Marked c d
    → AllMarked (a ++ c ∷ []) (b ++ d ∷ [])
AllMarked-append marked_nil m = marked_cons m marked_nil
AllMarked-append (marked_cons n ms) m = marked_cons n (AllMarked-append ms m)

abbrev taken : Segment → Chunk → Segment
taken s c = if is_file_signal c then append_signal c s else append_chunk c s

taken_chunks : (s : Segment) (c : Chunk) → (taken s c).chunks ≡ s.chunks ++ c ∷ []
taken_chunks s c = ground arith

-- What the inner loop reads: the segment, and what was passed on behind it.
abbrev Read : Segment → List Chunk → List Chunk → List Chunk → ℕ → Type 0
Read s out rest chunks num =
    (r : Segment) × (left : List Chunk) × (read_chunks s out ≡ some (r, left))
    × (map unmarked left ≡ map unmarked rest)
    × AllMarked chunks r.chunks
    × (r.chunk_num ≡ num)

read_on :
    (s r : Segment) (d : Chunk) (left left' : List Chunk)
    → d.flag.segment_end ≡ false
    → read_chunks (taken s d) left ≡ some (r, left')
    → read_chunks s (d ∷ left) ≡ some (r, left')
unfolding read_chunks
read_on s r d left left' goes_on run = ground (arith, goes_on, run)

chunks-Read :
    (cs before rest out : List Chunk) (s : Segment)
    → All (λ (c : Chunk). c.flag.segment_end ≡ false) cs
    → map unmarked out ≡ map unmarked (cs ++ segment_end ∷ rest)
    → AllMarked before s.chunks
    → Read s out rest (before ++ cs) (s.chunk_num + sum_by file_chunk cs)
unfolding read_chunks new_chunk
chunks-Read [] before rest out s inner e m =
    let (d, left, cons, same, others) = first_passed out segment_end rest e in
    let ends : d.flag.segment_end ≡ true = ap (λ (x : Chunk). x.flag.segment_end) same in
    (s, left, rw cons (ground (arith, ends)), others, rw (append-nil before) m, omega arith)
chunks-Read (c ∷ cs) before rest out s (i, inner) e m =
    let (d, left, cons, same, others) = first_passed out c (cs ++ segment_end ∷ rest) e in
    let marked = passed-Marked c d same in
    let goes_on : d.flag.segment_end ≡ false = ap (λ (x : Chunk). x.flag.segment_end) same ∙ i in
    let m' : AllMarked (before ++ c ∷ []) (taken s d).chunks =
      rw (taken_chunks s d) (AllMarked-append m marked) in
    let (r, left', run, all, ms, num) =
      chunks-Read cs (before ++ c ∷ []) rest left (taken s d) inner others m' in
    (
      r,
      left',
      subst (λ l. read_chunks s l ≡ some (r, left')) (sym cons)
          (read_on s r d left left' goes_on run),
      all,
      subst (λ l. AllMarked l r.chunks) (append_assoc before (c ∷ []) cs) ms,
      num ∙ ground (arith, marked.kept.signal),
    )

segments_read :
    (largest : ℕ) (ss : List Segment) (fuel : ℕ) (out : List Chunk)
    → All (IsSent largest) ss
    → length ss < fuel
    → map unmarked out ≡ map unmarked (send_segments ss)
    → (rs : List Segment) × (read_segments fuel out ≡ some rs)
      × SegmentsMarked (map (λ s. s.chunks) ss) (map (λ s. s.chunks) rs)
      × (map (λ s. s.chunk_num) rs ≡ map (λ s. s.chunk_num) ss)
unfolding read_segments send_segments send_segment new_chunk
segments_read largest ss zero out sent h e = absurd (omega arith)
segments_read largest [] (suc fuel) [] sent h e = ([], refl, no_segments, refl)
segments_read largest [] (suc fuel) (c ∷ out) sent h e = absurd (ground (arith, e))
segments_read largest (s ∷ ss) (suc fuel) out (t, sent) h e =
    let inside = s.chunks ++ segment_end ∷ send_segments ss in
    let flat : (s.chunks ++ segment_end ∷ []) ++ send_segments ss ≡ inside =
      append_assoc s.chunks (segment_end ∷ []) (send_segments ss) in
    let (d, left, cons, same, others) = first_passed out segment_start inside (rw flat at e) in
    let begins : d.flag.segment_start ≡ true = ap (λ (x : Chunk). x.flag.segment_start) same in
    let (r, left', run, all, ms, num) =
      chunks-Read s.chunks [] (send_segments ss) left new_segment t.inner others marked_nil in
    let (rs, runs, mss, nums) = segments_read largest ss fuel left' sent (omega arith) all in
    (
      r ∷ rs,
      subst (λ l. read_segments (suc fuel) l ≡ some (r ∷ rs)) (sym cons)
          (ground (arith, begins, run, runs)),
      more_segments ms mss,
      ground (arith, num, nums, t.counted),
    )

-- Whatever the rewriting algorithm (none, CFL-based with a buffer of at least one chunk that stays below
-- 2 ^ 31 bytes when it is full of chunks of `largest` bytes, or capping with such a buffer, a sort by
-- length that puts the largest record first and one by id that puts the smallest id first), if the
-- chunks that the deduplication phase sends are tidy and of at most `largest` bytes and none ends a
-- segment, then the rewriting phase overflows no counter and fails no assertion, and the filter
-- phase puts the same segments together from what it passes on, without a failed assertion or a NULL in
-- the middle of a segment: each with its chunks in order, their fingerprints, sizes, ids and duplicate
-- marks kept, and with the number of its chunks of files.
pub read_segments-rewrite_phase :
    (largest : ℕ) (algorithm : Algorithm) (ss : List Segment)
    → IsConfigured largest algorithm
    → All (IsSent largest) ss
    → (out : List Chunk) × (rs : List Segment) × (rewrite_phase algorithm (send_segments ss)
        ≡ some out)
      × (read_segments (suc (length ss)) out ≡ some rs)
      × SegmentsMarked (map (λ s. s.chunks) ss) (map (λ s. s.chunks) rs)
      × (map (λ s. s.chunk_num) rs ≡ map (λ s. s.chunk_num) ss)
read_segments-rewrite_phase largest algorithm ss h sent =
    let (out, e, same) =
      rewrite_phase-stream largest algorithm (send_segments ss) h
        (send_segments-IsTidy largest ss sent) (send_segments-IsSmall largest ss sent) in
    let (rs, run, marked, nums) =
      segments_read largest ss (suc (length ss)) out sent (omega arith) same in
    (out, rs, e, run, marked, nums)
