-- ===== src/Handoff/Stream.antt =====
-- From the stream that dedup_phase.c cuts to the segments that filter_phase.c works on.
use destor_lt.Prelude.{
  ℕ, suc, ◌<◌, ◌≡◌, refl, sym, ap, ◌∙◌, subst, arith, Option, none, some, List, [], ◌∷◌, ◌++◌, map,
  append_assoc, append-nil, All, All-append, length,
}
use destor_lt.Chunk.{Chunk}
use destor_lt.Segment.{
  Segment, Config, SegmentAlgorithm, index_segment_fixed, index_segment_content_defined,
  index_segment_file_defined, init_segmenting_method, segments,
}
use destor_lt.Segment.Stream.{all_chunks, segments-Cut}
use destor_lt.Segment.Bounds.{IsCounted}
use destor_lt.Segment.Counted.{init_segmenting_method-IsMethod}
use destor_lt.Rewrite.Buffer.Moves.{IsSmall}
use destor_lt.Rewrite.Phase.{Algorithm, IsConfigured, rewrite_phase}
use destor_lt.Index.Behind.{Backend}
use destor_lt.Pipeline.Runs.{AllMarked, marked_nil, marked_cons, SegmentsMarked, more_segments}
use destor_lt.Pipeline.Buffered.{All-split}
use destor_lt.Handoff.{send_segments, read_segments}
use destor_lt.Handoff.Looked.{list_cong}
use destor_lt.Handoff.Received.{read_segments-rewrite_phase}
use destor_lt.Handoff.Sent.{trace, Lookups, map_parts, IsInput, HasNear, Lookups-IsSent}

marked_trace : {cs ds : List Chunk} → AllMarked cs ds → map trace ds ≡ map trace cs
marked_trace marked_nil = refl
marked_trace (marked_cons {c} {d} m ms) =
    list_cong (λ i. (m.kept.fp i, m.kept.size i, m.kept.signal i)) (marked_trace ms)

segments_trace :
    (ss ts : List Segment)
    → SegmentsMarked (map (λ s. s.chunks) ss) (map (λ s. s.chunks) ts)
    → map trace (all_chunks ts) ≡ map trace (all_chunks ss)
segments_trace [] [] m = refl
segments_trace [] (t ∷ ts) m = elim m [ ]
segments_trace (s ∷ ss) [] m = elim m [ ]
segments_trace (s ∷ ss) (t ∷ ts) (more_segments m ms) =
    map_parts t.chunks s.chunks (all_chunks ts) (all_chunks ss) (marked_trace m)
      (segments_trace ss ts ms)

all_inside :
    (P : Chunk → Type 0) (ss : List Segment) (last : Segment)
    → All P (all_chunks ss ++ last.chunks)
    → All (λ (s : Segment). All P s.chunks) (ss ++ last ∷ [])
all_inside P [] last h = (h, tt)
all_inside P (s ∷ ss) last h =
    let (first, others) =
      All-split P s.chunks (all_chunks ss ++ last.chunks)
        (subst (All P) (append_assoc s.chunks (all_chunks ss) last.chunks) h) in
    (first, all_inside P ss last others)

all_chunks-snoc :
    (ss : List Segment) (last : Segment)
    → all_chunks (ss ++ last ∷ []) ≡ all_chunks ss ++ last.chunks
all_chunks-snoc [] last = append-nil last.chunks
all_chunks-snoc (s ∷ ss) last =
    ap (λ l. s.chunks ++ l) (all_chunks-snoc ss last)
    ∙ sym (append_assoc s.chunks (all_chunks ss) last.chunks)

-- What a method cuts, from what it is known to cut.
cut_parts :
    (cfg : Config) (method : SegmentAlgorithm) (input : List Chunk) (ss : List Segment)
    (last : Segment)
    → segments (init_segmenting_method cfg method) none input ≡ some (ss, last)
    → (all_chunks ss ++ last.chunks ≡ input) × All IsCounted (ss ++ last ∷ [])
cut_parts cfg method input ss last e =
    let (ss', last', run, all, counted, end_counted) =
      segments-Cut (init_segmenting_method cfg method) IsCounted IsCounted
        (init_segmenting_method-IsMethod cfg method) none input refl in
    let same : ◌≡◌ {A = Option (List Segment × Segment)} (some (ss', last')) (some (ss, last)) =
      sym run ∙ e in
    let same_ss : ss' ≡ ss = ground (arith, same) in
    let same_last : last' ≡ last = ground (arith, same) in
    (
      sym (λ i. all_chunks (same_ss i) ++ (same_last i).chunks) ∙ all,
      All-append IsCounted ss (last ∷ []) (subst (All IsCounted) same_ss counted)
          (subst IsCounted same_last end_counted, tt),
    )

-- The content-defined method divides by the average size of a segment.
abbrev pub Divides : Config → SegmentAlgorithm → Type 0
Divides cfg index_segment_fixed = Unit
Divides cfg index_segment_content_defined = 0 < cfg.index_segment_avg
Divides cfg index_segment_file_defined = Unit

module _ {σ : Type 0} (backend : Backend σ) (start : ℕ) where
  -- A stream of chunks of 1 to `largest` bytes and of signals, without ids or ends of segments, is cut
  -- into segments by one of the methods, with a positive average size where the method divides by it.
  -- Whatever the lookups find for these, in whatever states of the index, as long as the ids are below
  -- 2 ^ 31, and whatever the rewriting algorithm (none, CFL-based with a buffer of at least one chunk
  -- that stays below 2 ^ 31 bytes when it is full of chunks of `largest` bytes, or capping with such a
  -- buffer, a sort by length that puts the largest record first and one by id that puts the smallest id
  -- first), the rewriting phase overflows no counter and fails no assertion, and the filter phase puts
  -- together as many segments as were cut, each with as many chunks of files, without a failed assertion
  -- or a NULL in the middle of a segment. Their chunks are, in order, those of the stream, with the same
  -- fingerprints and sizes.
  pub read_segments-stream :
      (cfg : Config) (method : SegmentAlgorithm) (largest : ℕ) (algorithm : Algorithm)
      (input : List Chunk) (ss : List Segment) (last : Segment) (looked : List Segment)
      → Divides cfg method
      → IsConfigured largest algorithm
      → All IsInput input
      → All (IsSmall largest) input
      → segments (init_segmenting_method cfg method) none input ≡ some (ss, last)
      → Lookups backend start (ss ++ last ∷ []) looked
      → All (λ (s : Segment). All HasNear s.chunks) looked
      → (out : List Chunk) × (rs : List Segment) × (rewrite_phase algorithm (send_segments looked)
          ≡ some out)
        × (read_segments (suc (length looked)) out ≡ some rs)
        × (map (λ s. s.chunk_num) rs ≡ map (λ s. s.chunk_num) (ss ++ last ∷ []))
        × (map trace (all_chunks rs) ≡ map trace input)
  read_segments-stream cfg method largest algorithm input ss last looked pos h t small e l near =
      let (all, counted) = cut_parts cfg method input ss last e in
      let inside = all_inside IsInput ss last (subst (All IsInput) (sym all) t) in
      let bounded =
        all_inside (IsSmall largest) ss last (subst (All (IsSmall largest)) (sym all) small) in
      let (sent, same, nums) = Lookups-IsSent backend start largest l inside bounded counted near in
      let (out, rs, run₁, run₂, marked, counts) =
        read_segments-rewrite_phase largest algorithm looked h sent in
      (
        out,
        rs,
        run₁,
        run₂,
        counts ∙ nums,
        segments_trace looked rs marked ∙ same ∙ ap (map trace) (all_chunks-snoc ss last ∙ all),
      )
