-- ===== src/Segment/Stream.antt =====
-- What the methods of index/segmenting_method.c do with a stream.
use destor_lt.Prelude.{
  ◌≡◌, refl, sym, ap, ◌∙◌, Option, none, some, List, [], ◌∷◌, ◌++◌, arith, All, append_assoc,
  append-nil,
}
use destor_lt.Chunk.{Chunk}
use destor_lt.Segment.{Segment, new_segment, opened, Method, segments}

abbrev pub chunks_of : Option Segment → List Chunk
chunks_of none = []
chunks_of (some s) = s.chunks

abbrev pub all_chunks : List Segment → List Chunk
all_chunks [] = []
all_chunks (s ∷ ss) = s.chunks ++ all_chunks ss

abbrev pub Returned : (Segment → Type 0) → Option Segment → Type 0
Returned P none = Unit
Returned P (some s) = P s

-- A method keeps every chunk, at its place; `Open` holds of `tmp` and of the last segment, `Closed`
-- of the others.
pub record IsMethod (method : Method) (Open Closed : Segment → Type 0) : Type 0 where
  pub begins : Open new_segment
  pub keeps :
      (tmp : Option Segment) (c : Chunk)
      → Open (opened tmp)
      → (chunks_of (method tmp (some c)).1 ++ chunks_of (method tmp (some c)).0
          ≡ (opened tmp).chunks ++ c ∷ [])
        × Open (opened (method tmp (some c)).0)
        × Returned Closed (method tmp (some c)).1
  pub ends : (tmp : Option Segment) → (method tmp none).1 ≡ some (opened tmp)

abbrev pub Cut :
    (Segment → Type 0) → (Segment → Type 0) → Method → Option Segment → List Chunk → Type 0
Cut Open Closed method tmp input =
    (ss : List Segment) × (last : Segment) × (segments method tmp input ≡ some (ss, last))
    × (all_chunks ss ++ last.chunks ≡ (opened tmp).chunks ++ input)
    × All Closed ss
    × Open last

opened_chunks : (tmp : Option Segment) → (opened tmp).chunks ≡ chunks_of tmp
opened_chunks none = refl
opened_chunks (some s) = refl

module _ (method : Method) (Open Closed : Segment → Type 0) (m : IsMethod method Open Closed) where
  segments-step :
      (tmp : Option Segment) (c : Chunk) (input : List Chunk) (tmp' returned : Option Segment)
      → method tmp (some c) ≡ (tmp', returned)
      → Open (opened tmp)
      → Cut Open Closed method tmp' input
      → Cut Open Closed method tmp (c ∷ input)
  unfolding segments
  segments-step tmp c input tmp' none e o (ss, last, run, all, closed, ends) =
      let kept : chunks_of tmp' ≡ (opened tmp).chunks ++ c ∷ [] = rw e at (m.keeps tmp c o).0 in
      (
        ss,
        last,
        ground (arith, e, run),
        all
            ∙ ap (λ l. l ++ input) (opened_chunks tmp' ∙ kept)
            ∙ append_assoc (opened tmp).chunks (c ∷ []) input,
        closed,
        ends,
      )
  segments-step tmp c input tmp' (some s) e o (ss, last, run, all, closed, ends) =
      let (kept', _, done') = m.keeps tmp c o in
      let kept : s.chunks ++ chunks_of tmp' ≡ (opened tmp).chunks ++ c ∷ [] = rw e at kept' in
      let done : Closed s = rw e at done' in
      (
        s ∷ ss,
        last,
        ground (arith, e, run),
        append_assoc s.chunks (all_chunks ss) last.chunks
            ∙ ap (λ l. s.chunks ++ l) (all ∙ ap (λ l. l ++ input) (opened_chunks tmp'))
            ∙ sym (append_assoc s.chunks (chunks_of tmp') input)
            ∙ ap (λ l. l ++ input) kept
            ∙ append_assoc (opened tmp).chunks (c ∷ []) input,
        (done, closed),
        ends,
      )

  pub segments-Cut :
      (tmp : Option Segment) (input : List Chunk)
      → Open (opened tmp)
      → Cut Open Closed method tmp input
  unfolding segments
  segments-Cut tmp [] o =
      ([], opened tmp, ground (arith, m.ends tmp), sym (append-nil (opened tmp).chunks), tt, o)
  segments-Cut tmp (c ∷ input) o =
      let (_, o', _) = m.keeps tmp c o in
      segments-step tmp c input (method tmp (some c)).0 (method tmp (some c)).1 refl o
        (segments-Cut (method tmp (some c)).0 input o')
