-- ===== src/Segment/Files.antt =====
-- The segments of file-defined segmenting, in index/segmenting_method.c.
use destor_lt.Prelude.{
  ◌≡◌, refl, true, false, Option, none, some, List, [], ◌∷◌, ◌++◌, arith, All, All-append,
  append-nil,
}
use destor_lt.Chunk.{Chunk}
use destor_lt.Segment.{Segment, opened, append_signal, segment_file_defined, segments}
use destor_lt.Segment.Stream.{IsMethod, all_chunks, segments-Cut}

abbrev pub IsInner : Chunk → Type 0
IsInner c = c.flag.file_end ≡ false

abbrev pub IsOpen : Segment → Type 0
IsOpen s = All IsInner s.chunks

-- One end of a file, at the segment's end.
abbrev pub IsFile : Segment → Type 0
IsFile s =
    (inner : List Chunk) × (c : Chunk) × (s.chunks ≡ inner ++ c ∷ [])
    × All IsInner inner
    × (c.flag.file_end ≡ true)

keeps_IsFile :
    (tmp : Option Segment) (c : Chunk)
    → c.flag.file_end ≡ true
    → IsOpen (opened tmp)
    → IsFile (append_signal c (opened tmp))
keeps_IsFile tmp c e o = ((opened tmp).chunks, c, refl, o, e)

keeps_IsInner :
    (tmp : Option Segment) (c : Chunk)
    → c.flag.file_end ≡ false
    → IsOpen (opened tmp)
    → All IsInner ((opened tmp).chunks ++ c ∷ [])
keeps_IsInner tmp c e o = All-append IsInner (opened tmp).chunks (c ∷ []) o (e, tt)

segment_file_defined-IsMethod : IsMethod segment_file_defined IsOpen IsFile
unfolding segment_file_defined
segment_file_defined-IsMethod = record {
  begins = tt;
  keeps = λ tmp c o.
      ground (
        arith,
        append-nil ((opened tmp).chunks ++ c ∷ []),
        keeps_IsFile tmp c,
        keeps_IsInner tmp c,
      );
  ends = λ tmp. refl;
}

-- File-defined segmenting puts every chunk into one segment, in the order of the stream. The first
-- segments each end with the end of a file and hold no other; the last holds none.
pub segment_file_defined-segments :
    (input : List Chunk)
    → (ss : List Segment) × (last : Segment) × (segments segment_file_defined none input
        ≡ some (ss, last))
      × (all_chunks ss ++ last.chunks ≡ input)
      × All IsFile ss
      × IsOpen last
segment_file_defined-segments input =
    segments-Cut segment_file_defined IsOpen IsFile segment_file_defined-IsMethod none input tt
