-- ===== src/Segment/Counted.antt =====
-- That the methods of index/segmenting_method.c count the chunks of files in every segment.
use destor_lt.Prelude.{refl, arith, [], ◌∷◌, ◌++◌, append-nil}
use destor_lt.Segment.{
  Config, new_segment, opened, SegmentAlgorithm, index_segment_fixed, index_segment_content_defined,
  index_segment_file_defined, segment_fixed, segment_content_defined, segment_file_defined,
  init_segmenting_method,
}
use destor_lt.Segment.Stream.{IsMethod}
use destor_lt.Segment.Bounds.{IsCounted, append_signal-IsCounted, append_chunk-IsCounted}

fixed-IsMethod : (cfg : Config) → IsMethod (segment_fixed cfg) IsCounted IsCounted
unfolding segment_fixed
fixed-IsMethod cfg = record {
  begins = refl;
  keeps = λ tmp c o. ground (
    arith,
    append-nil ((opened tmp).chunks ++ c ∷ []),
    append_signal-IsCounted c (opened tmp),
    append_chunk-IsCounted c (opened tmp),
  );
  ends = λ tmp. refl;
}

content_defined-IsMethod :
    (cfg : Config) → IsMethod (segment_content_defined cfg) IsCounted IsCounted
unfolding segment_content_defined
content_defined-IsMethod cfg = record {
  begins = refl;
  keeps = λ tmp c o. ground (
    arith,
    append-nil ((opened tmp).chunks ++ c ∷ []),
    append_signal-IsCounted c (opened tmp),
    append_chunk-IsCounted c (opened tmp),
    append_chunk-IsCounted c new_segment,
  );
  ends = λ tmp. refl;
}

file_defined-IsMethod : IsMethod segment_file_defined IsCounted IsCounted
unfolding segment_file_defined
file_defined-IsMethod = record {
  begins = refl;
  keeps = λ tmp c o. ground (
    arith,
    append-nil ((opened tmp).chunks ++ c ∷ []),
    append_signal-IsCounted c (opened tmp),
    append_chunk-IsCounted c (opened tmp),
  );
  ends = λ tmp. refl;
}

pub init_segmenting_method-IsMethod :
    (cfg : Config) (algorithm : SegmentAlgorithm)
    → IsMethod (init_segmenting_method cfg algorithm) IsCounted IsCounted
unfolding init_segmenting_method
init_segmenting_method-IsMethod cfg index_segment_fixed = fixed-IsMethod cfg
init_segmenting_method-IsMethod cfg index_segment_content_defined = content_defined-IsMethod cfg
init_segmenting_method-IsMethod cfg index_segment_file_defined = file_defined-IsMethod
