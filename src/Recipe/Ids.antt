-- ===== src/Recipe/Ids.antt =====
-- The ids that recipestore.c gives to segments, and the parts that it takes out of them.
use destor_lt.Prelude.{ℕ, ◌+◌, ◌*◌, ◌%◌, ◌^◌, ◌<◌, ◌≡◌, ap, arith, pos}
use destor_lt.Recipe.{make_segment_id, id_to_size, id_to_off, id_to_bnum}
use destor_lt.Recipe.Words.{to_word, of_word}

pub make_segment_id-pos :
    (bid off size : ℕ)
    → bid < 32_768
    → off < 4_294_967_296
    → size < 65_536
    → make_segment_id bid off size ≡ pos (bid * 281_474_976_710_656 + off * 65_536 + size)
unfolding make_segment_id of_word
make_segment_id-pos bid off size small_bid small_off small_size =
    let kept : (bid * 2 ^ 48 + off * 2 ^ 16 + size) % 2 ^ 64
        ≡ bid * 281_474_976_710_656 + off * 65_536 + size =
      omega arith in
    rw kept (ground arith)

-- The number, the offset and the size that fit into 15, 32 and 16 bits are read back from the id of a
-- segment.
pub make_segment_id-parts :
    (bid off size : ℕ)
    → bid < 32_768
    → off < 4_294_967_296
    → size < 65_536
    → (id_to_bnum (make_segment_id bid off size) ≡ pos bid)
      × (id_to_off (make_segment_id bid off size) ≡ off)
      × (id_to_size (make_segment_id bid off size) ≡ size)
unfolding id_to_bnum id_to_off id_to_size to_word
make_segment_id-parts bid off size small_bid small_off small_size =
    let id = make_segment_id-pos bid off size small_bid small_off small_size in
    rw id (ap pos (omega arith), omega arith, omega arith)

-- The id of a segment of 65,536 chunks or more is the id of a shorter segment behind it.
make_segment_id-long :
    (bid off size : ℕ)
    → make_segment_id bid off (size + 65_536) ≡ make_segment_id bid (off + 1) size
unfolding make_segment_id
make_segment_id-long bid off size = ap (λ n. of_word 8 (n % 2 ^ 64)) (omega arith)
