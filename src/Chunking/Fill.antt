-- ===== src/Chunking/Fill.antt =====
-- Reading more of a file into the buffer of chunk_phase.c.
use destor_lt.Prelude.{
  ℕ, ◌≤◌, ◌<◌, ◌≡◌, ◌⊎◌, refl, ◌∙◌, Option, none, some, Bool-cases, inl, inr, List, [], ◌∷◌, ◌++◌,
  arith, All, length, append_assoc, ltb, false, true,
}
use destor_lt.Chunk.{Chunk}
use destor_lt.Chunking.{Config, default_block_size, add_left, fill, bytes_of}

-- What read_phase.c sends of a file: data in blocks of bounded size, then the end.
abbrev pub IsData : Chunk → Type 0
IsData c = (c.flag.file_end ≡ false) × (length c.bytes ≤ default_block_size)

-- What is left to read of a file: its end has come, or data chunks and the end are in `read_queue`.
pub data Rest (end : Chunk) (rest : List Chunk) : Option Chunk → List Chunk → List ℕ → Type 0 where
  over : Rest end rest (some end) rest []
  more : (cs : List Chunk) → All IsData cs → Rest end rest none (cs ++ end ∷ rest) (bytes_of cs)

abbrev pub Filled :
    Config → Chunk → List Chunk → List ℕ → Option Chunk → List Chunk → List ℕ → Type 0
Filled cfg end rest left c input bytes =
    (left' : List ℕ) × (c' : Option Chunk) × (input' : List Chunk) × (bytes' : List ℕ) × (fill cfg
        left c input
      ≡ some (left', c', input'))
    × Rest end rest c' input' bytes'
    × (left' ++ bytes' ≡ left ++ bytes)
    × ((c' ≡ some end) ⊎ (cfg.chunk_max_size ≤ length left'))

module _ (cfg : Config) (positive : 0 < cfg.chunk_max_size) (end : Chunk) (rest : List Chunk)
    (ends : end.flag.file_end ≡ true) where
  fill-full :
      (left : List ℕ) (cs : List Chunk)
      → ltb (length left) cfg.chunk_max_size ≡ false
      → All IsData cs
      → Filled cfg end rest left none (cs ++ end ∷ rest) (bytes_of cs)
  unfolding fill
  fill-full left [] h d =
      (left, none, end ∷ rest, [], rw h refl, more [] tt, refl, inr (ground arith))
  fill-full left (c ∷ cs) h d = (
    left,
    none,
    c ∷ cs ++ end ∷ rest,
    bytes_of (c ∷ cs),
    rw h refl,
    more (c ∷ cs) d,
    refl,
    inr (ground arith),
  )

  fill-more :
      (left : List ℕ) (cs : List Chunk)
      → All IsData cs
      → Filled cfg end rest left none (cs ++ end ∷ rest) (bytes_of cs)
  unfolding fill add_left
  fill-more left [] d = elim (Bool-cases (ltb (length left) cfg.chunk_max_size)) [
    | inl room ↦ (left, some end, rest, [], rw (room, ends) refl, over, refl, inl refl)
    | inr full ↦ fill-full left [] full d
  ]
  fill-more left (c ∷ cs) d = elim (Bool-cases (ltb (length left) cfg.chunk_max_size)) [
    | inl room ↦
        let fits : add_left cfg left c ≡ some (left ++ c.bytes) = ground (arith, d.0) in
        let (left', c', input', bytes', e, r, all, stop) = fill-more (left ++ c.bytes) cs d.1 in
        (
          left',
          c',
          input',
          bytes',
          rw (room, d.0.0, fits) e,
          r,
          all ∙ append_assoc left c.bytes (bytes_of cs),
          stop,
        )
    | inr full ↦ fill-full left (c ∷ cs) full d
  ]

  pub fill-Rest :
      (left bytes : List ℕ) (c : Option Chunk) (input : List Chunk)
      → Rest end rest c input bytes
      → Filled cfg end rest left c input bytes
  unfolding fill
  fill-Rest left _ _ _ over = (left, some end, rest, [], refl, over, refl, inl refl)
  fill-Rest left _ _ _ (more cs d) = fill-more left cs d
