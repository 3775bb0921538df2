-- ===== src/Chunking.antt =====
-- Cutting files into chunks: destor-master/src/chunk_phase.c.
pub mod Cuts
pub mod Fill
pub mod Stream
pub mod Poly
pub mod Rabin
pub mod Extreme
pub mod Scan
pub mod Methods
pub mod Files
mod Tests
mod MethodTests
use destor_lt.Prelude.{
  ℕ, zero, suc, ◌+◌, ◌-◌, ◌<◌, ◌≤◌, ◌≡◌, Bool, true, false, not, ◌&&◌, Option, none, some, List, [],
  ◌∷◌, ◌++◌, ltb, leb, ◌==◌, if◌then◌else◌, length, take, drop,
}
use destor_lt.Chunk.{Chunk, new_chunk, no_flags, temporary_id}

-- `chunk_max_size`, and the function `chunking` points to, from the bytes left to the size of the next
-- chunk.
pub record Config : Type 0 where
  pub chunk_max_size : ℕ
  pub chunking : List ℕ → ℕ

-- What the phase asks of a method: it cuts off some of the bytes left, no more than the maximum, and
-- does not look past the maximum.
pub record IsChunking (cfg : Config) : Type 0 where
  pub positive : (buf : List ℕ) → 0 < length buf → 0 < cfg.chunking buf
  pub within : (buf : List ℕ) → cfg.chunking buf ≤ length buf
  pub bounded : (buf : List ℕ) → cfg.chunking buf ≤ cfg.chunk_max_size
  pub local :
      (buf more : List ℕ)
      → cfg.chunk_max_size ≤ length buf
      → cfg.chunking (buf ++ more) ≡ cfg.chunking buf

abbrev pub default_block_size : ℕ
default_block_size = 1_048_576

unfoldable pub fixed_chunk_data : ℕ → List ℕ → ℕ
fixed_chunk_data chunk_avg_size buf =
    if ltb (length buf) chunk_avg_size then length buf else chunk_avg_size

-- What is pushed to `chunk_queue`, and `zero_chunk_num` and `zero_chunk_size` of the job.
pub record State : Type 0 where
  pub out : List Chunk
  pub zero_chunk_num : ℕ
  pub zero_chunk_size : ℕ

-- `memcmp` with the buffer of zeros.
unfoldable pub all_zero : List ℕ → Bool
all_zero [] = true
all_zero (b ∷ bs) = (b == 0) && all_zero bs

-- `memcpy` behind the bytes left; `none` is an access past the end of `leftbuf`.
unfoldable pub add_left : Config → List ℕ → Chunk → Option (List ℕ)
add_left cfg left c =
    if leb (length left + length c.bytes) (default_block_size + cfg.chunk_max_size)
    then some (left ++ c.bytes)
    else none

-- The loop that reads more of the file: the bytes left, the end of the file if it came, and the rest
-- of `read_queue`. `none` is the dereference of NULL at the end of `read_queue`, or `add_left`'s.
unfoldable pub fill :
    Config → List ℕ → Option Chunk → List Chunk → Option (List ℕ × Option Chunk × List Chunk)
fill cfg left (some end) input = some (left, some end, input)
fill cfg left none [] = if ltb (length left) cfg.chunk_max_size then none else some (left, none, [])
fill cfg left none (c ∷ input) =
    if ltb (length left) cfg.chunk_max_size
    then if c.flag.file_end
      then some (left, some c, input)
      else elim (add_left cfg left c) [ none ↦ none | some left' ↦ fill cfg left' none input ]
    else some (left, none, c ∷ input)

abbrev pub chunk_of : Config → List ℕ → Chunk
chunk_of cfg left = record (new_chunk (cfg.chunking left)) { bytes = take (cfg.chunking left) left }

-- The chunk that is cut off, which is counted if it is all zeros; `none` is the comparison past the
-- end of `zeros`, which holds `chunk_max_size` bytes.
unfoldable pub cut : Config → List ℕ → State → Option (State × List ℕ)
cut cfg left st =
    let chunk_size = cfg.chunking left in
    let nc = chunk_of cfg left in
    if ltb cfg.chunk_max_size chunk_size
    then none
    else some (
      record {
        out = st.out ++ nc ∷ [];
        zero_chunk_num = if all_zero nc.bytes then st.zero_chunk_num + 1 else st.zero_chunk_num;
        zero_chunk_size =
            if all_zero nc.bytes then st.zero_chunk_size + chunk_size else st.zero_chunk_size;
      },
      drop chunk_size left,
    )

-- The loop over a file, on fuel: the end of the file, and the rest of `read_queue`.
unfoldable pub cut_file :
    Config → ℕ → List ℕ → Option Chunk → List Chunk → State → Option (State × Chunk × List Chunk)
cut_file cfg zero left c input st = none
cut_file cfg (suc fuel) left c input st = elim (fill cfg left c input) [
  | none ↦ none
  | some (left₁, c₁, input₁) ↦
      if length left₁ == 0
      then elim c₁ [ none ↦ none | some end ↦ some (st, end, input₁) ]
      else elim (cut cfg left₁ st) [
        | none ↦ none
        | some (st₂, left₂) ↦ cut_file cfg fuel left₂ c₁ input₁ st₂
      ]
]

abbrev pub bytes_of : List Chunk → List ℕ
bytes_of [] = []
bytes_of (c ∷ cs) = c.bytes ++ bytes_of cs

-- A file whose start was popped: its first chunk is popped, and then its chunks are cut. A round of
-- fuel is used for each chunk cut and one for the end of the file.
unfoldable pub read_file : Config → List Chunk → State → Option (State × List Chunk)
read_file cfg [] st = none
read_file cfg (c ∷ input) st =
    let ended =
      if c.flag.file_end then cut_file cfg 1 [] (some c) input st else elim (add_left cfg [] c) [
        | none ↦ none
        | some left ↦ cut_file cfg (suc (length left + length (bytes_of input))) left none input st
      ] in
    elim ended [
      | none ↦ none
      | some (st', end, input') ↦ some (record st' { out = st'.out ++ end ∷ [] }, input')
    ]

-- The loop over the files, on fuel, one round for each file and one for the end of `read_queue`;
-- `none` is a failed assertion too.
unfoldable pub chunk_thread : Config → ℕ → List Chunk → State → Option State
chunk_thread cfg zero input st = none
chunk_thread cfg (suc fuel) [] st = some st
chunk_thread cfg (suc fuel) (c ∷ input) st =
    if c.flag.file_start
    then elim (read_file cfg input (record st { out = st.out ++ c ∷ [] })) [
      | none ↦ none
      | some (st', input') ↦ chunk_thread cfg fuel input' st'
    ]
    else none
