-- ===== src/Chunk.antt =====
-- `struct chunk` and the chunk flags of destor-master/src/destor.h.
use destor_lt.Prelude.{ℕ, Bool, true, false, ◌||◌, not, Option, none, some, ◌==◌, List, []}

-- The bits of `chunk.flag`; CHUNK_UNIQUE is 0, so a fresh chunk has none of them.
pub record Flags : Type 0 where
  pub duplicate : Bool
  pub sparse : Bool
  pub out_of_order : Bool
  pub in_cache : Bool
  pub rewrite_denied : Bool
  pub file_start : Bool
  pub file_end : Bool
  pub segment_start : Bool
  pub segment_end : Bool
  pub ready : Bool

abbrev pub no_flags : Flags
no_flags = record {
  duplicate = false;
  sparse = false;
  out_of_order = false;
  in_cache = false;
  rewrite_denied = false;
  file_start = false;
  file_end = false;
  segment_start = false;
  segment_end = false;
  ready = false;
}

-- A container's id; `none` is TEMPORARY_ID, -1.
abbrev pub ContainerId : Type 0
ContainerId = Option ℕ

abbrev pub temporary_id : ContainerId
temporary_id = none

-- A fingerprint is the number that its 20 bytes make, the first byte highest, so that `memcmp` is
-- the order of the numbers.
pub record Chunk : Type 0 where
  pub size : ℕ
  pub flag : Flags
  pub id : ContainerId
  pub fp : ℕ
  pub bytes : List ℕ

abbrev pub eq_id : ContainerId → ContainerId → Bool
eq_id none none = true
eq_id none (some b) = false
eq_id (some a) none = false
eq_id (some a) (some b) = a == b

-- The test that the phases make before they treat a chunk as a part of a file.
abbrev pub is_file_signal : Chunk → Bool
is_file_signal c = c.flag.file_start || c.flag.file_end

abbrev pub is_signal : Chunk → Bool
is_signal c = c.flag.file_start || (c.flag.file_end || (c.flag.segment_start || c.flag.segment_end))

abbrev pub is_normal : Chunk → Bool
is_normal c = not (is_signal c)

-- The sizes of containerstore.h, in bytes.
abbrev pub container_size : ℕ
container_size = 4_194_304

abbrev pub container_meta_size : ℕ
container_meta_size = 32_768

abbrev pub container_meta_entry : ℕ
container_meta_entry = 28

-- The levels of `simulation_level`, ascending.
abbrev pub simulation_no : ℕ
simulation_no = 0

abbrev pub simulation_restore : ℕ
simulation_restore = 1

abbrev pub simulation_append : ℕ
simulation_append = 2

abbrev pub simulation_all : ℕ
simulation_all = 3

-- `data` is allocated and not set; `bytes` holds what the code has written to it.
unfoldable pub new_chunk : ℕ → Chunk
new_chunk size = record { size = size; flag = no_flags; id = temporary_id; fp = 0; bytes = [] }
