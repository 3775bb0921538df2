-- ===== src/Chunking/Tests.antt =====
-- Cutting two small files with fixed sizes.
use destor_lt.Prelude.{ℕ, ◌≡◌, refl, true, some, List, [], ◌∷◌, arith, All}
use destor_lt.Chunk.{Chunk, new_chunk, no_flags, temporary_id}
use destor_lt.Chunking.{
  Config, State, fixed_chunk_data, all_zero, add_left, fill, cut, cut_file, read_file, chunk_thread,
}
use destor_lt.Chunking.Scan.{fixed_chunk_data-IsChunking}
use destor_lt.Chunking.Files.{
  File, input_of, IsFile, IsCutOf, chunk_thread-cuts, cut_files, chunk_thread-cut_files,
}

program : Unit {0}
unfolding new_chunk fixed_chunk_data all_zero add_left fill cut cut_file read_file chunk_thread
program = tt

abbrev cfg : Config
cfg = record { chunk_max_size = 2; chunking = fixed_chunk_data 2 }

abbrev signal : Chunk
signal = record { size = 0; flag = no_flags; id = temporary_id; fp = 0; bytes = [] }

abbrev data_chunk : List ℕ → Chunk
data_chunk bytes = record signal { bytes = bytes }

abbrev start : Chunk
start = record signal { flag = record no_flags { file_start = true } }

abbrev end : Chunk
end = record signal { flag = record no_flags { file_end = true } }

abbrev fresh : State
fresh = record { out = []; zero_chunk_num = 0; zero_chunk_size = 0 }

abbrev files : List File
files =
    record { start = start; data_chunks = data_chunk (0 ∷ 0 ∷ 5 ∷ []) ∷ []; end = end }
    ∷ record { start = start; data_chunks = []; end = end }
    ∷ []

abbrev sized : ℕ → List ℕ → Chunk
sized size bytes = record (data_chunk bytes) { size = size }

cuts_files :
    chunk_thread cfg 3 (input_of files) fresh
    ≡ some (record {
      out = start ∷ sized 2 (0 ∷ 0 ∷ []) ∷ sized 1 (5 ∷ []) ∷ end ∷ start ∷ end ∷ [];
      zero_chunk_num = 1;
      zero_chunk_size = 2;
    })
unfolding program
cuts_files = refl

files-IsFile : All IsFile files
files-IsFile = ((refl, ((refl, omega arith), tt), refl), ((refl, tt, refl), tt))

chunk_thread-cuts_example :
    (st' : State) × (out : List Chunk) × (chunk_thread cfg 3 (input_of files) fresh ≡ some st')
    × (st'.out ≡ out)
    × IsCutOf cfg files out
chunk_thread-cuts_example =
    chunk_thread-cuts cfg files fresh (omega arith) (fixed_chunk_data-IsChunking 2 (omega arith))
      files-IsFile

chunk_thread-cut_files_example :
    (st' : State) × (chunk_thread cfg 3 (input_of files) fresh ≡ some st')
    × (st'.out ≡ cut_files cfg files)
chunk_thread-cut_files_example =
    chunk_thread-cut_files cfg files fresh (omega arith)
      (fixed_chunk_data-IsChunking 2 (omega arith)) files-IsFile
