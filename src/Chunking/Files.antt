-- ===== src/Chunking/Files.antt =====
-- The chunks that chunk_phase.c makes of a sequence of files.
use destor_lt.Prelude.{
  ℕ, suc, ◌<◌, ◌≡◌, refl, sym, ap, ◌∙◌, some, List, [], ◌∷◌, ◌++◌, arith, All, length, append_assoc,
  append-nil, true,
}
use destor_lt.Chunk.{Chunk}
use destor_lt.Chunking.{Config, IsChunking, State, bytes_of, read_file, chunk_thread}
use destor_lt.Chunking.Cuts.{IsCut, chunks_of, chunks_of_keeps}
use destor_lt.Chunking.Fill.{IsData}
use destor_lt.Chunking.Stream.{read_file-chunks_of}

-- A file as read_phase.c sends it.
pub record File : Type 0 where
  pub start : Chunk
  pub data_chunks : List Chunk
  pub end : Chunk

abbrev pub input_of : List File → List Chunk
input_of [] = []
input_of (f ∷ files) = f.start ∷ f.data_chunks ++ f.end ∷ input_of files

abbrev pub IsFile : File → Type 0
IsFile f =
    (f.start.flag.file_start ≡ true) × All IsData f.data_chunks × (f.end.flag.file_end ≡ true)

-- For each file its start, the chunks that its bytes make in one buffer, and its end.
unfoldable pub cut_files : Config → List File → List Chunk
cut_files cfg [] = []
cut_files cfg (f ∷ files) =
    f.start ∷ chunks_of cfg (length (bytes_of f.data_chunks)) (bytes_of f.data_chunks)
    ++ f.end ∷ cut_files cfg files

thread_step :
    (cfg : Config) (fuel : ℕ) (c : Chunk) (input rest : List Chunk) (st st₁ : State)
    → c.flag.file_start ≡ true
    → read_file cfg input (record st { out = st.out ++ c ∷ [] }) ≡ some (st₁, rest)
    → chunk_thread cfg (suc fuel) (c ∷ input) st ≡ chunk_thread cfg fuel rest st₁
unfolding chunk_thread
thread_step cfg fuel c input rest st st₁ starts read = ground (arith, starts, read)

-- With a positive maximum, and a method that cuts off some of the bytes left, no more than the maximum,
-- and does not look past it, the phase reads any sequence of files, sent as data in blocks of bounded
-- size, without a failed assertion or an access past a buffer; a round for each file and one more are
-- enough. However a file is split into blocks, it comes out as its start, the chunks that its bytes
-- make when they are cut from one buffer, and its end.
pub chunk_thread-cut_files :
    (cfg : Config) (files : List File) (st : State)
    → 0 < cfg.chunk_max_size
    → IsChunking cfg
    → All IsFile files
    → (st' : State) × (chunk_thread cfg (suc (length files)) (input_of files) st ≡ some st')
      × (st'.out ≡ st.out ++ cut_files cfg files)
unfolding cut_files
chunk_thread-cut_files cfg [] st positive method h =
    (st, unfold chunk_thread in refl, sym (append-nil st.out))
chunk_thread-cut_files cfg (f ∷ files) st positive method h =
    let (starts, blocks, ends) = h.0 in
    let cs = chunks_of cfg (length (bytes_of f.data_chunks)) (bytes_of f.data_chunks) in
    let (st₁, read, out₁) =
      read_file-chunks_of cfg positive f.end (input_of files) ends method f.data_chunks
        (record st { out = st.out ++ f.start ∷ [] }) blocks in
    let (st₂, run, out₂) = chunk_thread-cut_files cfg files st₁ positive method h.1 in
    (
      st₂,
      thread_step cfg (suc (length files)) f.start (f.data_chunks ++ f.end ∷ input_of files)
            (input_of files) st st₁ starts read
          ∙ run,
      out₂
          ∙ ap (λ l. l ++ cut_files cfg files) out₁
          ∙ append_assoc (st.out ++ f.start ∷ []) (cs ++ f.end ∷ []) (cut_files cfg files)
          ∙ append_assoc st.out (f.start ∷ []) ((cs ++ f.end ∷ []) ++ cut_files cfg files)
          ∙ ap (λ l. st.out ++ f.start ∷ l) (append_assoc cs (f.end ∷ []) (cut_files cfg files)),
    )

-- What the phase pushes for each file: chunks that hold its bytes in order, each of at least one byte
-- and at most the maximum, between its start and its end.
abbrev pub IsCutOf : Config → List File → List Chunk → Type 0
IsCutOf cfg [] out = out ≡ []
IsCutOf cfg (f ∷ files) out =
    (cs out' : List Chunk) × (out ≡ f.start ∷ cs ++ f.end ∷ out')
    × (bytes_of cs ≡ bytes_of f.data_chunks)
    × All (IsCut cfg) cs
    × IsCutOf cfg files out'

cut_files-IsCutOf :
    (cfg : Config) (files : List File) → IsChunking cfg → IsCutOf cfg files (cut_files cfg files)
unfolding cut_files
cut_files-IsCutOf cfg [] method = refl
cut_files-IsCutOf cfg (f ∷ files) method =
    let bytes = bytes_of f.data_chunks in
    let (kept, cuts) = chunks_of_keeps cfg (length bytes) bytes method (omega arith) in
    (
      chunks_of cfg (length bytes) bytes,
      cut_files cfg files,
      refl,
      kept,
      cuts,
      cut_files-IsCutOf cfg files method,
    )

-- With a positive maximum, and a method that cuts off some of the bytes left, no more than the maximum,
-- and does not look past it, the phase reads any sequence of files, sent as data in blocks of bounded
-- size, without a failed assertion or an access past a buffer; a round for each file and one more are
-- enough. Each file comes out as its start, chunks that hold its bytes in order, each of at least one
-- byte and at most the maximum, and its end.
pub chunk_thread-cuts :
    (cfg : Config) (files : List File) (st : State)
    → 0 < cfg.chunk_max_size
    → IsChunking cfg
    → All IsFile files
    → (st' : State) × (out : List Chunk) × (chunk_thread cfg
          (suc (length files))
          (input_of files)
          st
        ≡ some st')
      × (st'.out ≡ st.out ++ out)
      × IsCutOf cfg files out
chunk_thread-cuts cfg files st positive method h =
    let (st', run, out) = chunk_thread-cut_files cfg files st positive method h in
    (st', cut_files cfg files, run, out, cut_files-IsCutOf cfg files method)
