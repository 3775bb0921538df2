-- ===== src/Recipe/Metas.antt =====
-- Reading the metadata of files, and the chunks of each file, out of a backup.
use destor_lt.Prelude.{
  ℕ, zero, suc, ◌+◌, ◌^◌, ◌≤◌, ◌<◌, ◌≡◌, refl, ap, ◌∙◌, arith, some, List, [], ◌∷◌, ◌++◌, length,
  take, drop, map, length-append, append_assoc, take-append, drop-append, All, false, ltb, leb,
  ◌||◌,
}
use destor_lt.Chunk.{Chunk}
use destor_lt.Storage.Serial.{host_bytes, unser_bytes-host_bytes, length-host_bytes}
use destor_lt.Recipe.{ChunkPointer, FileRecipeMeta, meta_bytes, metabufsize}
use destor_lt.Recipe.Read.{int_max, Restore, read_next_n_chunk_pointers}
use destor_lt.Recipe.Filter.{c_string, new_file_recipe_meta}
use destor_lt.Recipe.Stream.{metas_bytes}
use destor_lt.Recipe.Open.{
  Opened, read_field, read_counts, read_next_file_recipe_meta, start_chunk, end_chunk,
  chunk_of_pointer, read_chunks, read_files,
}
use destor_lt.Recipe.Kept.{Left, read_next_n-Left}

pub read_field-host_bytes :
    (w v : ℕ) (rest : List ℕ) → v < 256 ^ w → read_field w (host_bytes w v ++ rest) ≡ some (v, rest)
unfolding read_field
read_field-host_bytes w v rest small =
    let enough : ltb (length (host_bytes w v ++ rest)) w ≡ false =
      ground (arith, length-append (host_bytes w v) rest, length-host_bytes w v) in
    rw (enough, unser_bytes-host_bytes w v rest small) refl

-- Metadata whose fields hold its numbers, and whose name has no 0 in it.
abbrev pub IsMeta : FileRecipeMeta → Type 0
IsMeta r =
    (c_string (r.filename ++ 0 ∷ []) ≡ some r.filename)
    × (length r.filename ≤ metabufsize)
    × (r.chunknum < 256 ^ 8)
    × (r.filesize < 256 ^ 8)

abbrev counts_bytes : FileRecipeMeta → List ℕ
counts_bytes r = host_bytes 8 r.chunknum ++ host_bytes 8 r.filesize

read_counts-bytes :
    (r : FileRecipeMeta) (rest : List ℕ)
    → IsMeta r
    → read_counts r.filename (counts_bytes r ++ rest) ≡ some (r, rest)
unfolding read_counts new_file_recipe_meta
read_counts-bytes r rest (name, short, few, small) =
    let both = host_bytes 8 r.chunknum ++ (host_bytes 8 r.filesize ++ rest) in
    let read : read_counts r.filename both ≡ some (r, rest) =
      rw
        (
          read_counts,
          name,
          read_field-host_bytes 8 r.chunknum (host_bytes 8 r.filesize ++ rest) few,
          read_field-host_bytes 8 r.filesize rest small,
        )
        refl in
    ap (read_counts r.filename)
      (append_assoc (host_bytes 8 r.chunknum) (host_bytes 8 r.filesize) rest)
    ∙ read

meta_bytes-append :
    (r : FileRecipeMeta) (rest : List ℕ)
    → meta_bytes r ++ rest
      ≡ host_bytes 4 (length r.filename) ++ (r.filename ++ (counts_bytes r ++ rest))
unfolding meta_bytes
meta_bytes-append r rest =
    append_assoc (host_bytes 4 (length r.filename)) (r.filename ++ counts_bytes r) rest
    ∙ ap (λ l. host_bytes 4 (length r.filename) ++ l)
        (append_assoc r.filename (counts_bytes r) rest)

after_file : Opened → List ℕ → Opened
after_file b rest = record b { metadata = rest; read_file_num = b.read_file_num + 1 }

read_next-meta :
    (b : Opened) (r : FileRecipeMeta) (rest : List ℕ)
    → IsMeta r
    → b.read_file_num ≤ b.number_of_files
    → b.read_file_num < int_max
    → b.metadata ≡ meta_bytes r ++ rest
    → read_next_file_recipe_meta b ≡ some (r, after_file b rest)
unfolding read_next_file_recipe_meta after_file
read_next-meta b r rest fits more small bytes =
    let name = r.filename in
    let behind = counts_bytes r ++ rest in
    let asserted : (ltb b.number_of_files b.read_file_num || leb int_max b.read_file_num) ≡ false =
      ground arith in
    let enough : (leb int_max (length name) || ltb (length (name ++ behind)) (length name))
        ≡ false =
      ground (arith, length-append name behind, fits.1) in
    let len = read_field-host_bytes 4 (length name) (name ++ behind) (omega (arith, fits.1)) in
    rw
      (
        asserted,
        bytes,
        meta_bytes-append r rest,
        len,
        enough,
        take-append (length name) name behind refl,
        drop-append (length name) name behind refl,
        read_counts-bytes r rest fits,
      )
      refl

next_chunk :
    (n : ℕ) (b b' b'' : Restore) (p : ChunkPointer) (ps : List ChunkPointer) (cs : List Chunk)
    → read_next_n_chunk_pointers 1 b ≡ some (p ∷ ps, b')
    → read_chunks n b' ≡ some (cs, b'')
    → read_chunks (suc n) b ≡ some (chunk_of_pointer p ∷ cs, b'')
unfolding read_chunks
next_chunk n b b' b'' p ps cs first others = rw (read_chunks, first, others) refl

read_chunks-Left :
    (n : ℕ) (b : Restore) (ps : List ChunkPointer)
    → Left b ps
    → n ≤ length ps
    → (b' : Restore) × (read_chunks n b ≡ some (map chunk_of_pointer (take n ps), b'))
      × Left b' (drop n ps)
read_chunks-Left zero b ps left few = (b, unfold read_chunks in refl, left)
read_chunks-Left (suc n) b [] left few = absurd (omega arith)
read_chunks-Left (suc n) b (p ∷ ps) left few =
    let (b₁, first, left₁) = read_next_n-Left 1 b (p ∷ ps) left (omega arith) in
    let (b₂, others, left₂) = read_chunks-Left n b₁ ps left₁ (omega arith) in
    (b₂, next_chunk n b b₁ b₂ p [] (map chunk_of_pointer (take n ps)) first others, left₂)

-- What a restore makes of the files and the pointers of a backup.
unfoldable pub restored : List FileRecipeMeta → List ChunkPointer → List Chunk
restored [] ps = []
restored (m ∷ ms) ps =
    start_chunk m.filename ∷ map chunk_of_pointer (take m.chunknum ps)
    ++ end_chunk ∷ restored ms (drop m.chunknum ps)

-- There are pointers for the chunks of all files.
abbrev pub Covers : List FileRecipeMeta → List ChunkPointer → Type 0
Covers [] ps = Unit
Covers (m ∷ ms) ps = (m.chunknum ≤ length ps) × Covers ms (drop m.chunknum ps)

next_file :
    (n : ℕ) (b b₁ : Opened) (m : FileRecipeMeta) (restore : Restore) (cs rest : List Chunk)
    → read_next_file_recipe_meta b ≡ some (m, b₁)
    → read_chunks m.chunknum b₁.chunks ≡ some (cs, restore)
    → read_files n (record b₁ { chunks = restore }) ≡ some rest
    → read_files (suc n) b ≡ some (start_chunk m.filename ∷ cs ++ end_chunk ∷ rest)
unfolding read_files
next_file n b b₁ m restore cs rest first chunks others = rw (read_files, first, chunks, others) refl

pub read_files-metas :
    (ms : List FileRecipeMeta) (ps : List ChunkPointer) (b : Opened)
    → All IsMeta ms
    → Covers ms ps
    → b.metadata ≡ metas_bytes ms
    → b.read_file_num + length ms ≤ b.number_of_files
    → b.number_of_files ≤ int_max
    → Left b.chunks ps
    → read_files (length ms) b ≡ some (restored ms ps)
unfolding metas_bytes restored after_file
read_files-metas [] ps b fits covers bytes more small left = unfold read_files in refl
read_files-metas (m ∷ ms) ps b (fit, fits) (few, covers) bytes more small left =
    let first = read_next-meta b m (metas_bytes ms) fit (omega arith) (omega arith) bytes in
    let (restore, chunks, left') = read_chunks-Left m.chunknum b.chunks ps left few in
    let b₁ = after_file b (metas_bytes ms) in
    let others =
      read_files-metas ms (drop m.chunknum ps) (record b₁ { chunks = restore }) fits covers refl
        (omega arith) small left' in
    next_file (length ms) b b₁ m restore (map chunk_of_pointer (take m.chunknum ps))
      (restored ms (drop m.chunknum ps)) first chunks others
