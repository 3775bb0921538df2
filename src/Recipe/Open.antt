-- ===== src/Recipe/Open.antt =====
-- Opening a backup for a restore, the metadata of its files, and the thread of do_restore.c that reads
-- the recipe.
use destor_lt.Prelude.{
  ℕ, zero, suc, ◌+◌, true, ◌||◌, leb, Option, none, some, List, [], ◌∷◌, ◌++◌, ltb, ◌==◌,
  if◌then◌else◌, length, take, drop, ℤ, pos, negsuc,
}
use destor_lt.Chunk.{Chunk, ContainerId, new_chunk, no_flags}
use destor_lt.Storage.Serial.{unser_bytes}
use destor_lt.Recipe.{ChunkPointer, FileRecipeMeta}
use destor_lt.Recipe.Read.{int_max, Restore, read_next_n_chunk_pointers}
use destor_lt.Recipe.Filter.{c_string, new_file_recipe_meta}

-- `fread` of a field; `none` is the end of the file before its end.
unfoldable pub read_field : ℕ → List ℕ → Option (ℕ × List ℕ)
read_field w input = if ltb (length input) w then none else some (unser_bytes w input)

-- A backup that is open: the head of .meta, the bytes behind it, the state of the recipe, and the
-- global `read_file_num`.
pub record Opened : Type 0 where
  pub bv_num : ℕ
  pub deleted : ℕ
  pub number_of_files : ℕ
  pub path : List ℕ
  pub metadata : List ℕ
  pub read_file_num : ℕ
  pub chunks : Restore

-- The path is the string that the bytes read make with a 0 behind them; `none` is that `pathlen + 1`
-- overflows, too.
unfoldable pub read_path : ℕ → ℕ → ℕ → ℕ → List ℕ → List ℕ → Option Opened
read_path bv_num deleted files chunks recipe input = elim (read_field 4 input) [
  | none ↦ none
  | some (pathlen, input') ↦
      if leb int_max pathlen || ltb (length input') pathlen
      then none
      else elim (c_string (take pathlen input' ++ 0 ∷ [])) [
        | none ↦ none
        | some path ↦ some (record {
          bv_num = bv_num;
          deleted = deleted;
          number_of_files = files;
          path = path;
          metadata = drop pathlen input';
          read_file_num = 0;
          chunks = record {
            number_of_chunks = chunks;
            read_chunk_num = 0;
            recipe = record { off = 0; rest = recipe };
          };
        })
      ]
]

-- From the bytes of .meta and .recipe; `none` is the failed assertion on the number, too.
unfoldable pub open_backup_version : ℕ → List ℕ → List ℕ → Option Opened
open_backup_version number meta recipe = elim (read_field 4 meta) [
  | none ↦ none
  | some (bv_num, in₁) ↦ elim (read_field 4 in₁) [
    | none ↦ none
    | some (deleted, in₂) ↦ elim (read_field 8 in₂) [
      | none ↦ none
      | some (files, in₃) ↦ elim (read_field 8 in₃) [
        | none ↦ none
        | some (chunks, in₄) ↦
            if bv_num == number then read_path bv_num deleted files chunks recipe in₄ else none
      ]
    ]
  ]
]

-- The name is the string that the bytes read make with a 0 behind them.
unfoldable pub read_counts : List ℕ → List ℕ → Option (FileRecipeMeta × List ℕ)
read_counts filename input = elim (c_string (filename ++ 0 ∷ [])) [
  | none ↦ none
  | some name ↦ elim (read_field 8 input) [
    | none ↦ none
    | some (chunknum, in₁) ↦ elim (read_field 8 in₁) [
      | none ↦ none
      | some (filesize, in₂) ↦
          some
            (record (new_file_recipe_meta name) { chunknum = chunknum; filesize = filesize }, in₂)
    ]
  ]
]

-- `none` is a failed assertion, or that `len + 1` or `read_file_num` overflows, too.
unfoldable pub read_next_file_recipe_meta : Opened → Option (FileRecipeMeta × Opened)
read_next_file_recipe_meta b =
    if ltb b.number_of_files b.read_file_num || leb int_max b.read_file_num
    then none
    else elim (read_field 4 b.metadata) [
      | none ↦ none
      | some (len, input) ↦
          if leb int_max len || ltb (length input) len
          then none
          else elim (read_counts (take len input) (drop len input)) [
            | none ↦ none
            | some (r, rest) ↦
                some (r, record b { metadata = rest; read_file_num = b.read_file_num + 1 })
          ]
    ]

-- What stands for the start and the end of a file in `restore_recipe_queue`.
abbrev pub start_chunk : List ℕ → Chunk
start_chunk name = record (new_chunk (length name + 1)) {
  flag = record no_flags { file_start = true };
  bytes = name ++ 0 ∷ [];
}

abbrev pub end_chunk : Chunk
end_chunk = record (new_chunk 0) { flag = record no_flags { file_end = true } }

abbrev id_of : ℤ → ContainerId
id_of (pos id) = some id
id_of (negsuc id) = none

abbrev size_of : ℤ → ℕ
size_of (pos size) = size
size_of (negsuc size) = 0

-- A recipe has no id below TEMPORARY_ID and no size below 0, but in its flags.
abbrev pub chunk_of_pointer : ChunkPointer → Chunk
chunk_of_pointer cp = record (new_chunk 0) { fp = cp.fp; size = size_of cp.size; id = id_of cp.id }

-- The loop over the chunks of a file, on the int `j`, which stays below `read_chunk_num`; `none` is the dereference of NULL behind the last pointer.
unfoldable pub read_chunks : ℕ → Restore → Option (List Chunk × Restore)
read_chunks zero b = some ([], b)
read_chunks (suc n) b = elim (read_next_n_chunk_pointers 1 b) [
  | none ↦ none
  | some ([], b') ↦ none
  | some (cp ∷ cps, b') ↦ elim (read_chunks n b') [
    | none ↦ none
    | some (cs, b'') ↦ some (chunk_of_pointer cp ∷ cs, b'')
  ]
]

-- The loop over the files, of which there are `n` more, on the int `i`, which is `read_file_num`.
unfoldable pub read_files : ℕ → Opened → Option (List Chunk)
read_files zero b = some []
read_files (suc n) b = elim (read_next_file_recipe_meta b) [
  | none ↦ none
  | some (r, b₁) ↦ elim (read_chunks r.chunknum b₁.chunks) [
    | none ↦ none
    | some (cs, restore) ↦ elim (read_files n (record b₁ { chunks = restore })) [
      | none ↦ none
      | some rest ↦ some (start_chunk r.filename ∷ cs ++ end_chunk ∷ rest)
    ]
  ]
]

-- What is pushed to `restore_recipe_queue`.
unfoldable pub read_recipe_thread : Opened → Option (List Chunk)
read_recipe_thread b = read_files b.number_of_files b
