-- ===== src/Recipe/Filter.antt =====
-- How the loop of filter_phase.c writes a segment of the stream into the recipe of the backup.
use destor_lt.Prelude.{ℕ, ◌+◌, Option, some, none, List, [], ◌∷◌, ◌==◌, if◌then◌else◌, pos}
use destor_lt.Chunk.{Chunk, is_file_signal}
use destor_lt.Recipe.{
  ChunkPointer, FileRecipeMeta, BackupVersion, segment_start, segment_end, append_file_recipe_meta,
  append_segment_flag, append_n_chunk_pointers,
}

-- `r`, the file that is open, the backup, and the counters of the job.
pub record Writer : Type 0 where
  pub r : Option FileRecipeMeta
  pub bv : BackupVersion
  pub chunk_num : ℕ
  pub data_size : ℕ
  pub file_num : ℕ

-- A string in memory up to its end; `none` where it has none.
unfoldable pub c_string : List ℕ → Option (List ℕ)
c_string [] = none
c_string (b ∷ bs) =
    if b == 0 then some [] else elim (c_string bs) [ none ↦ none | some s ↦ some (b ∷ s) ]

unfoldable pub new_file_recipe_meta : List ℕ → FileRecipeMeta
new_file_recipe_meta name = record { chunknum = 0; filesize = 0; filename = name }

abbrev pub pointer_of : Chunk → ℕ → ChunkPointer
pointer_of c id = record { fp = c.fp; id = pos id; size = pos c.size }

-- A chunk of the segment; `none` is a failed assertion, or one of the recipe store.
unfoldable pub write_chunk : Chunk → Writer → Option Writer
write_chunk c w = elim w.r [
  | none ↦
      if c.flag.file_start
      then elim (c_string c.bytes) [
        | none ↦ none
        | some name ↦ some (record w { r = some (new_file_recipe_meta name) })
      ]
      else none
  | some r ↦
      if c.flag.file_end
      then elim (append_file_recipe_meta r w.bv) [
        | none ↦ none
        | some bv ↦ some (record w { r = none; bv = bv; file_num = w.file_num + 1 })
      ]
      else elim c.id [
        | none ↦ none
        | some id ↦ elim (append_n_chunk_pointers (pointer_of c id ∷ []) w.bv) [
          | none ↦ none
          | some bv ↦ some (record w {
            r = some (record r { chunknum = r.chunknum + 1; filesize = r.filesize + c.size });
            bv = bv;
            chunk_num = w.chunk_num + 1;
            data_size = w.data_size + c.size;
          })
        ]
      ]
]

unfoldable pub write_chunks : List Chunk → Writer → Option Writer
write_chunks [] w = some w
write_chunks (c ∷ cs) w = elim (write_chunk c w) [ none ↦ none | some w' ↦ write_chunks cs w' ]

-- `chunk_num` of a segment.
unfoldable pub count_chunks : List Chunk → ℕ
count_chunks [] = 0
count_chunks (c ∷ cs) = if is_file_signal c then count_chunks cs else count_chunks cs + 1

unfoldable pub write_segment_recipe : List Chunk → Writer → Option Writer
write_segment_recipe s w = elim (append_segment_flag segment_start (count_chunks s) w.bv) [
  | none ↦ none
  | some (bv₁, sid) ↦ elim (write_chunks s (record w { bv = bv₁ })) [
    | none ↦ none
    | some w₂ ↦ elim (append_segment_flag segment_end 0 w₂.bv) [
      | none ↦ none
      | some (bv₃, end_id) ↦ some (record w₂ { bv = bv₃ })
    ]
  ]
]

unfoldable pub write_recipe : List (List Chunk) → Writer → Option Writer
write_recipe [] w = some w
write_recipe (s ∷ ss) w = elim (write_segment_recipe s w) [
  | none ↦ none
  | some w' ↦ write_recipe ss w'
]
