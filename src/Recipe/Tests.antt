-- ===== src/Recipe/Tests.antt =====
-- A small backup of two files, the first of which spans two segments, and its restore.
use destor_lt.Prelude.{
  ℕ, ◌<◌, ◌≡◌, refl, arith, some, none, List, [], ◌∷◌, ◌++◌, map, take, ℤ, true, pos,
}
use destor_lt.Chunk.{Chunk, new_chunk, no_flags}
use destor_lt.Recipe.{
  new_version, segment_start, append_segment_flag, ChunkPointer, FileRecipeMeta, BackupVersion,
  directory, create_backup_version, update_backup_version,
}
use destor_lt.Recipe.Filter.{Writer, c_string, new_file_recipe_meta, write_recipe, count_chunks}
use destor_lt.Recipe.Stream.{Run, opens, holds, closes, done}
use destor_lt.Recipe.Written.{items_of}
use destor_lt.Recipe.Segments.{Segments, none_left, segment_of}
use destor_lt.Recipe.Fetched.{recipes_of}
use destor_lt.Recipe.Prefetch.{with_recipe, prefetch_segments-write_recipe}
use destor_lt.Recipe.Read.{prefetch_segments}
use destor_lt.Recipe.Open.{Opened, open_backup_version, read_recipe_thread, start_chunk, end_chunk}
use destor_lt.Recipe.Restored.{restore_of, name_of}
use destor_lt.Recipe.RoundTrip.{first_writer, stream_of, read_recipe-write_recipe}

abbrev start : List ℕ → Chunk
start name = record (new_chunk 0) {
  flag = record no_flags { file_start = true };
  bytes = name ++ 0 ∷ [];
}

abbrev end : Chunk
end = record (new_chunk 0) { flag = record no_flags { file_end = true } }

abbrev chunk : ℕ → ℕ → Chunk
chunk fp id = record (new_chunk 100) { fp = fp; id = some id; bytes = 7 ∷ [] }

abbrev segments : List (List Chunk)
segments = (start (97 ∷ []) ∷ chunk 5 3 ∷ []) ∷ (chunk 6 4 ∷ end ∷ start (98 ∷ []) ∷ end ∷ []) ∷ []

abbrev first_meta : FileRecipeMeta
first_meta = record { chunknum = 2; filesize = 200; filename = 97 ∷ [] }

abbrev second_meta : FileRecipeMeta
second_meta = record { chunknum = 0; filesize = 0; filename = 98 ∷ [] }

abbrev pointer : ℕ → ℕ → ChunkPointer
pointer fp id = record { fp = fp; id = pos id; size = pos 100 }

named_a : c_string (97 ∷ 0 ∷ []) ≡ some (97 ∷ [])
unfolding c_string
named_a = refl

named_b : c_string (98 ∷ 0 ∷ []) ≡ some (98 ∷ [])
unfolding c_string
named_b = refl

first-Run :
    Run none
      (start (97 ∷ []) ∷ chunk 5 3 ∷ [])
      (some (record { chunknum = 1; filesize = 100; filename = 97 ∷ [] }))
      []
      (pointer 5 3 ∷ [])
unfolding new_chunk new_file_recipe_meta
first-Run = opens (start (97 ∷ [])) (97 ∷ []) refl named_a (
    holds (chunk 5 3) (new_file_recipe_meta (97 ∷ [])) 3 refl refl refl
      (omega arith, omega arith, omega arith)
      (done (some (record { chunknum = 1; filesize = 100; filename = 97 ∷ [] }))))

second-Run :
    Run
      (some (record { chunknum = 1; filesize = 100; filename = 97 ∷ [] }))
      (chunk 6 4 ∷ end ∷ start (98 ∷ []) ∷ end ∷ [])
      none
      (first_meta ∷ second_meta ∷ [])
      (pointer 6 4 ∷ [])
unfolding new_chunk new_file_recipe_meta
second-Run =
    holds (chunk 6 4) (record { chunknum = 1; filesize = 100; filename = 97 ∷ [] }) 4 refl refl refl
      (omega arith, omega arith, omega arith)
      (closes end first_meta refl refl (omega arith) (
        opens (start (98 ∷ [])) (98 ∷ []) refl named_b
          (closes end second_meta refl refl (omega arith) (done none))))

abbrev items : List ChunkPointer
items = items_of (pointer 5 3 ∷ []) ++ (items_of (pointer 6 4 ∷ []) ++ [])

segments_run :
    Segments none segments none
      (first_meta ∷ second_meta ∷ [])
      (pointer 5 3 ∷ pointer 6 4 ∷ [])
      items
segments_run =
    segment_of none (start (97 ∷ []) ∷ chunk 5 3 ∷ []) [] (pointer 5 3 ∷ []) first-Run (omega arith)
      (segment_of (some (record { chunknum = 1; filesize = 100; filename = 97 ∷ [] }))
        (chunk 6 4 ∷ end ∷ start (98 ∷ []) ∷ end ∷ []) (first_meta ∷ second_meta ∷ [])
        (pointer 6 4 ∷ []) second-Run (omega arith) (none_left none))

directory_found : directory (47 ∷ 99 ∷ []) ≡ some (47 ∷ [])
unfolding directory
directory_found = refl

named_root : c_string (47 ∷ 0 ∷ []) ≡ some (47 ∷ [])
unfolding c_string
named_root = refl

read_recipe-write_recipe_example :
    (b : BackupVersion) × (w : Writer) × (o : Opened) × (create_backup_version 0 (47 ∷ 99 ∷ [])
      ≡ some b)
    × (write_recipe segments (first_writer b) ≡ some w)
    × (open_backup_version 0
          (update_backup_version w.bv).metadata
          (update_backup_version w.bv).recipe
        ≡ some o)
    × (o.path ≡ 47 ∷ [])
    × (read_recipe_thread o ≡ some (map restore_of (stream_of segments)))
read_recipe-write_recipe_example =
    read_recipe-write_recipe 0 (47 ∷ 99 ∷ []) (47 ∷ []) segments (first_meta ∷ second_meta ∷ [])
      (pointer 5 3 ∷ pointer 6 4 ∷ []) items directory_found (omega arith) (omega arith) named_root
      segments_run ((omega arith, omega arith), ((omega arith, omega arith), tt)) (omega arith)
      (omega arith)

-- What the restore of the backup reads.
restored_stream :
    map restore_of (stream_of segments)
    ≡ start_chunk (97 ∷ [])
      ∷ record (chunk 5 3) { bytes = [] }
      ∷ record (chunk 6 4) { bytes = [] }
      ∷ end_chunk
      ∷ start_chunk (98 ∷ [])
      ∷ end_chunk
      ∷ []
unfolding restore_of name_of new_chunk
restored_stream = refl

abbrev first_chunks : List Chunk
first_chunks = start (97 ∷ []) ∷ chunk 5 3 ∷ []

few_chunks : count_chunks first_chunks < 65_536
unfolding count_chunks new_chunk
few_chunks = omega arith

prefetch_segments-write_recipe_example :
    (bv₁ : BackupVersion) × (sid : ℤ) × (w : Writer) × (append_segment_flag segment_start
        (count_chunks first_chunks)
        (new_version 0 (47 ∷ []))
      ≡ some (bv₁, sid))
    × (write_recipe segments (first_writer (new_version 0 (47 ∷ []))) ≡ some w)
    × (prefetch_segments (with_recipe 0 w.bv.recipe (λ z. none)) sid 4
        ≡ some (take 4 (recipes_of 0 0 segments)))
prefetch_segments-write_recipe_example =
    prefetch_segments-write_recipe (first_writer (new_version 0 (47 ∷ []))) (λ z. none) 3
      segments_run refl (omega arith) (omega arith) (omega arith) few_chunks
