-- ===== src/Recipe/RoundTrip.antt =====
-- A restore of destor_lt reads the stream that a backup wrote: filter_phase.c, recipestore.c and
-- do_restore.c together.
use destor_lt.Prelude.{
  ℕ, ◌^◌, ◌<◌, ◌≤◌, ◌≡◌, refl, sym, ap, ◌∙◌, subst, arith, Option, some, none, List, [], ◌∷◌, ◌++◌,
  length, drop, map, append_assoc, append-nil, drop-append, All,
}
use destor_lt.Chunk.{Chunk}
use destor_lt.Recipe.{
  create_backup_version, new_version, directory, ChunkPointer, FileRecipeMeta, BackupVersion,
  header_bytes, update_backup_version,
}
use destor_lt.Recipe.Pointers.{IsPointer, pointers_bytes}
use destor_lt.Recipe.Filter.{Writer, c_string, new_file_recipe_meta, pointer_of, write_recipe}
use destor_lt.Recipe.Stream.{metas_bytes, Run, done, opens, holds, closes}
use destor_lt.Recipe.Segments.{Segments, none_left, segment_of, flags_fit, write_recipe-Run}
use destor_lt.Recipe.Written.{end_flag}
use destor_lt.Recipe.Log.{view}
use destor_lt.Recipe.Read.{int_max}
use destor_lt.Recipe.Open.{Opened, open_backup_version, read_recipe_thread, read_files}
use destor_lt.Recipe.Kept.{kept}
use destor_lt.Recipe.Restored.{restore_of, Named, named, Run-Restores}
use destor_lt.Recipe.Head.{length-header_bytes, opened, open_backup_version-header}
use destor_lt.Recipe.Metas.{IsMeta, read_files-metas}

Run-append :
    {r r₁ r₂ : Option FileRecipeMeta} {s cs : List Chunk} {ms ns : List FileRecipeMeta}
    {ps qs : List ChunkPointer}
    → Run r s r₁ ms ps
    → Run r₁ cs r₂ ns qs
    → Run r (s ++ cs) r₂ (ms ++ ns) (ps ++ qs)
Run-append (done r) e = e
Run-append (opens c name start named_so d) e = opens c name start named_so (Run-append d e)
Run-append (holds c r id start end is word d) e = holds c r id start end is word (Run-append d e)
Run-append (closes c r start end short d) e = closes c r start end short (Run-append d e)

-- The stream that the segments make.
abbrev pub stream_of : List (List Chunk) → List Chunk
stream_of [] = []
stream_of (s ∷ ss) = s ++ stream_of ss

Segments-Run :
    {r r' : Option FileRecipeMeta} {ss : List (List Chunk)} {ms : List FileRecipeMeta}
    {ps items : List ChunkPointer}
    → Segments r ss r' ms ps items
    → Run r (stream_of ss) r' ms ps
Segments-Run (none_left r) = done r
Segments-Run (segment_of r s ms ps d small rest) = Run-append d (Segments-Run rest)

Run-pointers :
    {r r' : Option FileRecipeMeta} {cs : List Chunk} {ms : List FileRecipeMeta}
    {ps : List ChunkPointer}
    → Run r cs r' ms ps
    → (more : List ChunkPointer) → All IsPointer more
    → (kept (ps ++ more) ≡ ps ++ kept more) × All IsPointer (ps ++ more)
unfolding kept
Run-pointers (done r) more fits = (refl, fits)
Run-pointers (opens c name start named_so d) more fits = Run-pointers d more fits
Run-pointers (closes c r start end short d) more fits = Run-pointers d more fits
Run-pointers (holds c r id start end is word d) more fits =
    let (same, all) = Run-pointers d more fits in (ap (◌∷◌ (pointer_of c id)) same, (word, all))

Segments-items :
    {r r' : Option FileRecipeMeta} {ss : List (List Chunk)} {ms : List FileRecipeMeta}
    {ps items : List ChunkPointer}
    → Segments r ss r' ms ps items
    → (kept items ≡ ps) × All IsPointer items
unfolding kept
Segments-items (none_left r) = (refl, tt)
Segments-items (segment_of {items = items} r s ms ps d small rest) =
    let (left, fits) = Segments-items rest in
    let (start, end) = flags_fit (length ps) small in
    let (same, all) = Run-pointers d (end_flag ∷ items) (end, fits) in
    let apart = append_assoc ps (end_flag ∷ []) items in
    (ap kept apart ∙ same ∙ ap (λ l. ps ++ l) left, (start, subst (All IsPointer) (sym apart) all))

-- A file whose counts are int64_t.
abbrev pub IsCounted : FileRecipeMeta → Type 0
IsCounted m = (m.chunknum < 9_223_372_036_854_775_808) × (m.filesize < 9_223_372_036_854_775_808)

abbrev IsNamed : Option FileRecipeMeta → Type 0
IsNamed none = Unit
IsNamed (some r) = c_string (r.filename ++ 0 ∷ []) ≡ some r.filename

Run-IsMeta :
    {r r' : Option FileRecipeMeta} {cs : List Chunk} {ms : List FileRecipeMeta}
    {ps : List ChunkPointer}
    → Run r cs r' ms ps
    → IsNamed r
    → All IsCounted ms
    → All IsMeta ms
unfolding new_file_recipe_meta
Run-IsMeta (done r) name counts = tt
Run-IsMeta (opens c name start named_so d) before counts =
    Run-IsMeta d (subst (Named c.bytes) named_so (named c.bytes)).1 counts
Run-IsMeta (holds c r id start end is word d) name counts = Run-IsMeta d name counts
Run-IsMeta (closes c r start end short d) name ((few, small), counts) =
    ((name, omega (arith, short), omega arith, omega arith), Run-IsMeta d tt counts)

-- Before the first segment of a backup.
abbrev pub first_writer : BackupVersion → Writer
first_writer b = record { r = none; bv = b; chunk_num = 0; data_size = 0; file_num = 0 }

-- At the end the head is written over the one that was there.
update-metadata :
    (b₀ b : BackupVersion) (rest : List ℕ)
    → (view b).metadata ≡ header_bytes b₀ ++ rest
    → length b.path ≡ length b₀.path
    → (update_backup_version b).metadata ≡ header_bytes b ++ rest
unfolding update_backup_version view
update-metadata b₀ b rest held same =
    ap (λ l. header_bytes b ++ drop (length (header_bytes b)) l) held
    ∙ ap (λ l. header_bytes b ++ l)
        (drop-append (length (header_bytes b)) (header_bytes b₀) rest
          (omega (arith, length-header_bytes b₀, length-header_bytes b, same)))

read_back :
    (b₀ : BackupVersion) (w : Writer) (ss : List (List Chunk)) (ms : List FileRecipeMeta)
    (ps items : List ChunkPointer)
    → Segments none ss none ms ps items
    → All IsCounted ms
    → w.bv.bv_num < 256 ^ 4
    → length w.bv.path < int_max
    → c_string (w.bv.path ++ 0 ∷ []) ≡ some w.bv.path
    → length ms ≤ int_max
    → length ps ≤ int_max
    → w.bv.deleted ≡ 0
    → w.bv.number_of_files ≡ length ms
    → w.bv.number_of_chunks ≡ length ps
    → (view w.bv).metadata ≡ header_bytes b₀ ++ metas_bytes ms
    → length w.bv.path ≡ length b₀.path
    → w.bv.recipe ≡ pointers_bytes items
    → (o : Opened) × (open_backup_version w.bv.bv_num
          (update_backup_version w.bv).metadata
          (update_backup_version w.bv).recipe
        ≡ some o)
      × (o.path ≡ w.bv.path)
      × (read_recipe_thread o ≡ some (map restore_of (stream_of ss)))
unfolding update_backup_version read_recipe_thread
read_back b₀ w ss ms ps items segments counts num short name few_files few_chunks alive files chunks
      held same recipe =
    let meta = update-metadata b₀ w.bv (metas_bytes ms) held same in
    let run = Segments-Run segments in
    let (covers, stream) = Run-Restores run in
    let (left, fits) = Segments-items segments in
    let o = opened w.bv (metas_bytes ms) w.bv.recipe in
    (
      o,
      ap (λ m. open_backup_version w.bv.bv_num m w.bv.recipe) meta
          ∙ open_backup_version-header w.bv (metas_bytes ms) w.bv.recipe num (omega (arith, alive))
              (omega (arith, files)) (omega (arith, chunks)) short name,
      refl,
      ap (λ n. read_files n o) files
          ∙ read_files-metas ms ps o (Run-IsMeta run tt counts) covers refl (omega (arith, files))
              (omega (arith, files, few_files))
              (items, recipe, left, fits, omega (arith, chunks), omega (arith, chunks, few_chunks))
          ∙ ap some stream,
    )

-- A backup is created for a path that has a directory, of fewer than 4,096 bytes and none of them
-- 0, with a number below 2 ^ 31. If its stream has fewer than 2 ^ 31 files and fewer than 2 ^ 31 chunks of files and is cut into
-- segments of fewer than 2 ^ 26 - 2 chunks, its files have names that fit into the metadata buffer and
-- sizes below 2 ^ 63, and the fields of the chunks fit into the words that hold them, then the filter phase writes the recipe without a failed assertion or an access past a
-- buffer, and the finished backup can be opened. The restore overflows no int and reads the directory and, however the stream
-- was cut, the stream itself: each file's name, the fingerprint, the size and the container of each of
-- its chunks, and its end, in order.
pub read_recipe-write_recipe :
    (number : ℕ) (path dir : List ℕ) (ss : List (List Chunk)) (ms : List FileRecipeMeta)
    (ps items : List ChunkPointer)
    → directory path ≡ some dir
    → number < 2_147_483_648
    → length dir < 4_096
    → c_string (dir ++ 0 ∷ []) ≡ some dir
    → Segments none ss none ms ps items
    → All IsCounted ms
    → length ms ≤ int_max
    → length ps ≤ int_max
    → (b : BackupVersion) × (w : Writer) × (o : Opened) × (create_backup_version number path
        ≡ some b)
      × (write_recipe ss (first_writer b) ≡ some w)
      × (open_backup_version number
            (update_backup_version w.bv).metadata
            (update_backup_version w.bv).recipe
          ≡ some o)
      × (o.path ≡ dir)
      × (read_recipe_thread o ≡ some (map restore_of (stream_of ss)))
unfolding create_backup_version view header_bytes
read_recipe-write_recipe number path dir ss ms ps items found num short name segments counts
      few_files few_chunks =
    let b = new_version number dir in
    let (w, run, closed, wrote, recipe, fits) =
      write_recipe-Run segments (first_writer b) refl (omega arith) in
    let (o, opens_so, path_so, stream) =
      read_back b w ss ms ps items segments counts (omega (arith, wrote.bv_num, num))
        (omega (arith, ap length wrote.path, short))
        (subst (λ (p : List ℕ). c_string (p ++ 0 ∷ []) ≡ some p) (sym wrote.path) name) few_files
        few_chunks wrote.deleted (wrote.number_of_files ∙ omega arith)
        (wrote.number_of_chunks ∙ omega arith)
        (wrote.metadata ∙ ap (λ l. l ++ metas_bytes ms) (append-nil (header_bytes b)))
        (ap length wrote.path) recipe in
    (
      b,
      w,
      o,
      rw (found, create_backup_version) refl,
      run,
      ap
            (λ n.
              open_backup_version n (update_backup_version w.bv).metadata
                (update_backup_version w.bv).recipe)
            (sym wrote.bv_num)
          ∙ opens_so,
      path_so ∙ wrote.path,
      stream,
    )
