-- ===== src/Recipe/Segments.antt =====
-- What the segments of a stream write into the files of a backup.
use destor_lt.Prelude.{
  ℕ, ◌+◌, ◌*◌, ◌^◌, ◌<◌, ◌≡◌, refl, sym, ap, ◌∙◌, arith, Option, some, none, List, [], ◌∷◌, ◌++◌,
  length, length-append, append_assoc, append-nil, ℤ,
}
use destor_lt.Chunk.{Chunk}
use destor_lt.Recipe.{
  ChunkPointer, FileRecipeMeta, BackupVersion, pointer_bytes, segment_start, segment_end,
  make_segment_id, temporary, append_segment_flag,
}
use destor_lt.Recipe.Pointers.{
  IsPointer, pointers_bytes, length-pointer_bytes, length-pointers_bytes,
}
use destor_lt.Recipe.Log.{view, Fits}
use destor_lt.Recipe.Filter.{Writer, write_chunks, count_chunks, write_segment_recipe, write_recipe}
use destor_lt.Recipe.Stream.{Run, Wrote, Wrote-nil, Wrote-append}
use destor_lt.Recipe.Written.{
  write_chunks-Run, count_chunks-Run, end_segment, start_segment, items_of, start_flag, end_flag,
}

-- The flags of a segment fit into their fields.
pub flags_fit : (n : ℕ) → 64 + n * 32 < 2 ^ 31 → IsPointer (start_flag n) × IsPointer end_flag
flags_fit n small =
    ((omega arith, omega arith, omega arith), (omega arith, omega arith, omega arith))

pub pointers_bytes-append :
    (ps qs : List ChunkPointer) → pointers_bytes (ps ++ qs) ≡ pointers_bytes ps ++ pointers_bytes qs
unfolding pointers_bytes
pointers_bytes-append [] qs = refl
pointers_bytes-append (p ∷ ps) qs =
    ap (λ l. pointer_bytes p ++ l) (pointers_bytes-append ps qs)
    ∙ sym (append_assoc (pointer_bytes p) (pointers_bytes ps) (pointers_bytes qs))

-- The bytes that fill the buffer of a segment are those of its pointers between its flags.
buffer_bytes :
    (ps : List ChunkPointer)
    → (pointer_bytes (start_flag (length ps)) ++ pointers_bytes ps) ++ pointer_bytes end_flag
      ≡ pointers_bytes (items_of ps)
unfolding pointers_bytes
buffer_bytes ps =
    let start = pointer_bytes (start_flag (length ps)) in
    append_assoc start (pointers_bytes ps) (pointer_bytes end_flag)
    ∙ ap (λ l. start ++ (pointers_bytes ps ++ l)) (sym (append-nil (pointer_bytes end_flag)))
    ∙ ap (λ l. start ++ l) (sym (pointers_bytes-append ps (end_flag ∷ [])))

-- What a writer has after segments that close these files and leave these pointers and items.
abbrev pub Goes :
    Writer
    → Option Writer
    → Option FileRecipeMeta
    → List FileRecipeMeta
    → List ChunkPointer
    → List ChunkPointer
    → Type 0
Goes w result r' ms ps items =
    (w' : Writer) × (result ≡ some w')
    × (w'.r ≡ r')
    × Wrote ms ps (view w.bv) (view w'.bv)
    × (w'.bv.recipe ≡ w.bv.recipe ++ pointers_bytes items)
    × Fits w'.bv

three_calls :
    (s : List Chunk) (w w₂ : Writer) (n : ℕ) (bv₁ bv₃ : BackupVersion) (a z : ℤ)
    → count_chunks s ≡ n
    → append_segment_flag segment_start n w.bv ≡ some (bv₁, a)
    → write_chunks s (record w { bv = bv₁ }) ≡ some w₂
    → append_segment_flag segment_end 0 w₂.bv ≡ some (bv₃, z)
    → write_segment_recipe s w ≡ some (record w₂ { bv = bv₃ })
unfolding write_segment_recipe
three_calls s w w₂ n bv₁ bv₃ a z count start run end =
    rw (write_segment_recipe, count, start, run, end) refl

write_segment_recipe-Run :
    {r r' : Option FileRecipeMeta} {s : List Chunk} {ms : List FileRecipeMeta}
    {ps : List ChunkPointer}
    → Run r s r' ms ps
    → 64 + length ps * 32 < 2 ^ 31
    → (w : Writer) → w.r ≡ r
    → Fits w.bv
    → Goes w (write_segment_recipe s w) r' ms ps (items_of ps)
unfolding view
write_segment_recipe-Run {s = s} {ps = ps} d small w opened fits =
    let n = length ps in
    let flag = pointer_bytes (start_flag n) in
    let bv₁ : BackupVersion = record w.bv { segment = some (64 + n * 32, flag) } in
    let w₁ : Writer = record w { bv = bv₁ } in
    let flag_size = length-pointer_bytes (start_flag n) in
    let (w₂, run, opened₂, wrote, recipe, segment, fits₂) =
      write_chunks-Run d w₁ (64 + n * 32) flag opened refl (omega (arith, flag_size)) fits in
    let buf = flag ++ pointers_bytes ps in
    let full : length buf + 32 ≡ 64 + n * 32 =
      omega (arith, flag_size, length-append flag (pointers_bytes ps), length-pointers_bytes ps) in
    let bv₃ : BackupVersion = record w₂.bv {
      recipe = w₂.bv.recipe ++ (buf ++ pointer_bytes end_flag);
      segment = none;
    } in
    (
      record w₂ { bv = bv₃ },
      three_calls s w w₂ n bv₁ bv₃ (make_segment_id w.bv.bv_num (length w.bv.recipe) n) temporary
          (count_chunks-Run d) (start_segment n w.bv small) run
          (end_segment w₂.bv (64 + n * 32) buf segment full),
      opened₂,
      record {
        path = wrote.path;
        bv_num = wrote.bv_num;
        deleted = wrote.deleted;
        metadata = wrote.metadata;
        number_of_files = wrote.number_of_files;
        number_of_chunks = wrote.number_of_chunks;
      },
      ap (λ l. l ++ (buf ++ pointer_bytes end_flag)) recipe
          ∙ ap (λ l. w.bv.recipe ++ l) (buffer_bytes ps),
      fits₂,
    )

-- The segments of a stream, with the files that they close, their pointers, and all that stands in the
-- recipe.
pub data Segments
    : Option FileRecipeMeta
      → List (List Chunk)
      → Option FileRecipeMeta
      → List FileRecipeMeta
      → List ChunkPointer
      → List ChunkPointer
      → Type 0 where
  none_left : (r : Option FileRecipeMeta) → Segments r [] r [] [] []
  segment_of :
      {r₁ r₂ : Option FileRecipeMeta} {ss : List (List Chunk)} {ns : List FileRecipeMeta}
      {qs items : List ChunkPointer} (r : Option FileRecipeMeta) (s : List Chunk)
      (ms : List FileRecipeMeta) (ps : List ChunkPointer)
      → Run r s r₁ ms ps
      → 64 + length ps * 32 < 2 ^ 31
      → Segments r₁ ss r₂ ns qs items
      → Segments r (s ∷ ss) r₂ (ms ++ ns) (ps ++ qs) (items_of ps ++ items)

recipe_then :
    (s : List Chunk) (ss : List (List Chunk)) (w w₁ : Writer)
    → write_segment_recipe s w ≡ some w₁
    → write_recipe (s ∷ ss) w ≡ write_recipe ss w₁
unfolding write_recipe
recipe_then s ss w w₁ run = rw (run, write_recipe) refl

pub write_recipe-Run :
    {r r' : Option FileRecipeMeta} {ss : List (List Chunk)} {ms : List FileRecipeMeta}
    {ps items : List ChunkPointer}
    → Segments r ss r' ms ps items
    → (w : Writer) → w.r ≡ r
    → Fits w.bv
    → Goes w (write_recipe ss w) r' ms ps items
unfolding write_recipe pointers_bytes
write_recipe-Run (none_left r) w opened fits =
    (w, refl, opened, Wrote-nil (view w.bv), sym (append-nil w.bv.recipe), fits)
write_recipe-Run (segment_of {r₁} {r₂} {ss} {ns} {qs} {items} r s ms ps d small rest) w opened
      fits =
    let (w₁, run, opened₁, wrote, recipe, fits₁) = write_segment_recipe-Run d small w opened fits in
    let (w₂, run', opened₂, wrote', recipe', fits₂) = write_recipe-Run rest w₁ opened₁ fits₁ in
    (
      w₂,
      recipe_then s ss w w₁ run ∙ run',
      opened₂,
      Wrote-append ms ns ps qs (view w.bv) (view w₁.bv) (view w₂.bv) wrote wrote',
      recipe'
          ∙ ap (λ l. l ++ pointers_bytes items) recipe
          ∙ append_assoc w.bv.recipe (pointers_bytes (items_of ps)) (pointers_bytes items)
          ∙ ap (λ l. w.bv.recipe ++ l) (sym (pointers_bytes-append (items_of ps) items)),
      fits₂,
    )
