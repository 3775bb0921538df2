-- ===== src/Recipe/Prefetch.antt =====
-- The segments that recipestore.c prefetches are those that the filter phase wrote.
use destor_lt.Prelude.{
  ℕ, suc, ◌+◌, ◌*◌, ◌<◌, ◌≡◌, refl, ap, ◌∙◌, arith, Option, some, List, ◌∷◌, ◌++◌, length, take,
  drop-append, true, false, if◌then◌else◌, ◌==◌, ℤ, pos, negsuc,
}
use destor_lt.Chunk.{Chunk}
use destor_lt.Recipe.{
  ChunkPointer, FileRecipeMeta, BackupVersion, segment_start, make_segment_id, append_segment_flag,
  pointer_bytes,
}
use destor_lt.Recipe.Words.{eq_int, eq_int_refl}
use destor_lt.Recipe.Ids.{make_segment_id-pos, make_segment_id-parts}
use destor_lt.Recipe.Pointers.{IsPointer, pointers_bytes, read_pointer-pointer_bytes}
use destor_lt.Recipe.Read.{read_pointer, starts_segment, prefetch_loop, prefetch_segments}
use destor_lt.Recipe.Filter.{Writer, write_recipe, count_chunks}
use destor_lt.Recipe.Written.{items_of, start_flag, end_flag, count_chunks-Run, start_segment}
use destor_lt.Recipe.Segments.{Segments, segment_of, flags_fit, write_recipe-Run}
use destor_lt.Recipe.Log.{Fits}
use destor_lt.Recipe.Fetched.{recipes_of, reader, items_bytes, prefetch_loop-Run}

-- The recipe of this backup is open, whatever other backups are.
abbrev pub with_recipe : ℕ → List ℕ → (ℤ → Option (ℕ × List ℕ)) → ℤ → Option (ℕ × List ℕ)
with_recipe bv_num recipe others z =
    if eq_int z (pos bv_num) then some (bv_num, recipe) else others z

prefetch_then :
    (others : ℤ → Option (ℕ × List ℕ)) (bv_num n k : ℕ) (before rest more : List ℕ)
    → bv_num < 32_768
    → length before < 4_294_967_296
    → k < 65_536
    → IsPointer (start_flag k)
    → rest ≡ pointer_bytes (start_flag k) ++ more
    → prefetch_segments
        (with_recipe bv_num (before ++ rest) others)
        (make_segment_id bv_num (length before) k)
        (suc n)
      ≡ prefetch_loop bv_num (suc n) (reader (length before) rest)
unfolding prefetch_segments
prefetch_then others bv_num n k before rest more small_num small_off small_k word starts =
    let sid = make_segment_id bv_num (length before) k in
    let (num, off, size) =
      make_segment_id-parts bv_num (length before) k small_num small_off small_k in
    let real : eq_int sid (negsuc 0) ≡ false =
      rw (make_segment_id-pos bv_num (length before) k small_num small_off small_k) refl in
    let same : eq_int (pos bv_num) (pos bv_num) ≡ true = eq_int_refl (pos bv_num) in
    let there = drop-append (length before) before rest refl in
    let positive : (suc n == 0) ≡ false = ground arith in
    let flag : read_pointer (record { off = length before; rest = rest })
        ≡ some (start_flag k, record { off = length before + 32; rest = more }) =
      ap (λ l. read_pointer (record { off = length before; rest = l })) starts
      ∙ read_pointer-pointer_bytes (start_flag k) (length before) more word in
    let starts : starts_segment (read_pointer (record { off = length before; rest = rest }))
        ≡ true =
      ap starts_segment flag in
    rw (prefetch_segments, real, num, same, off, there, positive, starts) refl

-- The filter phase starts a segment with an id, where the number of the backup fits into 15 bits, the
-- offset in the recipe into 32 bits and the number of its chunks into 16 bits. Once this and the other
-- segments of the stream are written, prefetching by that id does not fail: it gives this segment and
-- those behind it, as many as it is asked for, each with its own id and, under each fingerprint, the
-- last pointer of the segment that has it.
pub prefetch_segments-write_recipe :
    {r r' : Option FileRecipeMeta} {s : List Chunk} {ss : List (List Chunk)}
    {ms : List FileRecipeMeta} {ps items : List ChunkPointer} (w : Writer)
    (others : ℤ → Option (ℕ × List ℕ)) (n : ℕ)
    → Segments r (s ∷ ss) r' ms ps items
    → w.r ≡ r
    → Fits w.bv
    → w.bv.bv_num < 32_768
    → length w.bv.recipe < 4_294_967_296
    → count_chunks s < 65_536
    → (bv₁ : BackupVersion) × (sid : ℤ) × (w' : Writer) × (append_segment_flag segment_start
          (count_chunks s)
          w.bv
        ≡ some (bv₁, sid))
      × (write_recipe (s ∷ ss) w ≡ some w')
      × (prefetch_segments (with_recipe w.bv.bv_num w'.bv.recipe others) sid (suc n)
          ≡ some (take (suc n) (recipes_of w.bv.bv_num (length w.bv.recipe) (s ∷ ss))))
prefetch_segments-write_recipe w others n
      (segment_of {ss = ss} {items = items} r s ms ps d small rest) opened fits small_num small_off
      small_size =
    let b = w.bv in
    let k = length ps in
    let count = count_chunks-Run d in
    let segments = segment_of r s ms ps d small rest in
    let (w', run, closed, wrote, recipe, fits') = write_recipe-Run segments w opened fits in
    let bytes = pointers_bytes (items_of ps ++ items) in
    let found =
      prefetch_then others b.bv_num n k b.recipe bytes
        (pointers_bytes ps ++ (pointer_bytes end_flag ++ pointers_bytes items)) small_num small_off
        (omega (arith, small_size, count)) (flags_fit k small).0 (items_bytes ps items) in
    (
      record b { segment = some (64 + k * 32, pointer_bytes (start_flag k)) },
      make_segment_id b.bv_num (length b.recipe) k,
      w',
      ap (λ m. append_segment_flag segment_start m b) count ∙ start_segment k b small,
      run,
      ap
            (λ l.
              prefetch_segments (with_recipe b.bv_num l others)
                (make_segment_id b.bv_num (length b.recipe) k) (suc n))
            recipe
          ∙ found
          ∙ prefetch_loop-Run segments b.bv_num (suc n) (length b.recipe),
    )
