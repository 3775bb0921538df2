-- ===== src/Recipe/Fetched.antt =====
-- The loop of recipestore.c that prefetches segments, on segments that were written.
use destor_lt.Prelude.{
  ℕ, zero, suc, ◌+◌, ◌*◌, ◌^◌, ◌<◌, ◌≡◌, refl, sym, ap, ◌∙◌, arith, Option, some, none, List, [],
  ◌∷◌, ◌++◌, length, take, map, append_assoc, if◌then◌else◌, insert, insert_all,
}
use destor_lt.Chunk.{Chunk, is_file_signal}
use destor_lt.Recipe.{ChunkPointer, FileRecipeMeta, make_segment_id, pointer_bytes}
use destor_lt.Recipe.Pointers.{IsPointer, pointers_bytes, read_pointer-pointer_bytes}
use destor_lt.Recipe.Read.{
  Reader, read_pointer, SegmentRecipe, read_kvpairs, complete_segment, prefetch_loop,
}
use destor_lt.Recipe.Filter.{pointer_of}
use destor_lt.Recipe.Stream.{Run, done, opens, holds, closes}
use destor_lt.Recipe.Written.{items_of, start_flag, end_flag}
use destor_lt.Recipe.Segments.{Segments, none_left, segment_of, pointers_bytes-append, flags_fit}

-- The pointers to the chunks of a segment.
unfoldable pub pointers_in : List Chunk → List ChunkPointer
pointers_in [] = []
pointers_in (c ∷ cs) =
    if is_file_signal c
    then pointers_in cs
    else elim c.id [ none ↦ pointers_in cs | some id ↦ pointer_of c id ∷ pointers_in cs ]

Run-pointers_in :
    {r r' : Option FileRecipeMeta} {cs : List Chunk} {ms : List FileRecipeMeta}
    {ps : List ChunkPointer}
    → Run r cs r' ms ps
    → pointers_in cs ≡ ps
unfolding pointers_in
Run-pointers_in (done r) = refl
Run-pointers_in (opens c name start named d) = rw start (Run-pointers_in d)
Run-pointers_in (holds c r id start end is word d) =
    rw (start, end, is) (ap (◌∷◌ (pointer_of c id)) (Run-pointers_in d))
Run-pointers_in (closes c r start end short d) = rw (start, end) (Run-pointers_in d)

abbrev pub entry : ChunkPointer → ℕ × ChunkPointer
entry cp = (cp.fp, cp)

-- The recipe of a segment that stands at an offset: the last pointer of each fingerprint.
abbrev pub recipe_of : ℕ → ℕ → List ChunkPointer → SegmentRecipe
recipe_of bv_num off ps = record {
  id = make_segment_id bv_num off (length ps);
  kvpairs = insert_all (map entry ps) [];
}

unfoldable pub recipes_of : ℕ → ℕ → List (List Chunk) → List SegmentRecipe
recipes_of bv_num off [] = []
recipes_of bv_num off (s ∷ ss) =
    recipe_of bv_num off (pointers_in s)
    ∷ recipes_of bv_num (off + 32 * (2 + length (pointers_in s))) ss

abbrev pub reader : ℕ → List ℕ → Reader
reader off rest = record { off = off; rest = rest }

kv_step :
    (c : Chunk) (id n off : ℕ) (rest : List ℕ) (kvpairs : List (ℕ × ChunkPointer))
    → IsPointer (pointer_of c id)
    → read_kvpairs (suc n) (reader off (pointer_bytes (pointer_of c id) ++ rest)) kvpairs
      ≡ read_kvpairs n (reader (off + 32) rest) (insert c.fp (pointer_of c id) kvpairs)
unfolding read_kvpairs
kv_step c id n off rest kvpairs word =
    rw (read_kvpairs, read_pointer-pointer_bytes (pointer_of c id) off rest word) refl

read_kvpairs-Run :
    {r r' : Option FileRecipeMeta} {cs : List Chunk} {ms : List FileRecipeMeta}
    {ps : List ChunkPointer}
    → Run r cs r' ms ps
    → (off : ℕ) (rest : List ℕ) (kvpairs : List (ℕ × ChunkPointer))
    → read_kvpairs (length ps) (reader off (pointers_bytes ps ++ rest)) kvpairs
      ≡ some (insert_all (map entry ps) kvpairs, reader (off + 32 * length ps) rest)
unfolding pointers_bytes insert_all
read_kvpairs-Run (done r) off rest kvpairs =
    unfold read_kvpairs in ap (λ n. some (kvpairs, reader n rest)) (omega arith)
read_kvpairs-Run (opens c name start named d) off rest kvpairs = read_kvpairs-Run d off rest kvpairs
read_kvpairs-Run (closes c r start end short d) off rest kvpairs =
    read_kvpairs-Run d off rest kvpairs
read_kvpairs-Run (holds {ps = ps} c r id start end is word d) off rest kvpairs =
    let p = pointer_of c id in
    ap (λ l. read_kvpairs (suc (length ps)) (reader off l) kvpairs)
      (append_assoc (pointer_bytes p) (pointers_bytes ps) rest)
    ∙ kv_step c id (length ps) off (pointers_bytes ps ++ rest) kvpairs word
    ∙ read_kvpairs-Run d (off + 32) rest (insert c.fp p kvpairs)
    ∙ ap (λ n. some (insert_all (map entry (p ∷ ps)) kvpairs, reader n rest)) (omega arith)

complete_then :
    (bv_num off n : ℕ) (r r₁ r₂ : Reader) (kvpairs : List (ℕ × ChunkPointer))
    → read_kvpairs n r [] ≡ some (kvpairs, r₁)
    → read_pointer r₁ ≡ some (end_flag, r₂)
    → complete_segment bv_num off (start_flag n) r
      ≡ some (record { id = make_segment_id bv_num off n; kvpairs = kvpairs }, r₂)
unfolding complete_segment
complete_then bv_num off n r r₁ r₂ kvpairs all last = rw (complete_segment, all, last) refl

-- A segment behind its first flag.
complete_segment-Run :
    {r r' : Option FileRecipeMeta} {cs : List Chunk} {ms : List FileRecipeMeta}
    {ps : List ChunkPointer}
    → Run r cs r' ms ps
    → 64 + length ps * 32 < 2 ^ 31
    → (bv_num off at : ℕ) (rest : List ℕ)
    → complete_segment bv_num off
        (start_flag (length ps))
        (reader at (pointers_bytes ps ++ (pointer_bytes end_flag ++ rest)))
      ≡ some (recipe_of bv_num off ps, reader (at + 32 * length ps + 32) rest)
complete_segment-Run {ps = ps} d small bv_num off at rest =
    complete_then bv_num off (length ps)
      (reader at (pointers_bytes ps ++ (pointer_bytes end_flag ++ rest)))
      (reader (at + 32 * length ps) (pointer_bytes end_flag ++ rest))
      (reader (at + 32 * length ps + 32) rest) (insert_all (map entry ps) [])
      (read_kvpairs-Run d at (pointer_bytes end_flag ++ rest) [])
      (read_pointer-pointer_bytes end_flag (at + 32 * length ps) rest
        (flags_fit (length ps) small).1)

pub items_bytes :
    (ps items : List ChunkPointer)
    → pointers_bytes (items_of ps ++ items)
      ≡ pointer_bytes (start_flag (length ps))
        ++ (pointers_bytes ps ++ (pointer_bytes end_flag ++ pointers_bytes items))
unfolding pointers_bytes
items_bytes ps items =
    let start = pointer_bytes (start_flag (length ps)) in
    ap (λ l. start ++ pointers_bytes l) (append_assoc ps (end_flag ∷ []) items)
    ∙ ap (λ l. start ++ l) (pointers_bytes-append ps (end_flag ∷ items))

loop_then :
    (bv_num n : ℕ) (r r₁ r₂ : Reader) (k : ℕ) (sr : SegmentRecipe) (segments : List SegmentRecipe)
    → read_pointer r ≡ some (start_flag k, r₁)
    → complete_segment bv_num r.off (start_flag k) r₁ ≡ some (sr, r₂)
    → prefetch_loop bv_num n r₂ ≡ some segments
    → prefetch_loop bv_num (suc n) r ≡ some (sr ∷ segments)
unfolding prefetch_loop
loop_then bv_num n r r₁ r₂ k sr segments first done_so others =
    rw (prefetch_loop, first, done_so, others) refl

pub prefetch_loop-Run :
    {r r' : Option FileRecipeMeta} {ss : List (List Chunk)} {ms : List FileRecipeMeta}
    {ps items : List ChunkPointer}
    → Segments r ss r' ms ps items
    → (bv_num n off : ℕ)
    → prefetch_loop bv_num n (reader off (pointers_bytes items))
      ≡ some (take n (recipes_of bv_num off ss))
unfolding recipes_of
prefetch_loop-Run segments bv_num zero off = unfold prefetch_loop in refl
prefetch_loop-Run (none_left r) bv_num (suc n) off =
    unfold prefetch_loop pointers_bytes read_pointer in refl
prefetch_loop-Run (segment_of {ss = ss} {items = items} r s ms ps d small rest) bv_num (suc n) off =
    let k = length ps in
    let behind = pointers_bytes ps ++ (pointer_bytes end_flag ++ pointers_bytes items) in
    let next = off + 32 + 32 * k + 32 in
    let shape = λ (l : List ChunkPointer).
      some (recipe_of bv_num off l ∷ take n (recipes_of bv_num (off + 32 * (2 + length l)) ss)) in
    ap (λ l. prefetch_loop bv_num (suc n) (reader off l)) (items_bytes ps items)
    ∙ loop_then bv_num n (reader off (pointer_bytes (start_flag k) ++ behind))
        (reader (off + 32) behind) (reader next (pointers_bytes items)) k (recipe_of bv_num off ps)
        (take n (recipes_of bv_num next ss))
        (read_pointer-pointer_bytes (start_flag k) off behind (flags_fit k small).0)
        (complete_segment-Run d small bv_num off (off + 32) (pointers_bytes items))
        (prefetch_loop-Run rest bv_num n next)
    ∙ ap (λ m. some (recipe_of bv_num off ps ∷ take n (recipes_of bv_num m ss))) (omega arith)
    ∙ ap shape (sym (Run-pointers_in d))
