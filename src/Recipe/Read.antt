-- ===== src/Recipe/Read.antt =====
-- What recipestore.c reads back: the files of a backup from their first byte or from an offset.
use destor_lt.Prelude.{
  ℕ, zero, suc, ◌+◌, ◌-◌, Bool, true, false, Option, none, some, List, [], ◌∷◌, ltb, ◌==◌,
  if◌then◌else◌, length, drop, ℤ, pos, negsuc, insert,
}
use destor_lt.Storage.Serial.{unserial_int, unser_bytes}
use destor_lt.Recipe.{
  ChunkPointer, segment_start, segment_end, mark_id, make_segment_id, id_to_off, id_to_bnum,
}
use destor_lt.Recipe.Words.{of_word, eq_int}

-- A file that is read: `ftell`, and the bytes from there on.
pub record Reader : Type 0 where
  pub off : ℕ
  pub rest : List ℕ

-- `fseek` to an offset of a file.
abbrev pub seek : ℕ → List ℕ → Reader
seek off file = record { off = off; rest = drop off file }

-- `none` is the end of the file before the end of the pointer.
unfoldable pub read_pointer : Reader → Option (ChunkPointer × Reader)
read_pointer r =
    let (fp, r₁) = unserial_int 20 r.rest in
    let (id, r₂) = unser_bytes 8 r₁ in
    let (size, r₃) = unser_bytes 4 r₂ in
    if ltb (length r.rest) 32
    then none
    else some (
      record { fp = fp; id = of_word 8 id; size = of_word 4 size },
      record { off = r.off + 32; rest = r₃ },
    )

-- `kvpairs` maps fingerprints to chunk pointers.
pub record SegmentRecipe : Type 0 where
  pub id : ℤ
  pub kvpairs : List (ℕ × ChunkPointer)

abbrev is_negative : ℤ → Bool
is_negative (pos n) = false
is_negative (negsuc n) = true

abbrev pub count_of : ℤ → ℕ
count_of (pos n) = n
count_of (negsuc n) = 0

-- The loop over `flag.size` pointers; `none` is a failed assertion that an id is above TEMPORARY_ID,
-- or a pointer that the end of the file cuts off.
unfoldable pub read_kvpairs :
    ℕ → Reader → List (ℕ × ChunkPointer) → Option (List (ℕ × ChunkPointer) × Reader)
read_kvpairs zero r kvpairs = some (kvpairs, r)
read_kvpairs (suc n) r kvpairs = elim (read_pointer r) [
  | none ↦ none
  | some (cp, r') ↦
      let rest = read_kvpairs n r' (insert cp.fp cp kvpairs) in
      if is_negative cp.id then none else rest
]

-- A segment behind its first flag, which stood at `off`; `none` is a failed assertion that the segment
-- ends with a flag, too.
unfoldable pub complete_segment : ℕ → ℕ → ChunkPointer → Reader → Option (SegmentRecipe × Reader)
complete_segment bv_num off flag r = elim (read_kvpairs (count_of flag.size) r []) [
  | none ↦ none
  | some (kvpairs, r₁) ↦ elim (read_pointer r₁) [
    | none ↦ none
    | some (last, r₂) ↦
        if eq_int last.id (mark_id segment_end)
        then some
            (record { id = make_segment_id bv_num off (count_of flag.size); kvpairs = kvpairs }, r₂)
        else none
  ]
]

-- The result inside is `none` at the end of the recipe.
unfoldable pub read_next_segment : ℕ → Reader → Option (Option SegmentRecipe × Reader)
read_next_segment bv_num r = elim (read_pointer r) [
  | none ↦ some (none, record { off = r.off + length r.rest; rest = [] })
  | some (flag, r₁) ↦
      if eq_int flag.id (mark_id segment_start)
      then elim (complete_segment bv_num r.off flag r₁) [
        | none ↦ none
        | some (sr, r₂) ↦ some (some sr, r₂)
      ]
      else some (none, r₁)
]

-- The loop over at most `n` segments. Behind the last segment `flag` still is a segment's end.
unfoldable pub prefetch_loop : ℕ → ℕ → Reader → Option (List SegmentRecipe)
prefetch_loop bv_num zero r = some []
prefetch_loop bv_num (suc n) r = elim (read_pointer r) [
  | none ↦ some []
  | some (flag, r₁) ↦
      if eq_int flag.id (mark_id segment_start)
      then elim (complete_segment bv_num r.off flag r₁) [
        | none ↦ none
        | some (sr, r₂) ↦ elim (prefetch_loop bv_num n r₂) [
          | none ↦ none
          | some segments ↦ some (sr ∷ segments)
        ]
      ]
      else some []
]

-- The assertion that the first flag read is a segment's start, `prefetch_num` being positive.
abbrev pub starts_segment : Option (ChunkPointer × Reader) → Bool
starts_segment none = false
starts_segment (some (flag, r)) = eq_int flag.id (mark_id segment_start)

-- `recipes` gives the recipe of a backup that is open or can be opened, with its number; `none` of the
-- result is a failed assertion.
unfoldable pub prefetch_segments : (ℤ → Option (ℕ × List ℕ)) → ℤ → ℕ → Option (List SegmentRecipe)
prefetch_segments recipes id prefetch_num =
    if eq_int id (negsuc 0) then none else elim (recipes (id_to_bnum id)) [
      | none ↦ none
      | some (bv_num, recipe) ↦
          let r = seek (id_to_off id) recipe in
          if prefetch_num == 0
          then some []
          else if starts_segment (read_pointer r)
          then prefetch_loop bv_num prefetch_num r
          else none
    ]

abbrev pub is_flag : ℤ → Bool
is_flag id = if eq_int id (mark_id segment_start) then true else eq_int id (mark_id segment_end)

-- The loop that reads `num` pointers and ignores flags, on fuel; `none` is the end of the file.
unfoldable pub read_n : ℕ → ℕ → Reader → Option (List ChunkPointer × Reader)
read_n fuel zero r = some ([], r)
read_n zero (suc num) r = none
read_n (suc fuel) (suc num) r = elim (read_pointer r) [
  | none ↦ none
  | some (cp, r₁) ↦
      let ignored = read_n fuel (suc num) r₁ in
      let kept = read_n fuel num r₁ in
      if is_flag cp.id
      then ignored
      else elim kept [ none ↦ none | some (cps, r₂) ↦ some (cp ∷ cps, r₂) ]
]

-- An int holds nothing above this.
abbrev pub int_max : ℕ
int_max = 2_147_483_647

-- A restore: `number_of_chunks`, the global `read_chunk_num` and the recipe.
pub record Restore : Type 0 where
  pub number_of_chunks : ℕ
  pub read_chunk_num : ℕ
  pub recipe : Reader

-- `none` is that `read_chunk_num` overflows, too.
unfoldable pub read_next_n_chunk_pointers : ℕ → Restore → Option (List ChunkPointer × Restore)
read_next_n_chunk_pointers n b =
    let left = b.number_of_chunks - b.read_chunk_num in
    let num = if ltb n left then n else left in
    elim (read_n (suc (length b.recipe.rest)) num b.recipe) [
      | none ↦ none
      | some (cps, r) ↦
          if ltb int_max (b.read_chunk_num + num)
          then none
          else some (cps, record b { read_chunk_num = b.read_chunk_num + num; recipe = r })
    ]
