-- ===== src/Recipe/Restored.antt =====
-- What do_restore.c makes of the files and pointers that a stream leaves in a backup.
use destor_lt.Prelude.{
  ℕ, suc, ◌+◌, ◌≤◌, ◌≡◌, refl, ap, subst, arith, Option, some, none, List, [], ◌∷◌, ◌++◌, length,
  take, drop, map, true, false, if◌then◌else◌, ◌==◌, Bool-cases, inl, inr,
}
use destor_lt.Chunk.{Chunk, new_chunk}
use destor_lt.Recipe.{ChunkPointer, FileRecipeMeta}
use destor_lt.Recipe.Filter.{c_string, new_file_recipe_meta, pointer_of}
use destor_lt.Recipe.Stream.{Run, done, opens, holds, closes}
use destor_lt.Recipe.Open.{start_chunk, end_chunk, chunk_of_pointer}
use destor_lt.Recipe.Metas.{restored, Covers}

-- The name in the data of the chunk that starts a file.
unfoldable pub name_of : List ℕ → List ℕ
name_of [] = []
name_of (b ∷ bs) = if b == 0 then [] else b ∷ name_of bs

-- What a restore makes of a chunk of the stream: the name of the file, or the size, the fingerprint and
-- the container of the chunk, without its data.
unfoldable pub restore_of : Chunk → Chunk
restore_of c =
    if c.flag.file_start
    then start_chunk (name_of c.bytes)
    else if c.flag.file_end
    then end_chunk
    else record (new_chunk 0) { fp = c.fp; size = c.size; id = c.id }

-- A name that was read is the one before the first 0, and is read again from behind itself.
abbrev pub Named : List ℕ → Option (List ℕ) → Type 0
Named bs none = Unit
Named bs (some name) = (name_of bs ≡ name) × (c_string (name ++ 0 ∷ []) ≡ some name)

Named-step :
    (b : ℕ) (bs : List ℕ) (o : Option (List ℕ))
    → (b == 0) ≡ false
    → Named bs o
    → Named (b ∷ bs) (elim o [ none ↦ none | some s ↦ some (b ∷ s) ])
unfolding name_of c_string
Named-step b bs none other h = tt
Named-step b bs (some s) other (name, again) = (rw other (ap (◌∷◌ b) name), rw (other, again) refl)

pub named : (bs : List ℕ) → Named bs (c_string bs)
unfolding name_of c_string
named [] = tt
named (b ∷ bs) = elim (Bool-cases (b == 0)) [
  | inl end ↦ rw (c_string, end) (rw end refl, refl)
  | inr other ↦ rw (c_string, other) (Named-step b bs (c_string bs) other (named bs))
]

-- The files that a run closes, seen from inside a file.
abbrev pub Inside : FileRecipeMeta → List FileRecipeMeta → List ChunkPointer → List Chunk → Type 0
Inside r ms ps cs =
    (m : FileRecipeMeta) × (rest : List FileRecipeMeta) × (k : ℕ) × (ms ≡ m ∷ rest)
    × (m.filename ≡ r.filename)
    × (m.chunknum ≡ r.chunknum + k)
    × (k ≤ length ps)
    × Covers rest (drop k ps)
    × (map chunk_of_pointer (take k ps) ++ end_chunk ∷ restored rest (drop k ps)
        ≡ map restore_of cs)

abbrev pub Restores :
    Option FileRecipeMeta → List FileRecipeMeta → List ChunkPointer → List Chunk → Type 0
Restores none ms ps cs = Covers ms ps × (restored ms ps ≡ map restore_of cs)
Restores (some r) ms ps cs = Inside r ms ps cs

closed_file :
    (c : Chunk)
    → c.flag.file_start ≡ false
    → c.flag.file_end ≡ true
    → (out cs : List Chunk) → out ≡ map restore_of cs
    → end_chunk ∷ out ≡ map restore_of (c ∷ cs)
unfolding restore_of
closed_file c start end out cs same = rw (restore_of, start, end) (ap (◌∷◌ end_chunk) same)

held_chunk :
    (c : Chunk) (id : ℕ)
    → c.flag.file_start ≡ false
    → c.flag.file_end ≡ false
    → c.id ≡ some id
    → (out cs : List Chunk) → out ≡ map restore_of cs
    → chunk_of_pointer (pointer_of c id) ∷ out ≡ map restore_of (c ∷ cs)
unfolding restore_of
held_chunk c id start end is out cs same =
    rw (restore_of, start, end, is) (ap (◌∷◌ (chunk_of_pointer (pointer_of c id))) same)

opened_file :
    (c : Chunk) (name : List ℕ) (m : FileRecipeMeta) (rest ms : List FileRecipeMeta) (k : ℕ)
    (ps : List ChunkPointer) (cs : List Chunk)
    → c.flag.file_start ≡ true
    → c_string c.bytes ≡ some name
    → ms ≡ m ∷ rest
    → m.filename ≡ (new_file_recipe_meta name).filename
    → m.chunknum ≡ (new_file_recipe_meta name).chunknum + k
    → k ≤ length ps
    → Covers rest (drop k ps)
    → map chunk_of_pointer (take k ps) ++ end_chunk ∷ restored rest (drop k ps) ≡ map restore_of cs
    → Covers ms ps × (restored ms ps ≡ map restore_of (c ∷ cs))
unfolding restored restore_of new_file_recipe_meta
opened_file c name m rest ms k ps cs start named_so files filename chunknum few covers same =
    let all : m.chunknum ≡ k = omega (arith, chunknum) in
    let given : name_of c.bytes ≡ name = (subst (Named c.bytes) named_so (named c.bytes)).0 in
    rw (files, all)
      ((few, covers), rw (filename, restore_of, start, given) (ap (◌∷◌ (start_chunk name)) same))

pub Run-Restores :
    {r : Option FileRecipeMeta} {cs : List Chunk} {ms : List FileRecipeMeta}
    {ps : List ChunkPointer}
    → Run r cs none ms ps
    → Restores r ms ps cs
unfolding restored
Run-Restores (done r) = (tt, refl)
Run-Restores (opens {cs = cs} {ms = ms} {ps = ps} c name start named_so d) =
    let (m, rest, k, files, filename, chunknum, few, covers, same) = Run-Restores d in
    opened_file c name m rest ms k ps cs start named_so files filename chunknum few covers same
Run-Restores (closes {cs = cs} {ms = ms} {ps = ps} c r start end short d) =
    let (covers, same) = Run-Restores d in
    (
      r,
      ms,
      0,
      refl,
      refl,
      omega arith,
      omega arith,
      covers,
      closed_file c start end (restored ms ps) cs same,
    )
Run-Restores (holds {cs = cs} {ms = ms} {ps = ps} c r id start end is word d) =
    let (m, rest, k, files, filename, chunknum, few, covers, same) = Run-Restores d in
    (
      m,
      rest,
      suc k,
      files,
      filename,
      omega (arith, chunknum),
      omega (arith, few),
      covers,
      held_chunk c id start end is
          (map chunk_of_pointer (take k ps) ++ end_chunk ∷ restored rest (drop k ps)) cs same,
    )
