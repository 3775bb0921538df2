-- ===== src/Recipe/Pointers.antt =====
-- Chunk pointers of recipestore.c as bytes, and their reading.
use destor_lt.Prelude.{
  ℕ, ◌+◌, ◌*◌, ◌^◌, ◌<◌, ◌≡◌, refl, ap, ◌∙◌, arith, ltb, some, List, [], ◌∷◌, ◌++◌, length,
  length-append, append_assoc, false,
}
use destor_lt.Storage.Serial.{
  serial_int, host_bytes, length-serial_int, length-host_bytes, unserial_int-serial_int,
  unser_bytes-host_bytes,
}
use destor_lt.Recipe.{ChunkPointer, pointer_bytes}
use destor_lt.Recipe.Words.{to_word, IsWord, of_word-to_word, to_word_small}
use destor_lt.Recipe.Read.{read_pointer}

-- A pointer that fits into its fields.
abbrev pub IsPointer : ChunkPointer → Type 0
IsPointer cp = (cp.fp < 256 ^ 20) × IsWord 8 cp.id × IsWord 4 cp.size

pub length-pointer_bytes : (cp : ChunkPointer) → length (pointer_bytes cp) ≡ 32
unfolding pointer_bytes
length-pointer_bytes cp = omega (
  arith,
  length-append (serial_int 20 cp.fp)
      (host_bytes 8 (to_word 8 cp.id) ++ host_bytes 4 (to_word 4 cp.size)),
  length-append (host_bytes 8 (to_word 8 cp.id)) (host_bytes 4 (to_word 4 cp.size)),
  length-serial_int 20 cp.fp,
  length-host_bytes 8 (to_word 8 cp.id),
  length-host_bytes 4 (to_word 4 cp.size),
)

pointer_bytes-append :
    (cp : ChunkPointer) (rest : List ℕ)
    → pointer_bytes cp ++ rest
      ≡ serial_int 20 cp.fp
        ++ (host_bytes 8 (to_word 8 cp.id) ++ (host_bytes 4 (to_word 4 cp.size) ++ rest))
unfolding pointer_bytes
pointer_bytes-append cp rest =
    let id = host_bytes 8 (to_word 8 cp.id) in
    let size = host_bytes 4 (to_word 4 cp.size) in
    append_assoc (serial_int 20 cp.fp) (id ++ size) rest
    ∙ ap (λ l. serial_int 20 cp.fp ++ l) (append_assoc id size rest)

pub read_pointer-pointer_bytes :
    (cp : ChunkPointer) (off : ℕ) (rest : List ℕ)
    → IsPointer cp
    → read_pointer (record { off = off; rest = pointer_bytes cp ++ rest })
      ≡ some (cp, record { off = off + 32; rest = rest })
unfolding read_pointer
read_pointer-pointer_bytes cp off rest (small_fp, word_id, word_size) =
    let id = host_bytes 8 (to_word 8 cp.id) in
    let size = host_bytes 4 (to_word 4 cp.size) in
    let enough : ltb (length (pointer_bytes cp ++ rest)) 32 ≡ false =
      ground (arith, length-append (pointer_bytes cp) rest, length-pointer_bytes cp) in
    rw
      (
        enough,
        pointer_bytes-append cp rest,
        unserial_int-serial_int 20 cp.fp (id ++ (size ++ rest)) small_fp,
        unser_bytes-host_bytes 8 (to_word 8 cp.id) (size ++ rest) (to_word_small 8 cp.id word_id),
        unser_bytes-host_bytes 4 (to_word 4 cp.size) rest (to_word_small 4 cp.size word_size),
        of_word-to_word 8 cp.id word_id,
        of_word-to_word 4 cp.size word_size,
      )
      refl

unfoldable pub pointers_bytes : List ChunkPointer → List ℕ
pointers_bytes [] = []
pointers_bytes (cp ∷ cps) = pointer_bytes cp ++ pointers_bytes cps

pub length-pointers_bytes :
    (cps : List ChunkPointer) → length (pointers_bytes cps) ≡ 32 * length cps
unfolding pointers_bytes
length-pointers_bytes [] = refl
length-pointers_bytes (cp ∷ cps) = omega (
  arith,
  length-append (pointer_bytes cp) (pointers_bytes cps),
  length-pointer_bytes cp,
  length-pointers_bytes cps,
)
