-- ===== src/Chunking/Cuts.antt =====
-- Cutting the bytes of a file from one buffer, the reference for chunk_phase.c.
use destor_lt.Prelude.{
  ℕ, zero, suc, ◌≤◌, ◌<◌, ◌≡◌, refl, ap, ◌∙◌, inl, inr, ◌⊎◌, List, [], ◌∷◌, ◌++◌, arith, All,
  length, length-append, length-take, take, drop, append-nil,
}
use destor_lt.Chunk.{Chunk, new_chunk, no_flags}
use destor_lt.Chunking.{Config, IsChunking, chunk_of, bytes_of}

pub take-drop : (n : ℕ) (xs : List ℕ) → take n xs ++ drop n xs ≡ xs
take-drop zero xs = refl
take-drop (suc n) [] = refl
take-drop (suc n) (x ∷ xs) = ap (◌∷◌ x) (take-drop n xs)

take-append_le : (n : ℕ) (xs ys : List ℕ) → n ≤ length xs → take n (xs ++ ys) ≡ take n xs
take-append_le zero xs ys h = refl
take-append_le (suc n) [] ys h = absurd (omega arith)
take-append_le (suc n) (x ∷ xs) ys h = ap (◌∷◌ x) (take-append_le n xs ys (omega arith))

pub drop-append_le : (n : ℕ) (xs ys : List ℕ) → n ≤ length xs → drop n (xs ++ ys) ≡ drop n xs ++ ys
drop-append_le zero xs ys h = refl
drop-append_le (suc n) [] ys h = absurd (omega arith)
drop-append_le (suc n) (x ∷ xs) ys h = drop-append_le n xs ys (omega arith)

-- The chunks that the bytes of a file make if they are cut from one buffer that holds them all, on
-- fuel: a round for each byte is enough.
unfoldable pub chunks_of : Config → ℕ → List ℕ → List Chunk
chunks_of cfg zero bytes = []
chunks_of cfg (suc fuel) [] = []
chunks_of cfg (suc fuel) (b ∷ bytes) =
    chunk_of cfg (b ∷ bytes) ∷ chunks_of cfg fuel (drop (cfg.chunking (b ∷ bytes)) (b ∷ bytes))

pub chunks_of-nil : (cfg : Config) (fuel : ℕ) → chunks_of cfg fuel [] ≡ []
unfolding chunks_of
chunks_of-nil cfg zero = refl
chunks_of-nil cfg (suc fuel) = refl

-- Of a file that goes on, the first chunk can be cut from the bytes that are left in the buffer.
pub chunks_of_cut :
    (cfg : Config) (method : IsChunking cfg) (fuel : ℕ) (left bytes : List ℕ)
    → 0 < length left
    → (bytes ≡ []) ⊎ (cfg.chunk_max_size ≤ length left)
    → chunks_of cfg (suc fuel) (left ++ bytes)
      ≡ chunk_of cfg left ∷ chunks_of cfg fuel (drop (cfg.chunking left) left ++ bytes)
unfolding chunks_of
chunks_of_cut cfg method fuel [] bytes some_left far = absurd (omega arith)
chunks_of_cut cfg method fuel (b ∷ left) bytes some_left far =
    let same : cfg.chunking (b ∷ left ++ bytes) ≡ cfg.chunking (b ∷ left) = elim far [
      | inl none_more ↦
          ap (λ l. cfg.chunking (b ∷ left ++ l)) none_more ∙ ap cfg.chunking (append-nil (b ∷ left))
      | inr much ↦ method.local (b ∷ left) bytes much
    ] in
    let within = method.within (b ∷ left) in
    let taken = take-append_le (cfg.chunking (b ∷ left)) (b ∷ left) bytes within in
    let dropped = drop-append_le (cfg.chunking (b ∷ left)) (b ∷ left) bytes within in
    rw (same, taken, dropped) refl

-- A chunk of a file as it is cut: its own bytes, at least one and at most the maximum, and no signal.
abbrev pub IsCut : Config → Chunk → Type 0
IsCut cfg c =
    (c.size ≡ length c.bytes) × (0 < c.size) × (c.size ≤ cfg.chunk_max_size) × (c.flag ≡ no_flags)

chunk_of-IsCut :
    (cfg : Config) (left : List ℕ)
    → IsChunking cfg
    → 0 < length left
    → IsCut cfg (chunk_of cfg left)
unfolding new_chunk
chunk_of-IsCut cfg left method some_left =
    let within = method.within left in
    (
      omega (arith, length-take (cfg.chunking left) left, within),
      method.positive left some_left,
      method.bounded left,
      refl,
    )

-- The reference keeps the bytes, in chunks of allowed sizes.
pub chunks_of_keeps :
    (cfg : Config) (fuel : ℕ) (bytes : List ℕ)
    → IsChunking cfg
    → length bytes ≤ fuel
    → (bytes_of (chunks_of cfg fuel bytes) ≡ bytes) × All (IsCut cfg) (chunks_of cfg fuel bytes)
unfolding chunks_of new_chunk
chunks_of_keeps cfg zero [] method h = (refl, tt)
chunks_of_keeps cfg zero (b ∷ bytes) method h = absurd (omega arith)
chunks_of_keeps cfg (suc fuel) [] method h = (refl, tt)
chunks_of_keeps cfg (suc fuel) (b ∷ bytes) method h =
    let k = cfg.chunking (b ∷ bytes) in
    let cut_some = method.positive (b ∷ bytes) (omega arith) in
    let shorter : length (drop k (b ∷ bytes)) ≤ fuel = omega (
      arith,
      length-take k (b ∷ bytes),
      method.within (b ∷ bytes),
      length-append (take k (b ∷ bytes)) (drop k (b ∷ bytes)),
      ap length (take-drop k (b ∷ bytes)),
    ) in
    let (kept, cuts) = chunks_of_keeps cfg fuel (drop k (b ∷ bytes)) method shorter in
    (
      ap (λ l. take k (b ∷ bytes) ++ l) kept ∙ take-drop k (b ∷ bytes),
      (chunk_of-IsCut cfg (b ∷ bytes) method (omega arith), cuts),
    )
