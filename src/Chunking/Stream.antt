-- ===== src/Chunking/Stream.antt =====
-- The chunks that chunk_phase.c cuts a file into.
use destor_lt.Prelude.{
  ℕ, zero, suc, ◌+◌, ◌≤◌, ◌<◌, ◌≡◌, ◌⊎◌, refl, sym, ap, ◌∙◌, Option, none, some, inl, inr, List, [],
  ◌∷◌, ◌++◌, arith, All, length, length-append, length-take, take, drop, append_assoc, append-nil,
  ◌==◌, false, true, List-cases, if◌then◌else◌,
}
use destor_lt.Chunk.{Chunk}
use destor_lt.Chunking.{
  Config, IsChunking, State, add_left, all_zero, chunk_of, fill, cut, cut_file, bytes_of, read_file,
}
use destor_lt.Chunking.Fill.{IsData, Rest, over, more, fill-Rest}
use destor_lt.Chunking.Cuts.{take-drop, chunks_of, chunks_of-nil, chunks_of_cut}

module _ (cfg : Config) (positive : 0 < cfg.chunk_max_size) (end : Chunk) (rest : List Chunk)
    (ends : end.flag.file_end ≡ true) (method : IsChunking cfg) where
  abbrev CutFile : ℕ → List ℕ → List ℕ → Option Chunk → List Chunk → State → Type 0
  CutFile fuel left bytes c input st =
      (st' : State) × (cs : List Chunk) × (cut_file cfg fuel left c input st
        ≡ some (st', end, rest))
      × (st'.out ≡ st.out ++ cs)
      × ((n : ℕ) → length left + length bytes ≤ n → cs ≡ chunks_of cfg n (left ++ bytes))

  file_done :
      (fuel : ℕ) (left bytes left₁ bytes₁ : List ℕ) (c c₁ : Option Chunk)
      (input input₁ : List Chunk) (st : State)
      → fill cfg left c input ≡ some (left₁, c₁, input₁)
      → Rest end rest c₁ input₁ bytes₁
      → left₁ ++ bytes₁ ≡ left ++ bytes
      → (c₁ ≡ some end) ⊎ (cfg.chunk_max_size ≤ length left₁)
      → left₁ ≡ []
      → CutFile (suc fuel) left bytes c input st
  unfolding cut_file
  file_done fuel left bytes left₁ _ c _ input _ st e over all stop empty = (
    st,
    [],
    rw (cut_file, e, empty) refl,
    sym (append-nil st.out),
    λ n h. rw (← all, empty) (sym (chunks_of-nil cfg n)),
  )
  file_done fuel left bytes left₁ _ c _ input _ st e (more cs d) all stop empty =
      absurd (ground (arith, stop, empty))

  far_enough :
      (c₁ : Option Chunk) (input₁ : List Chunk) (left₁ bytes₁ : List ℕ)
      → Rest end rest c₁ input₁ bytes₁
      → (c₁ ≡ some end) ⊎ (cfg.chunk_max_size ≤ length left₁)
      → (bytes₁ ≡ []) ⊎ (cfg.chunk_max_size ≤ length left₁)
  far_enough _ _ left₁ _ over stop = inl refl
  far_enough _ _ left₁ _ (more cs d) (inl e) = absurd (ground arith)
  far_enough _ _ left₁ _ (more cs d) (inr much) = inr much

  cut-chunk_of :
      (left : List ℕ) (st : State)
      → (st' : State) × (cut cfg left st ≡ some (st', drop (cfg.chunking left) left))
        × (st'.out ≡ st.out ++ chunk_of cfg left ∷ [])
  unfolding cut
  cut-chunk_of left st = (
    record {
      out = st.out ++ chunk_of cfg left ∷ [];
      zero_chunk_num =
          if all_zero (chunk_of cfg left).bytes then st.zero_chunk_num + 1 else st.zero_chunk_num;
      zero_chunk_size =
          if all_zero (chunk_of cfg left).bytes
          then st.zero_chunk_size + cfg.chunking left
          else st.zero_chunk_size;
    },
    ground (arith, method.bounded left),
    refl,
  )

  drop_shorter :
      (left : List ℕ) → 0 < length left → length (drop (cfg.chunking left) left) < length left
  drop_shorter left some_left =
      let k = cfg.chunking left in
      omega (
        arith,
        method.positive left some_left,
        method.within left,
        length-take k left,
        length-append (take k left) (drop k left),
        ap length (take-drop k left),
      )

  reference :
      (n : ℕ) (left bytes left₁ bytes₁ : List ℕ) (cs : List Chunk)
      → left₁ ++ bytes₁ ≡ left ++ bytes
      → 0 < length left₁
      → (bytes₁ ≡ []) ⊎ (cfg.chunk_max_size ≤ length left₁)
      → ((m : ℕ)
          → length (drop (cfg.chunking left₁) left₁) + length bytes₁ ≤ m
          → cs ≡ chunks_of cfg m (drop (cfg.chunking left₁) left₁ ++ bytes₁))
      → length left + length bytes ≤ n
      → chunk_of cfg left₁ ∷ cs ≡ chunks_of cfg n (left ++ bytes)
  reference zero left bytes left₁ bytes₁ cs all some_left far others h =
      absurd (omega (arith, ap length all, length-append left₁ bytes₁, length-append left bytes))
  reference (suc n) left bytes left₁ bytes₁ cs all some_left far others h = rw (← all) (
      ap (◌∷◌ (chunk_of cfg left₁)) (
        others n (
          omega (
            arith,
            ap length all,
            length-append left₁ bytes₁,
            length-append left bytes,
            drop_shorter left₁ some_left,
          )))
      ∙ sym (chunks_of_cut cfg method n left₁ bytes₁ some_left far))

  file_cut :
      (fuel : ℕ) (left bytes left₁ bytes₁ : List ℕ) (c c₁ : Option Chunk)
      (input input₁ : List Chunk) (st st₁ : State)
      → fill cfg left c input ≡ some (left₁, c₁, input₁)
      → cut cfg left₁ st ≡ some (st₁, drop (cfg.chunking left₁) left₁)
      → st₁.out ≡ st.out ++ chunk_of cfg left₁ ∷ []
      → left₁ ++ bytes₁ ≡ left ++ bytes
      → 0 < length left₁
      → (bytes₁ ≡ []) ⊎ (cfg.chunk_max_size ≤ length left₁)
      → CutFile fuel (drop (cfg.chunking left₁) left₁) bytes₁ c₁ input₁ st₁
      → CutFile (suc fuel) left bytes c input st
  unfolding cut_file
  file_cut fuel left bytes left₁ bytes₁ c c₁ input input₁ st st₁ e cut_off pushed all some_left far
        (st', cs, run, out, others) =
      let nonempty : (length left₁ == 0) ≡ false = ground arith in
      (
        st',
        chunk_of cfg left₁ ∷ cs,
        rw (cut_file, e, nonempty, cut_off) run,
        out ∙ ap (λ l. l ++ cs) pushed ∙ append_assoc st.out (chunk_of cfg left₁ ∷ []) cs,
        λ n h. reference n left bytes left₁ bytes₁ cs all some_left far others h,
      )

  reads_through :
      (fuel : ℕ) (left bytes : List ℕ) (c : Option Chunk) (input : List Chunk) (st : State)
      → length left + length bytes < fuel
      → Rest end rest c input bytes
      → CutFile fuel left bytes c input st
  reads_through zero left bytes c input st h r = absurd (omega arith)
  reads_through (suc fuel) left bytes c input st h r =
      let (left₁, c₁, input₁, bytes₁, e, r₁, all, stop) =
        fill-Rest cfg positive end rest ends left bytes c input r in
      elim (List-cases left₁) [
        | inl empty ↦
            file_done fuel left bytes left₁ bytes₁ c c₁ input input₁ st e r₁ all stop empty
        | inr (b, bs, cons) ↦
            let some_left : 0 < length left₁ = ground (arith, cons) in
            let (st₁, cut_off, pushed) = cut-chunk_of left₁ st in
            file_cut fuel left bytes left₁ bytes₁ c c₁ input input₁ st st₁ e cut_off pushed all
              some_left (far_enough c₁ input₁ left₁ bytes₁ r₁ stop)
              (reads_through fuel (drop (cfg.chunking left₁) left₁) bytes₁ c₁ input₁ st₁
                (omega (
                  arith,
                  drop_shorter left₁ some_left,
                  ap length all,
                  length-append left₁ bytes₁,
                  length-append left bytes,
                ))
                r₁)
      ]

  read_ended :
      (st st' : State)
      → cut_file cfg 1 [] (some end) rest st ≡ some (st', end, rest)
      → read_file cfg (end ∷ rest) st ≡ some (record st' { out = st'.out ++ end ∷ [] }, rest)
  unfolding read_file
  read_ended st st' run = ground (arith, ends, run)

  read_started :
      (c : Chunk) (input : List Chunk) (st st' : State)
      → IsData c
      → cut_file cfg (suc (length c.bytes + length (bytes_of input))) c.bytes none input st
        ≡ some (st', end, rest)
      → read_file cfg (c ∷ input) st ≡ some (record st' { out = st'.out ++ end ∷ [] }, rest)
  unfolding read_file add_left
  read_started c input st st' d run = ground (arith, d.0, d.1, run)

  length-bytes_of :
      (cs input : List Chunk)
      → length (bytes_of (cs ++ input)) ≡ length (bytes_of cs) + length (bytes_of input)
  length-bytes_of [] input = omega arith
  length-bytes_of (c ∷ cs) input = omega (
    arith,
    length-bytes_of cs input,
    length-append c.bytes (bytes_of (cs ++ input)),
    length-append c.bytes (bytes_of cs),
  )

  -- A file whose start was popped, sent as data in blocks of bounded size and the end, is read without
  -- a failed assertion or an access past a buffer, and the loop ends within its fuel. The pushed chunks
  -- are those of the file's bytes in one buffer, and the end follows them.
  pub read_file-chunks_of :
      (cs : List Chunk) (st : State)
      → All IsData cs
      → (st' : State) × (read_file cfg (cs ++ end ∷ rest) st ≡ some (st', rest))
        × (st'.out ≡ st.out ++ (chunks_of cfg (length (bytes_of cs)) (bytes_of cs) ++ end ∷ []))
  read_file-chunks_of [] st d =
      let (st', ncs, run, out, same) =
        reads_through 1 [] [] (some end) rest st (omega arith) over in
      (
        record st' { out = st'.out ++ end ∷ [] },
        read_ended st st' run,
        ap (λ l. l ++ end ∷ []) out
            ∙ append_assoc st.out ncs (end ∷ [])
            ∙ ap (λ l. st.out ++ (l ++ end ∷ [])) (same 0 (omega arith)),
      )
  read_file-chunks_of (c ∷ cs) st d =
      let (st', ncs, run, out, same) =
        reads_through (suc (length c.bytes + length (bytes_of (cs ++ end ∷ rest)))) c.bytes
          (bytes_of cs) none (cs ++ end ∷ rest) st (omega (arith, length-bytes_of cs (end ∷ rest)))
          (more cs d.1) in
      (
        record st' { out = st'.out ++ end ∷ [] },
        read_started c (cs ++ end ∷ rest) st st' d.0 run,
        ap (λ l. l ++ end ∷ []) out
            ∙ append_assoc st.out ncs (end ∷ [])
            ∙ ap (λ l. st.out ++ (l ++ end ∷ []))
                (same (length (bytes_of (c ∷ cs)))
                  (omega (arith, length-append c.bytes (bytes_of cs)))),
      )
