-- ===== src/Recipe/Written.antt =====
-- What the calls for one segment write: its chunks between its flags.
use destor_lt.Prelude.{
  ℕ, ◌+◌, ◌*◌, ◌^◌, ◌≤◌, ◌<◌, ◌≡◌, refl, sym, ap, ◌∙◌, subst, arith, Option, some, none, List, [],
  ◌∷◌, ◌++◌, length, length-append, append_assoc, append-nil, pos, true, leb, ◌==◌,
}
use destor_lt.Chunk.{Chunk}
use destor_lt.Recipe.{
  ChunkPointer, FileRecipeMeta, BackupVersion, pointer_bytes, segment_start, segment_end, mark_id,
  make_segment_id, temporary, put_pointer, write_segment, append_segment_flag,
}
use destor_lt.Recipe.Pointers.{pointers_bytes, length-pointer_bytes}
use destor_lt.Recipe.Log.{view, Fits}
use destor_lt.Recipe.Filter.{Writer, write_chunk, write_chunks, count_chunks, pointer_of}
use destor_lt.Recipe.Stream.{
  Run, done, opens, holds, closes, Wrote, Wrote-nil, Wrote-append, Steps, write_open, write_close,
  write_hold,
}

step_then :
    (c : Chunk) (cs : List Chunk) (w w₁ : Writer)
    → write_chunk c w ≡ some w₁
    → write_chunks (c ∷ cs) w ≡ write_chunks cs w₁
unfolding write_chunks
step_then c cs w w₁ run = rw (run, write_chunks) refl

Steps-append :
    (ms ns : List FileRecipeMeta) (ps qs : List ChunkPointer) (w w₁ : Writer)
    (result rest : Option Writer) (r' : Option FileRecipeMeta) (len : ℕ) (buf : List ℕ)
    → Wrote ms ps (view w.bv) (view w₁.bv)
    → (view w₁.bv).recipe ≡ (view w.bv).recipe
    → result ≡ rest
    → Steps w₁ rest r' ns qs len buf
    → Steps w result r' (ms ++ ns) (ps ++ qs) len buf
Steps-append ms ns ps qs w w₁ result rest r' len buf wrote recipe goes
      (w₂, run, opened, wrote', recipe', segment, fits) =
    (
      w₂,
      goes ∙ run,
      opened,
      Wrote-append ms ns ps qs (view w.bv) (view w₁.bv) (view w₂.bv) wrote wrote',
      recipe' ∙ recipe,
      segment,
      fits,
    )

pub write_chunks-Run :
    {r r' : Option FileRecipeMeta} {cs : List Chunk} {ms : List FileRecipeMeta}
    {ps : List ChunkPointer}
    → Run r cs r' ms ps
    → (w : Writer) (len : ℕ) (buf : List ℕ) → w.r ≡ r
    → (view w.bv).segment ≡ some (len, buf)
    → length buf + 32 * length ps ≤ len
    → Fits w.bv
    → Steps w (write_chunks cs w) r' ms ps len (buf ++ pointers_bytes ps)
unfolding pointers_bytes
write_chunks-Run (done r) w len buf opened segment room fits = (
  w,
  unfold write_chunks in refl,
  opened,
  Wrote-nil (view w.bv),
  refl,
  segment ∙ ap (λ b. some (len, b)) (sym (append-nil buf)),
  fits,
)
write_chunks-Run (opens {r' = r'} {cs = cs} {ms = ms} {ps = ps} c name start named d) w len buf
      opened segment room fits =
    let (w₁, run, opened₁, wrote, recipe, segment₁, fits₁) =
      write_open c w name len buf opened start named segment fits in
    let rest = write_chunks-Run d w₁ len buf opened₁ segment₁ room fits₁ in
    Steps-append [] ms [] ps w w₁ (write_chunks (c ∷ cs) w) (write_chunks cs w₁) r' len
      (buf ++ pointers_bytes ps) wrote recipe (step_then c cs w w₁ run) rest
write_chunks-Run (closes {r' = r'} {cs = cs} {ms = ms} {ps = ps} c r start end short d) w len buf
      opened segment room fits =
    let (w₁, run, opened₁, wrote, recipe, segment₁, fits₁) =
      write_close c w r len buf opened end short segment fits in
    let rest = write_chunks-Run d w₁ len buf opened₁ segment₁ room fits₁ in
    Steps-append (r ∷ []) ms [] ps w w₁ (write_chunks (c ∷ cs) w) (write_chunks cs w₁) r' len
      (buf ++ pointers_bytes ps) wrote recipe (step_then c cs w w₁ run) rest
write_chunks-Run (holds {r' = r'} {cs = cs} {ms = ms} {ps = ps} c r id start end is word d) w len
      buf opened segment room fits =
    let (w₁, run, opened₁, wrote, recipe, segment₁, fits₁) =
      write_hold c w r id len buf opened end is segment (omega arith) fits in
    let rest =
      write_chunks-Run d w₁ len (buf ++ pointer_bytes (pointer_of c id)) opened₁ segment₁
        (omega (
          arith,
          length-append buf (pointer_bytes (pointer_of c id)),
          length-pointer_bytes (pointer_of c id),
        ))
        fits₁ in
    Steps-append [] ms (pointer_of c id ∷ []) ps w w₁ (write_chunks (c ∷ cs) w) (write_chunks cs w₁)
      r' len (buf ++ pointers_bytes (pointer_of c id ∷ ps)) wrote recipe (step_then c cs w w₁ run)
      (subst (λ b. Steps w₁ (write_chunks cs w₁) r' ms ps len b)
        (append_assoc buf (pointer_bytes (pointer_of c id)) (pointers_bytes ps)) rest)

pub count_chunks-Run :
    {r r' : Option FileRecipeMeta} {cs : List Chunk} {ms : List FileRecipeMeta}
    {ps : List ChunkPointer}
    → Run r cs r' ms ps
    → count_chunks cs ≡ length ps
unfolding count_chunks
count_chunks-Run (done r) = refl
count_chunks-Run (opens c name start named d) = ground (arith, start, count_chunks-Run d)
count_chunks-Run (holds c r id start end is word d) = ground (arith, start, end, count_chunks-Run d)
count_chunks-Run (closes c r start end short d) = ground (arith, end, count_chunks-Run d)

abbrev pub start_flag : ℕ → ChunkPointer
start_flag n = record { fp = 0; id = mark_id segment_start; size = pos n }

abbrev pub end_flag : ChunkPointer
end_flag = record { fp = 0; id = mark_id segment_end; size = pos 0 }

-- A segment in the recipe.
abbrev pub items_of : List ChunkPointer → List ChunkPointer
items_of ps = start_flag (length ps) ∷ ps ++ end_flag ∷ []

pub start_segment :
    (n : ℕ) (b : BackupVersion)
    → 64 + n * 32 < 2 ^ 31
    → append_segment_flag segment_start n b
      ≡ some (
        record b { segment = some (64 + n * 32, pointer_bytes (start_flag n)) },
        make_segment_id b.bv_num (length b.recipe) n,
      )
unfolding append_segment_flag put_pointer
start_segment n b small = ground arith

put_pointer-room :
    (cp : ChunkPointer) (b : BackupVersion) (len : ℕ) (buf : List ℕ)
    → b.segment ≡ some (len, buf)
    → length buf + 32 ≤ len
    → put_pointer cp b ≡ some (record b { segment = some (len, buf ++ pointer_bytes cp) })
unfolding put_pointer
put_pointer-room cp b len buf opened room =
    let fits : leb (length buf + 32) len ≡ true = ground arith in rw (opened, fits) refl

write_segment-whole :
    (b : BackupVersion) (len : ℕ) (buf : List ℕ)
    → b.segment ≡ some (len, buf)
    → length buf ≡ len
    → write_segment b ≡ some (record b { recipe = b.recipe ++ buf; segment = none })
unfolding write_segment
write_segment-whole b len buf opened full =
    let whole : length buf == len ≡ true = ground (arith, full) in rw (opened, whole) refl

pub end_segment :
    (b : BackupVersion) (len : ℕ) (buf : List ℕ)
    → b.segment ≡ some (len, buf)
    → length buf + 32 ≡ len
    → append_segment_flag segment_end 0 b
      ≡ some (
        record b { recipe = b.recipe ++ (buf ++ pointer_bytes end_flag); segment = none },
        temporary,
      )
unfolding append_segment_flag
end_segment b len buf opened full =
    let put = put_pointer-room end_flag b len buf opened (omega (arith, full)) in
    let b₁ : BackupVersion = record b { segment = some (len, buf ++ pointer_bytes end_flag) } in
    let written = write_segment-whole b₁ len (buf ++ pointer_bytes end_flag) refl (
      omega
        (arith, full, length-append buf (pointer_bytes end_flag), length-pointer_bytes end_flag)) in
    rw (put, written, append_segment_flag) refl
