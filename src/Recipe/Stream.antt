-- ===== src/Recipe/Stream.antt =====
-- What the chunks of a stream write into .meta and into the recipe of a backup.
use destor_lt.Prelude.{
  ℕ, ◌+◌, ◌≤◌, ◌≡◌, refl, sym, ap, ◌∙◌, arith, Option, some, none, List, [], ◌∷◌, ◌++◌, length,
  length-append, append_assoc, append-nil, true, false,
}
use destor_lt.Chunk.{Chunk}
use destor_lt.Recipe.{ChunkPointer, FileRecipeMeta, metabufsize, meta_bytes, pointer_bytes}
use destor_lt.Recipe.Pointers.{IsPointer}
use destor_lt.Recipe.Log.{Log, view, Fits, append_file_recipe_meta-log, append_pointer-log}
use destor_lt.Recipe.Filter.{Writer, c_string, new_file_recipe_meta, pointer_of, write_chunk}

abbrev pub more_of : FileRecipeMeta → ℕ → FileRecipeMeta
more_of r size = record r { chunknum = r.chunknum + 1; filesize = r.filesize + size }

-- From the file that is open before chunks to the one behind them, with the files that they close and
-- the pointers that they leave. The name of a file fits into `metabuf`, and a pointer into its fields.
pub data Run
    : Option FileRecipeMeta
      → List Chunk
      → Option FileRecipeMeta
      → List FileRecipeMeta
      → List ChunkPointer
      → Type 0 where
  done : (r : Option FileRecipeMeta) → Run r [] r [] []
  opens :
      {r' : Option FileRecipeMeta} {cs : List Chunk} {ms : List FileRecipeMeta}
      {ps : List ChunkPointer} (c : Chunk) (name : List ℕ)
      → c.flag.file_start ≡ true
      → c_string c.bytes ≡ some name
      → Run (some (new_file_recipe_meta name)) cs r' ms ps
      → Run none (c ∷ cs) r' ms ps
  holds :
      {r' : Option FileRecipeMeta} {cs : List Chunk} {ms : List FileRecipeMeta}
      {ps : List ChunkPointer} (c : Chunk) (r : FileRecipeMeta) (id : ℕ)
      → c.flag.file_start ≡ false
      → c.flag.file_end ≡ false
      → c.id ≡ some id
      → IsPointer (pointer_of c id)
      → Run (some (more_of r c.size)) cs r' ms ps
      → Run (some r) (c ∷ cs) r' ms (pointer_of c id ∷ ps)
  closes :
      {r' : Option FileRecipeMeta} {cs : List Chunk} {ms : List FileRecipeMeta}
      {ps : List ChunkPointer} (c : Chunk) (r : FileRecipeMeta)
      → c.flag.file_start ≡ false
      → c.flag.file_end ≡ true
      → 20 + length r.filename ≤ metabufsize
      → Run none cs r' ms ps
      → Run (some r) (c ∷ cs) r' (r ∷ ms) ps

unfoldable pub metas_bytes : List FileRecipeMeta → List ℕ
metas_bytes [] = []
metas_bytes (r ∷ rs) = meta_bytes r ++ metas_bytes rs

pub metas_bytes-append :
    (ms ns : List FileRecipeMeta) → metas_bytes (ms ++ ns) ≡ metas_bytes ms ++ metas_bytes ns
unfolding metas_bytes
metas_bytes-append [] ns = refl
metas_bytes-append (m ∷ ms) ns =
    ap (λ l. meta_bytes m ++ l) (metas_bytes-append ms ns)
    ∙ sym (append_assoc (meta_bytes m) (metas_bytes ms) (metas_bytes ns))

-- What the log gains but for its recipe.
pub record Wrote (ms : List FileRecipeMeta) (ps : List ChunkPointer) (l l' : Log) : Type 0 where
  pub path : l'.path ≡ l.path
  pub bv_num : l'.bv_num ≡ l.bv_num
  pub deleted : l'.deleted ≡ l.deleted
  pub metadata : l'.metadata ≡ l.metadata ++ metas_bytes ms
  pub number_of_files : l'.number_of_files ≡ l.number_of_files + length ms
  pub number_of_chunks : l'.number_of_chunks ≡ l.number_of_chunks + length ps

pub Wrote-nil : (l : Log) → Wrote [] [] l l
unfolding metas_bytes
Wrote-nil l = record {
  path = refl;
  bv_num = refl;
  deleted = refl;
  metadata = sym (append-nil l.metadata);
  number_of_files = omega arith;
  number_of_chunks = omega arith;
}

pub Wrote-append :
    (ms ns : List FileRecipeMeta) (ps qs : List ChunkPointer) (l l₁ l₂ : Log)
    → Wrote ms ps l l₁
    → Wrote ns qs l₁ l₂
    → Wrote (ms ++ ns) (ps ++ qs) l l₂
Wrote-append ms ns ps qs l l₁ l₂ a b = record {
  path = b.path ∙ a.path;
  bv_num = b.bv_num ∙ a.bv_num;
  deleted = b.deleted ∙ a.deleted;
  metadata =
      b.metadata
      ∙ ap (λ m. m ++ metas_bytes ns) a.metadata
      ∙ append_assoc l.metadata (metas_bytes ms) (metas_bytes ns)
      ∙ ap (λ m. l.metadata ++ m) (sym (metas_bytes-append ms ns));
  number_of_files = omega (arith, a.number_of_files, b.number_of_files, length-append ms ns);
  number_of_chunks = omega (arith, a.number_of_chunks, b.number_of_chunks, length-append ps qs);
}

-- One step of the loop, with the segment that is open before and behind it.
abbrev pub Steps :
    Writer
    → Option Writer
    → Option FileRecipeMeta
    → List FileRecipeMeta
    → List ChunkPointer
    → ℕ
    → List ℕ
    → Type 0
Steps w result r' ms ps len buf =
    (w' : Writer) × (result ≡ some w')
    × (w'.r ≡ r')
    × Wrote ms ps (view w.bv) (view w'.bv)
    × ((view w'.bv).recipe ≡ (view w.bv).recipe)
    × ((view w'.bv).segment ≡ some (len, buf))
    × Fits w'.bv

pub write_open :
    (c : Chunk) (w : Writer) (name : List ℕ) (len : ℕ) (buf : List ℕ)
    → w.r ≡ none
    → c.flag.file_start ≡ true
    → c_string c.bytes ≡ some name
    → (view w.bv).segment ≡ some (len, buf)
    → Fits w.bv
    → Steps w (write_chunk c w) (some (new_file_recipe_meta name)) [] [] len buf
unfolding write_chunk
write_open c w name len buf closed start named segment fits = (
  record w { r = some (new_file_recipe_meta name) },
  rw (closed, start, named) refl,
  refl,
  Wrote-nil (view w.bv),
  refl,
  segment,
  fits,
)

pub write_close :
    (c : Chunk) (w : Writer) (r : FileRecipeMeta) (len : ℕ) (buf : List ℕ)
    → w.r ≡ some r
    → c.flag.file_end ≡ true
    → 20 + length r.filename ≤ metabufsize
    → (view w.bv).segment ≡ some (len, buf)
    → Fits w.bv
    → Steps w (write_chunk c w) none (r ∷ []) [] len buf
unfolding write_chunk metas_bytes
write_close c w r len buf opened end short segment fits =
    let (bv, run, log, fits') = append_file_recipe_meta-log r w.bv fits short in
    (
      record w { r = none; bv = bv; file_num = w.file_num + 1 },
      rw (opened, end, run) refl,
      refl,
      record {
        path = ap (λ (l : Log). l.path) log;
        bv_num = ap (λ (l : Log). l.bv_num) log;
        deleted = ap (λ (l : Log). l.deleted) log;
        metadata =
            ap (λ (l : Log). l.metadata) log
            ∙ ap (λ m. (view w.bv).metadata ++ m) (sym (append-nil (meta_bytes r)));
        number_of_files = ap (λ (l : Log). l.number_of_files) log;
        number_of_chunks = ap (λ (l : Log). l.number_of_chunks) log ∙ omega arith;
      },
      ap (λ (l : Log). l.recipe) log,
      ap (λ (l : Log). l.segment) log ∙ segment,
      fits',
    )

pub write_hold :
    (c : Chunk) (w : Writer) (r : FileRecipeMeta) (id len : ℕ) (buf : List ℕ)
    → w.r ≡ some r
    → c.flag.file_end ≡ false
    → c.id ≡ some id
    → (view w.bv).segment ≡ some (len, buf)
    → length buf + 32 ≤ len
    → Fits w.bv
    → Steps w
        (write_chunk c w)
        (some (more_of r c.size))
        []
        (pointer_of c id ∷ [])
        len
        (buf ++ pointer_bytes (pointer_of c id))
unfolding write_chunk metas_bytes
write_hold c w r id len buf opened no_end is segment room fits =
    let (bv, run, log, fits') =
      append_pointer-log (pointer_of c id) w.bv id len buf refl segment room fits in
    (
      record w {
        r = some (more_of r c.size);
        bv = bv;
        chunk_num = w.chunk_num + 1;
        data_size = w.data_size + c.size;
      },
      rw (opened, no_end, is, run) refl,
      refl,
      record {
        path = ap (λ (l : Log). l.path) log;
        bv_num = ap (λ (l : Log). l.bv_num) log;
        deleted = ap (λ (l : Log). l.deleted) log;
        metadata = ap (λ (l : Log). l.metadata) log ∙ sym (append-nil (view w.bv).metadata);
        number_of_files = ap (λ (l : Log). l.number_of_files) log ∙ omega arith;
        number_of_chunks = ap (λ (l : Log). l.number_of_chunks) log;
      },
      ap (λ (l : Log). l.recipe) log,
      ap (λ (l : Log). l.segment) log,
      fits',
    )
