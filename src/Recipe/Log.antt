-- ===== src/Recipe/Log.antt =====
-- What a backup of recipestore.c has written, whatever still is in its buffers of .meta and .records.
use destor_lt.Prelude.{
  ℕ, ◌+◌, ◌-◌, ◌≤◌, ◌≡◌, refl, sym, ap, ◌∙◌, arith, ltb, leb, Bool-cases, inl, inr, if◌then◌else◌,
  Option, some, List, [], ◌∷◌, ◌++◌, length, length-append, append_assoc, ℤ, pos, true, false,
}
use destor_lt.Storage.Serial.{host_bytes, length-host_bytes}
use destor_lt.Recipe.{
  ChunkPointer, FileRecipeMeta, BackupVersion, metabufsize, recordbufsize, meta_bytes,
  pointer_bytes, append_file_recipe_meta, put_record, next_record, put_pointer,
  append_n_chunk_pointers, temporary,
}
use destor_lt.Recipe.Words.{to_word, eq_int}

pub record Log : Type 0 where
  pub path : List ℕ
  pub bv_num : ℕ
  pub deleted : ℕ
  pub number_of_files : ℕ
  pub number_of_chunks : ℕ
  pub metadata : List ℕ
  pub records : List ℕ
  pub recipe : List ℕ
  pub segment : Option (ℕ × List ℕ)
  pub access_record : ℤ

unfoldable pub view : BackupVersion → Log
view b = record {
  path = b.path;
  bv_num = b.bv_num;
  deleted = b.deleted;
  number_of_files = b.number_of_files;
  number_of_chunks = b.number_of_chunks;
  metadata = b.metadata ++ b.metabuf;
  records = b.records ++ b.recordbuf;
  recipe = b.recipe;
  segment = b.segment;
  access_record = b.access_record;
}

abbrev pub log_meta : FileRecipeMeta → Log → Log
log_meta r l = record l {
  metadata = l.metadata ++ meta_bytes r;
  number_of_files = l.number_of_files + 1;
}

abbrev with_pointer : ℕ → List ℕ → Log → Log
with_pointer len buf l = record l {
  segment = some (len, buf);
  number_of_chunks = l.number_of_chunks + 1;
}

abbrev with_access : ℤ → Log → Log
with_access id l = record l { access_record = id }

abbrev pub log_next : ℤ → Log → Log
log_next id l = record l {
  records =
      if eq_int l.access_record temporary
      then l.records
      else if eq_int l.access_record id
      then l.records
      else l.records ++ host_bytes 8 (to_word 8 l.access_record);
  access_record = id;
}

abbrev pub log_pointer : ℕ → List ℕ → ChunkPointer → Log → Log
log_pointer len buf cp l = record (log_next cp.id l) {
  segment = some (len, buf ++ pointer_bytes cp);
  number_of_chunks = l.number_of_chunks + 1;
}

-- The offset in `metabuf` is within it.
abbrev pub Fits : BackupVersion → Type 0
Fits b = length b.metabuf ≤ metabufsize

pub length-meta_bytes : (r : FileRecipeMeta) → length (meta_bytes r) ≡ 20 + length r.filename
unfolding meta_bytes
length-meta_bytes r = omega (
  arith,
  length-append (host_bytes 4 (length r.filename))
      (r.filename ++ (host_bytes 8 r.chunknum ++ host_bytes 8 r.filesize)),
  length-append r.filename (host_bytes 8 r.chunknum ++ host_bytes 8 r.filesize),
  length-append (host_bytes 8 r.chunknum) (host_bytes 8 r.filesize),
  length-host_bytes 4 (length r.filename),
  length-host_bytes 8 r.chunknum,
  length-host_bytes 8 r.filesize,
)

pub append_file_recipe_meta-log :
    (r : FileRecipeMeta) (b : BackupVersion)
    → Fits b
    → 20 + length r.filename ≤ metabufsize
    → (b' : BackupVersion) × (append_file_recipe_meta r b ≡ some b')
      × (view b' ≡ log_meta r (view b))
      × Fits b'
unfolding append_file_recipe_meta view
append_file_recipe_meta-log r b fits short =
    elim (Bool-cases (ltb (metabufsize - length b.metabuf) (20 + length r.filename))) [
      | inl full ↦ (
        record b {
          metadata = b.metadata ++ b.metabuf;
          metabuf = meta_bytes r;
          number_of_files = b.number_of_files + 1;
        },
        ground (arith, full, short),
        refl,
        omega (arith, length-meta_bytes r),
      )
      | inr room ↦ (
        record b { metabuf = b.metabuf ++ meta_bytes r; number_of_files = b.number_of_files + 1 },
        ground (arith, room, fits, short),
        ap (λ m. record (log_meta r (view b)) { metadata = m })
            (sym (append_assoc b.metadata b.metabuf (meta_bytes r))),
        ground (arith, length-append b.metabuf (meta_bytes r), length-meta_bytes r, room),
      )
    ]

put_record-log :
    (b : BackupVersion)
    → view (put_record b)
      ≡ record (view b) { records = (view b).records ++ host_bytes 8 (to_word 8 b.access_record) }
unfolding put_record view
put_record-log b = elim (Bool-cases (ltb recordbufsize (length b.recordbuf + 8))) [
  | inl full ↦ rw full refl
  | inr room ↦ rw room (
      ap (λ m. record (view b) { records = m })
        (sym (append_assoc b.records b.recordbuf (host_bytes 8 (to_word 8 b.access_record)))))
]

put_record-metabuf : (b : BackupVersion) → (put_record b).metabuf ≡ b.metabuf
unfolding put_record
put_record-metabuf b = ground arith

next_record-log : (id : ℤ) (b : BackupVersion) → view (next_record id b) ≡ log_next id (view b)
unfolding next_record view
next_record-log id b = elim (Bool-cases (eq_int b.access_record temporary)) [
  | inl first ↦ rw first refl
  | inr later ↦ elim (Bool-cases (eq_int b.access_record id)) [
    | inl same ↦ rw (later, same) refl
    | inr other ↦ rw (later, other) (ap (with_access id) (put_record-log b))
  ]
]

next_record-metabuf : (id : ℤ) (b : BackupVersion) → (next_record id b).metabuf ≡ b.metabuf
unfolding next_record
next_record-metabuf id b = ground (arith, put_record-metabuf b)

append_one :
    (cp : ChunkPointer) (b : BackupVersion) (id len : ℕ) (buf : List ℕ)
    → cp.id ≡ pos id
    → (next_record cp.id b).segment ≡ some (len, buf)
    → length buf + 32 ≤ len
    → append_n_chunk_pointers (cp ∷ []) b
      ≡ some (record (next_record cp.id b) {
        segment = some (len, buf ++ pointer_bytes cp);
        number_of_chunks = (next_record cp.id b).number_of_chunks + 1;
      })
unfolding append_n_chunk_pointers put_pointer
append_one cp b id len buf is opened room =
    let valid : eq_int cp.id temporary ≡ false = rw is refl in
    let fits : leb (length buf + 32) len ≡ true = ground arith in rw (valid, opened, fits) refl

-- One pointer that has room in the segment.
pub append_pointer-log :
    (cp : ChunkPointer) (b : BackupVersion) (id len : ℕ) (buf : List ℕ)
    → cp.id ≡ pos id
    → (view b).segment ≡ some (len, buf)
    → length buf + 32 ≤ len
    → Fits b
    → (b' : BackupVersion) × (append_n_chunk_pointers (cp ∷ []) b ≡ some b')
      × (view b' ≡ log_pointer len buf cp (view b))
      × Fits b'
unfolding view
append_pointer-log cp b id len buf is segment room fits =
    let n = next_record cp.id b in
    let log = next_record-log cp.id b in
    let opened : n.segment ≡ some (len, buf) =
      unfold view in (ap (λ (l : Log). l.segment) log ∙ segment) in
    let b' : BackupVersion = record n {
      segment = some (len, buf ++ pointer_bytes cp);
      number_of_chunks = n.number_of_chunks + 1;
    } in
    let run : append_n_chunk_pointers (cp ∷ []) b ≡ some b' =
      append_one cp b id len buf is opened room in
    (
      b',
      run,
      ap (with_pointer len (buf ++ pointer_bytes cp)) log,
      rw (next_record-metabuf cp.id b) fits,
    )
