-- ===== src/Recipe.antt =====
-- The recipe store: destor-master/src/recipe/recipestore.c, its types and what a backup writes.
mod Tests
pub mod Words
pub mod Read
pub mod Ids
pub mod Pointers
pub mod Log
pub mod Filter
pub mod Stream
pub mod Written
pub mod Segments
pub mod Open
pub mod Kept
pub mod Metas
pub mod Head
pub mod Restored
pub mod RoundTrip
pub mod Fetched
pub mod Prefetch
use destor_lt.Prelude.{
  ℕ, zero, suc, ◌+◌, ◌-◌, ◌*◌, ◌/◌, ◌%◌, ◌^◌, ◌≤◌, ◌<◌, ◌≡◌, Bool, true, false, Option, none, some,
  List, [], ◌∷◌, ◌++◌, ltb, leb, ◌==◌, if◌then◌else◌, length, drop, ℤ, pos, negsuc,
}
use destor_lt.Storage.Serial.{serial_int, host_bytes}
use Words.{to_word, of_word, eq_int}

-- TEMPORARY_ID as a signed integer.
abbrev pub temporary : ℤ
temporary = negsuc 0

-- The fingerprint is the number that its bytes make, the first highest.
pub record ChunkPointer : Type 0 where
  pub fp : ℕ
  pub id : ℤ
  pub size : ℤ

pub record FileRecipeMeta : Type 0 where
  pub chunknum : ℕ
  pub filesize : ℕ
  pub filename : List ℕ

-- `flag` of `append_segment_flag`.
pub data Mark : Type 0 where
  segment_start : Mark
  segment_end : Mark

-- `0 - CHUNK_SEGMENT_START` and `0 - CHUNK_SEGMENT_END`.
abbrev pub mark_id : Mark → ℤ
mark_id segment_start = negsuc 3
mark_id segment_end = negsuc 7

-- A backup that is written. The files .meta, .records and .recipe are the bytes written to them, the
-- buffers the bytes in them; `segment` is `segmentlen` with `segmentbuf`, and `none` where that is
-- NULL. `access_record` is the global of the name.
pub record BackupVersion : Type 0 where
  pub path : List ℕ
  pub bv_num : ℕ
  pub deleted : ℕ
  pub number_of_files : ℕ
  pub number_of_chunks : ℕ
  pub metadata : List ℕ
  pub metabuf : List ℕ
  pub records : List ℕ
  pub recordbuf : List ℕ
  pub recipe : List ℕ
  pub segment : Option (ℕ × List ℕ)
  pub access_record : ℤ

abbrev pub metabufsize : ℕ
metabufsize = 65_536

abbrev pub recordbufsize : ℕ
recordbufsize = 65_536

-- The head of the file .meta.
unfoldable pub header_bytes : BackupVersion → List ℕ
header_bytes b =
    host_bytes 4 b.bv_num
    ++ (host_bytes 4 b.deleted
        ++ (host_bytes 8 b.number_of_files
            ++ (host_bytes 8 b.number_of_chunks ++ (host_bytes 4 (length b.path) ++ b.path))))

-- The loop that cuts the name of a file behind the last '/' off a path; `none` is an access before
-- its first character.
unfoldable pub directory : List ℕ → Option (List ℕ)
directory [] = none
directory (c ∷ cs) = elim (directory cs) [
  | none ↦ if c == 47 then some (c ∷ []) else none
  | some cs' ↦ some (c ∷ cs')
]

abbrev blank_version : ℕ → List ℕ → BackupVersion
blank_version number dir = record {
  path = dir;
  bv_num = number;
  deleted = 0;
  number_of_files = 0;
  number_of_chunks = 0;
  metadata = [];
  metabuf = [];
  records = [];
  recordbuf = [];
  recipe = [];
  segment = none;
  access_record = temporary;
}

abbrev pub new_version : ℕ → List ℕ → BackupVersion
new_version number dir = record (blank_version number dir) {
  metadata = header_bytes (blank_version number dir);
}

-- `number` is what `get_next_version_number` returns.
unfoldable pub create_backup_version : ℕ → List ℕ → Option BackupVersion
create_backup_version number path = elim (directory path) [
  | none ↦ none
  | some dir ↦ some (new_version number dir)
]

unfoldable pub meta_bytes : FileRecipeMeta → List ℕ
meta_bytes r =
    host_bytes 4 (length r.filename)
    ++ (r.filename ++ (host_bytes 8 r.chunknum ++ host_bytes 8 r.filesize))

-- `none` is a write past the end of `metabuf`.
unfoldable pub append_file_recipe_meta : FileRecipeMeta → BackupVersion → Option BackupVersion
append_file_recipe_meta r b =
    let flushed =
      if ltb (metabufsize - length b.metabuf) (20 + length r.filename)
      then record b { metadata = b.metadata ++ b.metabuf; metabuf = [] }
      else b in
    if leb (length flushed.metabuf + (20 + length r.filename)) metabufsize
    then some (record flushed {
      metabuf = flushed.metabuf ++ meta_bytes r;
      number_of_files = b.number_of_files + 1;
    })
    else none

-- 16 bits of the backup's number, 32 bits of the offset and 16 bits of the size.
unfoldable pub make_segment_id : ℕ → ℕ → ℕ → ℤ
make_segment_id bid off size = of_word 8 ((bid * 2 ^ 48 + off * 2 ^ 16 + size) % 2 ^ 64)

unfoldable pub id_to_size : ℤ → ℕ
id_to_size id = to_word 8 id % 65_536

unfoldable pub id_to_off : ℤ → ℕ
id_to_off id = (to_word 8 id / 65_536) % 2 ^ 32

-- An arithmetic shift.
unfoldable pub id_to_bnum : ℤ → ℤ
id_to_bnum (pos id) = pos (id / 2 ^ 48)
id_to_bnum (negsuc id) = negsuc (id / 2 ^ 48)

unfoldable pub pointer_bytes : ChunkPointer → List ℕ
pointer_bytes cp =
    serial_int 20 cp.fp ++ (host_bytes 8 (to_word 8 cp.id) ++ host_bytes 4 (to_word 4 cp.size))

-- Into `segmentbuf`; `none` is a write to NULL or past its end.
unfoldable pub put_pointer : ChunkPointer → BackupVersion → Option BackupVersion
put_pointer cp b = elim b.segment [
  | none ↦ none
  | some (len, buf) ↦
      if leb (length buf + 32) len
      then some (record b { segment = some (len, buf ++ pointer_bytes cp) })
      else none
]

-- The output of `segmentbuf`; `none` is the output of bytes of it that were not set.
unfoldable pub write_segment : BackupVersion → Option BackupVersion
write_segment b = elim b.segment [
  | none ↦ none
  | some (len, buf) ↦
      if length buf == len
      then some (record b { recipe = b.recipe ++ buf; segment = none })
      else none
]

-- `none` is a length of the segment that is no int, too.
unfoldable pub append_segment_flag : Mark → ℕ → BackupVersion → Option (BackupVersion × ℤ)
append_segment_flag segment_start size b =
    if ltb (64 + size * 32) (2 ^ 31)
    then elim (put_pointer (record { fp = 0; id = mark_id segment_start; size = pos size })
        (record b { segment = some (64 + size * 32, []) })) [
          | none ↦ none
          | some b' ↦ some (b', make_segment_id b.bv_num (length b.recipe) size)
        ]
    else none
append_segment_flag segment_end size b =
    elim (put_pointer (record { fp = 0; id = mark_id segment_end; size = pos size }) b) [
      | none ↦ none
      | some b₁ ↦ elim (write_segment b₁) [ none ↦ none | some b₂ ↦ some (b₂, temporary) ]
    ]

-- The id of a pointer is recorded once for a run of pointers, when the run ends.
unfoldable pub put_record : BackupVersion → BackupVersion
put_record b =
    let flushed =
      if ltb recordbufsize (length b.recordbuf + 8)
      then record b { records = b.records ++ b.recordbuf; recordbuf = [] }
      else b in
    record flushed { recordbuf = flushed.recordbuf ++ host_bytes 8 (to_word 8 b.access_record) }

unfoldable pub next_record : ℤ → BackupVersion → BackupVersion
next_record id b =
    let b' =
      if eq_int b.access_record temporary
      then b
      else if eq_int b.access_record id
      then b
      else put_record b in
    record b' { access_record = id }

-- The loop over the pointers; `none` is a failed assertion too.
unfoldable pub append_n_chunk_pointers : List ChunkPointer → BackupVersion → Option BackupVersion
append_n_chunk_pointers [] b = some b
append_n_chunk_pointers (cp ∷ cps) b =
    if eq_int cp.id temporary then none else elim (put_pointer cp (next_record cp.id b)) [
      | none ↦ none
      | some b' ↦
          append_n_chunk_pointers cps (record b' { number_of_chunks = b'.number_of_chunks + 1 })
    ]

-- At the end of a backup. The head of .meta has the length it had before.
unfoldable pub update_backup_version : BackupVersion → BackupVersion
update_backup_version b =
    let metadata = b.metadata ++ b.metabuf in
    let last =
      if eq_int b.access_record temporary then [] else host_bytes 8 (to_word 8 b.access_record) in
    record b {
      metadata = header_bytes b ++ drop (length (header_bytes b)) metadata;
      metabuf = [];
      records = b.records ++ (b.recordbuf ++ (last ++ host_bytes 8 (to_word 8 temporary)));
      recordbuf = [];
      access_record = temporary;
    }
