-- ===== src/Recipe/Head.antt =====
-- The head of the file .meta of recipestore.c, and its reading.
use destor_lt.Prelude.{
  ℕ, ◌+◌, ◌^◌, ◌<◌, ◌≡◌, refl, ap, ◌∙◌, arith, some, List, [], ◌∷◌, ◌++◌, length, length-append,
  append_assoc, take-append, drop-append, true, false, ltb, leb, ◌||◌, ◌==◌,
}
use destor_lt.Storage.Serial.{host_bytes, length-host_bytes}
use destor_lt.Recipe.{BackupVersion, header_bytes}
use destor_lt.Recipe.Read.{int_max}
use destor_lt.Recipe.Filter.{c_string}
use destor_lt.Recipe.Open.{Opened, read_path, open_backup_version}
use destor_lt.Recipe.Metas.{read_field-host_bytes}

pub length-header_bytes : (b : BackupVersion) → length (header_bytes b) ≡ 28 + length b.path
unfolding header_bytes
length-header_bytes b =
    let e = host_bytes 4 (length b.path) in
    let d = host_bytes 8 b.number_of_chunks in
    let c = host_bytes 8 b.number_of_files in
    let a = host_bytes 4 b.deleted in
    omega (
      arith,
      length-append (host_bytes 4 b.bv_num) (a ++ (c ++ (d ++ (e ++ b.path)))),
      length-append a (c ++ (d ++ (e ++ b.path))),
      length-append c (d ++ (e ++ b.path)),
      length-append d (e ++ b.path),
      length-append e b.path,
      length-host_bytes 4 b.bv_num,
      length-host_bytes 4 b.deleted,
      length-host_bytes 8 b.number_of_files,
      length-host_bytes 8 b.number_of_chunks,
      length-host_bytes 4 (length b.path),
    )

-- The bytes of a head in front of others.
header_bytes-append :
    (b : BackupVersion) (rest : List ℕ)
    → header_bytes b ++ rest
      ≡ host_bytes 4 b.bv_num
        ++ (host_bytes 4 b.deleted
            ++ (host_bytes 8 b.number_of_files
                ++ (host_bytes 8 b.number_of_chunks
                    ++ (host_bytes 4 (length b.path) ++ (b.path ++ rest)))))
unfolding header_bytes
header_bytes-append b rest =
    let e = host_bytes 4 (length b.path) in
    let d = host_bytes 8 b.number_of_chunks in
    let c = host_bytes 8 b.number_of_files in
    let a = host_bytes 4 b.deleted in
    let n = host_bytes 4 b.bv_num in
    append_assoc n (a ++ (c ++ (d ++ (e ++ b.path)))) rest
    ∙ ap (λ l. n ++ l) (append_assoc a (c ++ (d ++ (e ++ b.path))) rest)
    ∙ ap (λ l. n ++ (a ++ l)) (append_assoc c (d ++ (e ++ b.path)) rest)
    ∙ ap (λ l. n ++ (a ++ (c ++ l))) (append_assoc d (e ++ b.path) rest)
    ∙ ap (λ l. n ++ (a ++ (c ++ (d ++ l)))) (append_assoc e b.path rest)

abbrev pub opened : BackupVersion → List ℕ → List ℕ → Opened
opened b rest recipe = record {
  bv_num = b.bv_num;
  deleted = b.deleted;
  number_of_files = b.number_of_files;
  path = b.path;
  metadata = rest;
  read_file_num = 0;
  chunks = record {
    number_of_chunks = b.number_of_chunks;
    read_chunk_num = 0;
    recipe = record { off = 0; rest = recipe };
  };
}

read_path-bytes :
    (b : BackupVersion) (rest recipe : List ℕ)
    → length b.path < int_max
    → c_string (b.path ++ 0 ∷ []) ≡ some b.path
    → read_path b.bv_num b.deleted b.number_of_files b.number_of_chunks recipe
        (host_bytes 4 (length b.path) ++ (b.path ++ rest))
      ≡ some (opened b rest recipe)
unfolding read_path
read_path-bytes b rest recipe short name =
    let enough : (leb int_max (length b.path) || ltb (length (b.path ++ rest)) (length b.path))
        ≡ false =
      ground (arith, length-append b.path rest, short) in
    rw
      (
        read_path,
        read_field-host_bytes 4 (length b.path) (b.path ++ rest) (omega (arith, short)),
        enough,
        take-append (length b.path) b.path rest refl,
        name,
        drop-append (length b.path) b.path rest refl,
      )
      refl

pub open_backup_version-header :
    (b : BackupVersion) (rest recipe : List ℕ)
    → b.bv_num < 256 ^ 4
    → b.deleted < 256 ^ 4
    → b.number_of_files < 256 ^ 8
    → b.number_of_chunks < 256 ^ 8
    → length b.path < int_max
    → c_string (b.path ++ 0 ∷ []) ≡ some b.path
    → open_backup_version b.bv_num (header_bytes b ++ rest) recipe ≡ some (opened b rest recipe)
unfolding open_backup_version
open_backup_version-header b rest recipe num del files chunks short name =
    let e = host_bytes 4 (length b.path) ++ (b.path ++ rest) in
    let d = host_bytes 8 b.number_of_chunks ++ e in
    let c = host_bytes 8 b.number_of_files ++ d in
    let same : (b.bv_num == b.bv_num) ≡ true = ground arith in
    rw
      (
        header_bytes-append b rest,
        open_backup_version,
        read_field-host_bytes 4 b.bv_num (host_bytes 4 b.deleted ++ c) num,
        read_field-host_bytes 4 b.deleted c del,
        read_field-host_bytes 8 b.number_of_files d files,
        read_field-host_bytes 8 b.number_of_chunks e chunks,
        same,
      )
      (read_path-bytes b rest recipe short name)
