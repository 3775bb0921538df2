-- ===== src/Storage/Pool/Entries.antt =====
-- Parsing what the container's metadata writer wrote (storage/containerstore.c).
use destor_lt.Prelude.{
  ℕ, suc, ◌+◌, ◌*◌, ◌^◌, ◌<◌, ◌≡◌, refl, ap, ◌∙◌, false, none, some, List, [], ◌∷◌, ◌++◌, arith,
  length, insert, All, insert_all, HashOrder, append_assoc, length-append, ==-refl,
}
use destor_lt.Storage.Serial.{
  serial_int, host_bytes, length-serial_int, length-host_bytes, unserial_int-serial_int,
  unser_bytes-host_bytes,
}
use destor_lt.Storage.Container.{MetaEntry, ContainerMeta}
use destor_lt.Storage.Pool.{
  Table, id_bits, entry_bytes, entries_bytes, meta_bytes, read_entries, read_meta,
}

-- What fits into the fields of a written entry.
abbrev pub IsStorable : ℕ × MetaEntry → Type 0
IsStorable (fp, me) =
    (fp < 256 ^ 20) × (me.len < 256 ^ 4) × (me.off < 256 ^ 4) × (me.position ≡ none)

length-entry_bytes : (e : ℕ × MetaEntry) → length (entry_bytes e) ≡ 28
length-entry_bytes (fp, me) = omega (
  arith,
  length-append (serial_int 20 fp) (host_bytes 4 me.len ++ host_bytes 4 me.off),
  length-append (host_bytes 4 me.len) (host_bytes 4 me.off),
  length-serial_int 20 fp,
  length-host_bytes 4 me.len,
  length-host_bytes 4 me.off,
)

pub length-entries_bytes : (es : Table) → length (entries_bytes es) ≡ length es * 28
unfolding entries_bytes
length-entries_bytes [] = omega arith
length-entries_bytes (e ∷ es) = omega (
  arith,
  length-append (entry_bytes e) (entries_bytes es),
  length-entry_bytes e,
  length-entries_bytes es,
)

read-entry :
    (fp n i : ℕ) (me : MetaEntry) (rest : List ℕ) (m : Table)
    → IsStorable (fp, me)
    → read_entries false (suc n) i (entry_bytes (fp, me) ++ rest) m
      ≡ read_entries false n (i + 1) rest (insert fp me m)
unfolding read_entries
read-entry fp n i me rest m s =
    let split : entry_bytes (fp, me) ++ rest
        ≡ serial_int 20 fp ++ (host_bytes 4 me.len ++ (host_bytes 4 me.off ++ rest)) =
      append_assoc (serial_int 20 fp) _ rest
      ∙ ap (λ bs. serial_int 20 fp ++ bs) (append_assoc (host_bytes 4 me.len) _ rest) in
    rw
      (
        split,
        unserial_int-serial_int 20 fp _ s.0,
        unser_bytes-host_bytes 4 me.len _ s.1,
        unser_bytes-host_bytes 4 me.off _ s.2,
        ← s.3,
      )
      refl

pub read_entries-entries_bytes :
    (es : Table) (i : ℕ) (rest : List ℕ) (m : Table)
    → All IsStorable es
    → read_entries false (length es) i (entries_bytes es ++ rest) m ≡ insert_all es m
unfolding entries_bytes insert_all
read_entries-entries_bytes [] i rest m s = unfold read_entries in refl
read_entries-entries_bytes ((fp, me) ∷ es) i rest m s =
    rw (append_assoc (entry_bytes (fp, me)) (entries_bytes es) rest) (
      read-entry fp (length es) i me (entries_bytes es ++ rest) m s.0
      ∙ read_entries-entries_bytes es (i + 1) rest (insert fp me m) s.1)

-- The metadata that is written parses back to the same id, sizes and table.
pub read_meta-meta_bytes :
    (order : HashOrder MetaEntry) (meta : ContainerMeta) (id : ℕ) (rest : List ℕ)
    → meta.id ≡ some id
    → id < 256 ^ 8
    → meta.chunk_num < 256 ^ 4
    → meta.data_size < 256 ^ 4
    → meta.chunk_num ≡ length (order.iterate meta.map)
    → All IsStorable (order.iterate meta.map)
    → read_meta false id (meta_bytes order meta ++ rest)
      ≡ some (record {
        id = some id;
        data_size = meta.data_size;
        chunk_num = meta.chunk_num;
        map = insert_all (order.iterate meta.map) [];
      })
unfolding read_meta meta_bytes
read_meta-meta_bytes order meta id rest named small_id small_num small_size counted s =
    let entries = entries_bytes (order.iterate meta.map) in
    let split : meta_bytes order meta ++ rest
        ≡ serial_int 8 (id_bits meta.id)
          ++ (serial_int 4 meta.chunk_num ++ (serial_int 4 meta.data_size ++ (entries ++ rest))) =
      append_assoc (serial_int 8 (id_bits meta.id)) _ rest
      ∙ ap (λ bs. serial_int 8 (id_bits meta.id) ++ bs)
          (append_assoc (serial_int 4 meta.chunk_num) _ rest
            ∙ ap (λ bs. serial_int 4 meta.chunk_num ++ bs)
                (append_assoc (serial_int 4 meta.data_size) entries rest)) in
    let parsed : read_entries false meta.chunk_num 0 (entries ++ rest) []
        ≡ insert_all (order.iterate meta.map) [] =
      ap (λ n. read_entries false n 0 (entries ++ rest) []) counted
      ∙ read_entries-entries_bytes (order.iterate meta.map) 0 rest [] s in
    rw
      (
        split,
        named,
        unserial_int-serial_int 8 id _ small_id,
        unserial_int-serial_int 4 meta.chunk_num _ small_num,
        unserial_int-serial_int 4 meta.data_size _ small_size,
        ==-refl id,
      )
      (ap
        (λ t. some (record {
          id = some id;
          data_size = meta.data_size;
          chunk_num = meta.chunk_num;
          map = t;
        }))
        parsed)
