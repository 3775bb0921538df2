-- ===== src/Storage/Pool.antt =====
-- The container pool file: writing and reading back (destor-master/src/storage/containerstore.c).
pub mod Entries
pub mod Parse
pub mod RoundTrip
mod Tests
use destor_lt.Prelude.{
  ℕ, zero, suc, ◌+◌, ◌-◌, ◌*◌, ◌^◌, ◌≡◌, Bool, true, false, not, Option, none, some, List, [], ◌∷◌,
  ◌++◌, ltb, leb, ◌==◌, length, if◌then◌else◌, lookup, insert, HashOrder,
}
use destor_lt.Chunk.{container_size, container_meta_size, simulation_restore, simulation_append}
use destor_lt.Storage.Memory.{Memory, zeros, store, load, copy}
use destor_lt.Storage.Serial.{serial_int, host_bytes, unserial_int, unser_bytes}
use destor_lt.Storage.Container.{MetaEntry, ContainerMeta, Container, container_empty}

abbrev pub Table : Type 0
Table = List (ℕ × MetaEntry)

-- `fp`, `container_count` and `container_buffer`, the containers not yet written, oldest first.
pub record Store : Type 0 where
  pub file : Memory
  pub container_count : ℕ
  pub container_buffer : List Container

-- TEMPORARY_ID is -1 as an int64.
abbrev pub id_bits : Option ℕ → ℕ
id_bits none = 2 ^ 64 - 1
id_bits (some id) = id

abbrev pub entry_bytes : ℕ × MetaEntry → List ℕ
entry_bytes (fp, me) = serial_int 20 fp ++ (host_bytes 4 me.len ++ host_bytes 4 me.off)

unfoldable pub entries_bytes : Table → List ℕ
entries_bytes [] = []
entries_bytes (e ∷ es) = entry_bytes e ++ entries_bytes es

unfoldable pub meta_bytes : HashOrder MetaEntry → ContainerMeta → List ℕ
meta_bytes order meta =
    serial_int 8 (id_bits meta.id)
    ++ (serial_int 4 meta.chunk_num
        ++ (serial_int 4 meta.data_size ++ entries_bytes (order.iterate meta.map)))

-- `none` is a failed assertion, of the table's size or of `ser_end`.
unfoldable pub write_container : HashOrder MetaEntry → ℕ → Container → Store → Option Store
unfolding container_empty
write_container order simulation_level c st =
    let area = meta_bytes order c.meta in
    let id = id_bits c.meta.id in
    if not (c.meta.chunk_num == length c.meta.map)
    then none
    else if container_empty c
    then some (record st { container_count = st.container_count - 1 })
    else if ltb container_meta_size (length area)
    then none
    else if ltb simulation_level simulation_append
    then some (record st {
      file =
          copy (id * container_size + 8) container_size
            (store (container_size - container_meta_size) area c.contents) st.file;
    })
    else some (record st {
      file = copy (id * container_meta_size + 8) container_meta_size (store 0 area zeros) st.file;
    })

-- The loop over `chunk_num` entries. `place` says whether `position` is set to the loop's counter.
unfoldable pub read_entries : Bool → ℕ → ℕ → List ℕ → Table → Table
read_entries place zero i input map = map
read_entries place (suc n) i input map =
    let (fp, input₁) = unserial_int 20 input in
    let (len, input₂) = unser_bytes 4 input₁ in
    let (off, input₃) = unser_bytes 4 input₂ in
    read_entries place n (i + 1) input₃
      (insert fp (record { off = off; len = len; position = if place then some i else none }) map)

-- The metadata in an area; `none` is the assertion that the id is the one asked for.
unfoldable pub read_meta : Bool → ℕ → List ℕ → Option ContainerMeta
read_meta place id area =
    let (read_id, input₁) = unserial_int 8 area in
    let (chunk_num, input₂) = unserial_int 4 input₁ in
    let (data_size, input₃) = unserial_int 4 input₂ in
    if read_id == id
    then some (record {
      id = some read_id;
      data_size = data_size;
      chunk_num = chunk_num;
      map = read_entries place chunk_num 0 input₃ [];
    })
    else none

-- Where a container's metadata area stands in the file.
abbrev pub meta_offset : ℕ → ℕ → ℕ
meta_offset simulation_level id =
    if leb simulation_append simulation_level
    then id * container_meta_size + 8
    else (id + 1) * container_size - container_meta_size + 8

-- At the levels that simulate, the buffer is freed after the metadata is read; `none` is a failed
-- assertion, of the id or of `unser_end`.
unfoldable pub retrieve_container_by_id : ℕ → ℕ → Store → Option Container
retrieve_container_by_id simulation_level id st =
    let area =
      if leb simulation_restore simulation_level
      then load (meta_offset simulation_level id) container_meta_size st.file
      else load (id * container_size + 8 + (container_size - container_meta_size))
          container_meta_size st.file in
    elim (read_meta false id area) [
      | none ↦ none
      | some meta ↦
          if ltb container_meta_size (16 + meta.chunk_num * 28)
          then none
          else some (record {
            meta = meta;
            contents =
                if leb simulation_restore simulation_level
                then zeros
                else copy 0 container_size (λ p. st.file (id * container_size + 8 + p)) zeros;
          })
    ]

abbrev pub container_check_id : ℕ → Container → Bool
container_check_id id c = elim c.meta.id [ none ↦ false | some i ↦ i == id ]

-- `sync_queue_find` over the containers that wait to be written.
unfoldable pub find_buffered : ℕ → List Container → Option Container
find_buffered id [] = none
find_buffered id (c ∷ cs) = if container_check_id id c then some c else find_buffered id cs

unfoldable pub retrieve_container_meta_by_id : ℕ → ℕ → Store → Option ContainerMeta
retrieve_container_meta_by_id simulation_level id st = elim (find_buffered id st.container_buffer) [
  | some c ↦ some c.meta
  | none ↦ read_meta true id (load (meta_offset simulation_level id) container_meta_size st.file)
]
