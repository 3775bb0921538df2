-- ===== src/Storage/Container.antt =====
-- A container in memory: destor-master/src/storage/containerstore.c and containerstore.h.
pub mod Valid
pub mod Content
pub mod Tests
use destor_lt.Prelude.{
  ℕ, ◌+◌, ◌-◌, ◌*◌, Bool, true, false, Option, none, some, List, [], ◌∷◌, ltb, leb, ◌==◌, length,
  if◌then◌else◌, lookup, insert,
}
use destor_lt.Chunk.{
  Chunk, new_chunk, container_size, container_meta_size, simulation_restore, simulation_append,
}
use destor_lt.Storage.Memory.{Memory, zeros, store, load}

-- `position` is set only where a container's metadata is read back.
pub record MetaEntry : Type 0 where
  pub off : ℕ
  pub len : ℕ
  pub position : Option ℕ

-- `map` maps fingerprints to entries.
pub record ContainerMeta : Type 0 where
  pub id : Option ℕ
  pub data_size : ℕ
  pub chunk_num : ℕ
  pub map : List (ℕ × MetaEntry)

-- `contents` is the buffer `data`.
pub record Container : Type 0 where
  pub meta : ContainerMeta
  pub contents : Memory

-- TEMPORARY_ID, until `create_container` or a read gives the id.
unfoldable pub init_container_meta : ContainerMeta
init_container_meta = record { id = none; data_size = 0; chunk_num = 0; map = [] }

-- The new container, and `container_count` after it.
unfoldable pub create_container : ℕ → Container × ℕ
unfolding init_container_meta
create_container container_count = (
  record { meta = record init_container_meta { id = some container_count }; contents = zeros },
  container_count + 1,
)

unfoldable pub container_empty : Container → Bool
container_empty c = c.meta.chunk_num == 0

unfoldable pub lookup_fingerprint_in_container_meta : ContainerMeta → ℕ → Bool
lookup_fingerprint_in_container_meta cm fp = elim (lookup fp cm.map) [
  | none ↦ false
  | some _ ↦ true
]

unfoldable pub lookup_fingerprint_in_container : Container → ℕ → Bool
unfolding lookup_fingerprint_in_container_meta
lookup_fingerprint_in_container c fp = lookup_fingerprint_in_container_meta c.meta fp

-- The 28 bytes of an entry and the 16 of the header must fit into the metadata area.
unfoldable pub container_overflow : Container → ℕ → Bool
container_overflow c size =
    if ltb (container_size - container_meta_size) (c.meta.data_size + size)
    then true
    else ltb container_meta_size ((c.meta.chunk_num + 1) * 28 + 16)

abbrev pub new_entry : Container → Chunk → MetaEntry
new_entry c ck = record { off = c.meta.data_size; len = ck.size; position = none }

-- What `add_chunk_to_container` gives: the container, the chunk with its `id` set, and the code's
-- result (`false` for 0). `none` is the failed assertion of an overflow.
unfoldable pub add_chunk_to_container : ℕ → Container → Chunk → Option (Container × Chunk × Bool)
add_chunk_to_container simulation_level c ck =
    if container_overflow c ck.size then none else elim (lookup ck.fp c.meta.map) [
      | some _ ↦ some (c, record ck { id = c.meta.id }, false)
      | none ↦ some (
        record {
          meta = record c.meta {
            map = insert ck.fp (new_entry c ck) c.meta.map;
            chunk_num = c.meta.chunk_num + 1;
            data_size = c.meta.data_size + ck.size;
          };
          contents =
              if ltb simulation_level simulation_append
              then store c.meta.data_size ck.bytes c.contents
              else c.contents;
        },
        record ck { id = c.meta.id },
        true,
      )
    ]

-- `memcpy(&ck->fp, &fp, …)` copies from the address of the pointer `fp`, so the result's fingerprint
-- is not the one asked for: it is `stray`, the 20 bytes that stand in memory at that pointer.
-- `none` is the failed assertion of a fingerprint that is not there.
unfoldable pub get_chunk_in_container : ℕ → ℕ → Container → ℕ → Option Chunk
unfolding new_chunk
get_chunk_in_container simulation_level stray c fp = elim (lookup fp c.meta.map) [
  | none ↦ none
  | some me ↦ some (record (new_chunk me.len) {
    bytes = if ltb simulation_level simulation_restore then load me.off me.len c.contents else [];
    size = me.len;
    id = c.meta.id;
    fp = stray;
  })
]
