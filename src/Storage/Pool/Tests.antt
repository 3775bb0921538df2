-- ===== src/Storage/Pool/Tests.antt =====
-- The theorems on the container pool, at a container with one chunk.
use destor_lt.Prelude.{◌≡◌, refl, some, [], arith, lookup, HashOrder}
use destor_lt.Chunk.{simulation_no}
use destor_lt.Storage.Memory.{zeros}
use destor_lt.Storage.Container.{MetaEntry, Container, get_chunk_in_container}
use destor_lt.Storage.Container.Tests.{one_chunk, one_chunk-IsValid}
use destor_lt.Storage.Pool.{Store, write_container, retrieve_container_by_id}
use destor_lt.Storage.Pool.RoundTrip.{retrieve-write, retrieve-write_other}

-- A table walked in the order of its list.
abbrev in_order : HashOrder MetaEntry
in_order = record {
  iterate = λ m. m;
  length-iterate = λ m. refl;
  lookup-iterate = λ k m d. refl;
  iterate-Distinct = λ m d. d;
}

abbrev blank : Store
blank = record { file = zeros; container_count = 6; container_buffer = [] }

one_written :
    (st' : Store) × (c' : Container) × (write_container in_order simulation_no one_chunk blank
      ≡ some st')
    × (retrieve_container_by_id simulation_no 5 st' ≡ some c')
    × (c'.meta.chunk_num ≡ 1)
    × (c'.meta.data_size ≡ 3)
    × (lookup 77 c'.meta.map ≡ lookup 77 one_chunk.meta.map)
    × (get_chunk_in_container simulation_no 999 c' 77
        ≡ get_chunk_in_container simulation_no 999 one_chunk 77)
one_written =
    retrieve-write in_order simulation_no 999 5 77 one_chunk blank one_chunk-IsValid refl
      (omega arith) (omega arith)

retrieve-write_example :
    (st' : Store) × (c' : Container) × (write_container in_order simulation_no one_chunk blank
      ≡ some st')
    × (retrieve_container_by_id simulation_no 5 st' ≡ some c')
    × (c'.meta.chunk_num ≡ 1)
    × (c'.meta.data_size ≡ 3)
    × (lookup 77 c'.meta.map ≡ lookup 77 one_chunk.meta.map)
    × (get_chunk_in_container simulation_no 999 c' 77
        ≡ get_chunk_in_container simulation_no 999 one_chunk 77)
retrieve-write_example =
    retrieve-write in_order simulation_no 999 5 77 one_chunk blank one_chunk-IsValid refl
      (omega arith) (omega arith)

retrieve-write_other_example :
    retrieve_container_by_id simulation_no 4 one_written.0
    ≡ retrieve_container_by_id simulation_no 4 blank
retrieve-write_other_example =
    retrieve-write_other in_order simulation_no 4 5 one_chunk blank refl (omega arith) one_written.2
