-- ===== src/Storage/Container/Tests.antt =====
-- A container with one chunk, and the theorems on containers at it.
use destor_lt.Prelude.{
  ◌≡◌, refl, true, false, none, some, [], ◌∷◌, arith, lookup, insert, if◌then◌else◌, ◌==◌,
}
use destor_lt.Chunk.{Chunk, no_flags, simulation_no}
use destor_lt.Storage.Memory.{load, store, zeros}
use destor_lt.Storage.Container.{
  Container, create_container, container_overflow, add_chunk_to_container, get_chunk_in_container,
  lookup_fingerprint_in_container, new_entry,
}
use destor_lt.Storage.Container.Valid.{IsValid, create_container-IsValid, add_chunk-IsValid}
use destor_lt.Storage.Container.Content.{get_chunk-add_chunk}

abbrev pub empty : Container
empty = record {
  meta = record { id = some 5; data_size = 0; chunk_num = 0; map = [] };
  contents = zeros;
}

created : create_container 5 ≡ (empty, 6)
unfolding create_container
created = refl

empty-IsValid : IsValid empty
unfolding create_container
empty-IsValid = create_container-IsValid 5

-- The chunk of three bytes that the tests store.
abbrev pub three : Chunk
three = record { size = 3; flag = no_flags; id = none; fp = 77; bytes = 10 ∷ 20 ∷ 30 ∷ [] }

abbrev pub one_chunk : Container
one_chunk = record {
  meta = record {
    id = some 5;
    data_size = 3;
    chunk_num = 1;
    map = (77, new_entry empty three) ∷ [];
  };
  contents = store 0 three.bytes empty.contents;
}

pub add_three :
    add_chunk_to_container simulation_no empty three
    ≡ some (one_chunk, record three { id = some 5 }, true)
unfolding add_chunk_to_container container_overflow lookup insert
add_three = refl

read_three :
    get_chunk_in_container simulation_no 999 one_chunk 77
    ≡ some (record three { id = some 5; fp = 999 })
unfolding get_chunk_in_container lookup load store
read_three = refl

found_three :
    (lookup_fingerprint_in_container one_chunk 77 ≡ true)
    × (lookup_fingerprint_in_container one_chunk 78 ≡ false)
unfolding lookup_fingerprint_in_container lookup
found_three = (refl, refl)

pub one_chunk-IsValid : IsValid one_chunk
one_chunk-IsValid =
    add_chunk-IsValid simulation_no empty three (omega arith) empty-IsValid add_three

add_chunk-IsValid_example : IsValid one_chunk
add_chunk-IsValid_example =
    add_chunk-IsValid simulation_no empty three (omega arith) empty-IsValid add_three

get_chunk-add_chunk_example :
    (c' : Container) × (add_chunk_to_container simulation_no empty three
      ≡ some (c', record three { id = some 5 }, true))
    × (get_chunk_in_container simulation_no 999 c' 77 ≡ (
        if 77 == 77
        then some (record three { flag = no_flags; id = some 5; fp = 999 })
        else get_chunk_in_container simulation_no 999 empty 77))
unfolding container_overflow lookup
get_chunk-add_chunk_example =
    get_chunk-add_chunk simulation_no 999 77 empty three empty-IsValid refl (omega arith) refl refl
