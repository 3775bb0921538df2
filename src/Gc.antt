-- ===== src/Gc.antt =====
-- The chunks of old containers that a backup refers to: `id_shift`, `id_shift_hash` and `index_bit` of
-- destor-master/src/gc/gc_rtm.c, and how destor-master/src/index/index.c marks a chunk in them.
pub mod Bits
pub mod Shifts
pub mod Marked
pub mod References
pub mod Next
pub mod Attribute
mod Tests
use destor_lt.Prelude.{
  ℕ, zero, suc, ◌+◌, ◌-◌, ◌/◌, ◌%◌, Bool, true, false, ◌&&◌, Option, none, some, List, [], ◌∷◌,
  ◌++◌, ltb, leb, ◌==◌, if◌then◌else◌, lookup,
}
use destor_lt.Storage.Container.{ContainerMeta, MetaEntry}

-- `chunk_num` is `none` where a node's field was not set.
pub record IdShift : Type 0 where
  pub container_id : ℕ
  pub chunk_shift : ℕ
  pub chunk_num : Option ℕ

-- A word of `index_bit` is its bits, the lowest first.
abbrev pub Words : Type 0
Words = ℕ → ℕ → Bool

pub record Marks : Type 0 where
  pub ishead : List IdShift
  pub id_shift_hash : List ℕ
  pub globle_shift : ℕ
  pub index_bit : Words

unfoldable pub init_id_shift : Marks
init_id_shift = record {
  ishead = [];
  id_shift_hash = [];
  globle_shift = 1;
  index_bit = λ w b. false;
}

-- The node that is added has its id and its shift copied, and not its `chunk_num`.
unfoldable pub id_shift_add_end : IdShift → List IdShift → List IdShift
id_shift_add_end shift [] = record shift { chunk_num = none } ∷ []
id_shift_add_end shift (s ∷ list) = s ∷ id_shift_add_end shift list

unfoldable pub get_shift_by_id : ℕ → List IdShift → ℕ
get_shift_by_id id [] = 0
get_shift_by_id id (s ∷ list) =
    if s.container_id == id then s.chunk_shift else get_shift_by_id id list

-- `none` is the dereference of the NULL of an empty list, or the read of a field that was not set.
unfoldable pub get_next_shift_by_id : ℕ → List IdShift → Option ℕ
get_next_shift_by_id id [] = none
get_next_shift_by_id id (s ∷ []) = elim s.chunk_num [
  | none ↦ none
  | some n ↦ some (s.chunk_shift + n)
]
get_next_shift_by_id id (s ∷ t ∷ list) =
    if s.container_id == id then some t.chunk_shift else get_next_shift_by_id id (t ∷ list)

-- `index_bit_size`: the words of `index_bit`.
abbrev pub index_bit_size : ℕ
index_bit_size = 67_108_864

-- An int32_t that grows past its range has no defined value.
abbrev pub int32_bound : ℕ
int32_bound = 2_147_483_648

-- `index_loc` and `bit_loc`; `none` is an access outside `index_bit`, or a number that is no int32_t.
unfoldable pub locate : ℕ → Option (ℕ × ℕ)
locate n =
    if leb int32_bound n
    then none
    else if n % 32 == 0
    then (if n / 32 == 0
        then none
        else if ltb (n / 32 - 1) index_bit_size
        then some (n / 32 - 1, 31)
        else none)
    else if ltb (n / 32) index_bit_size
    then some (n / 32, n % 32 - 1)
    else none

abbrev pub put_bit : ℕ → ℕ → Words → Words
put_bit index_loc bit_loc words =
    λ w b. if (w == index_loc) && (b == bit_loc) then true else words w b

unfoldable pub set_index_bit : ℕ → Words → Option Words
set_index_bit n words = elim (locate n) [
  | none ↦ none
  | some (index_loc, bit_loc) ↦ some (put_bit index_loc bit_loc words)
]

unfoldable pub get_index_bit : ℕ → Words → Option Bool
get_index_bit n words = elim (locate n) [
  | none ↦ none
  | some (index_loc, bit_loc) ↦ some (words index_loc bit_loc)
]

-- The loops over the bits from `i` on that have the value, at most `n` of them; `none` is an access
-- outside `index_bit`.
unfoldable pub skip_bits : Bool → ℕ → ℕ → Words → Option ℕ
skip_bits value zero i words = some i
skip_bits value (suc n) i words = elim (get_index_bit i words) [
  | none ↦ none
  | some true ↦ if value then skip_bits value n (i + 1) words else some i
  | some false ↦ if value then some i else skip_bits value n (i + 1) words
]

-- 2 where the loop found every bit set, 0 where it found none set, and 1 otherwise.
unfoldable pub check_index_bit_equal_one : ℕ → ℕ → Words → Option ℕ
check_index_bit_equal_one start end words = elim (skip_bits true (end - start) start words) [
  | none ↦ none
  | some i ↦
      if i == end
      then some 2
      else if i == start
      then (elim (skip_bits false (end - (start + 1)) (start + 1) words) [
        | none ↦ none
        | some j ↦ if j == end then some 0 else some 1
      ])
      else if start + 1 == end
      then some 0
      else some 1
]

-- The attribute of a container, whose assertion holds where it is made. The containers that are asked
-- for begin at bit 1 or later, so that the end of their bits is not 0.
unfoldable pub get_attribute : ℕ → Marks → Option ℕ
get_attribute id m = elim (get_next_shift_by_id id m.ishead) [
  | none ↦ none
  | some next ↦ check_index_bit_equal_one (get_shift_by_id id m.ishead) (next - 1) m.index_bit
]

unfoldable pub contains : ℕ → List ℕ → Bool
contains id [] = false
contains id (i ∷ ids) = if i == id then true else contains id ids

-- A container that is referred to for the first time gets the shifts behind those of the others.
unfoldable pub add_container : ℕ → ContainerMeta → Marks → Option Marks
add_container id cm m =
    if contains id m.id_shift_hash
    then some m
    else if ltb (m.globle_shift + cm.chunk_num) int32_bound
    then some (record m {
      id_shift_hash = id ∷ m.id_shift_hash;
      ishead =
          id_shift_add_end
            (record {
              container_id = id;
              chunk_shift = m.globle_shift;
              chunk_num = some cm.chunk_num;
            })
            m.ishead;
      globle_shift = m.globle_shift + cm.chunk_num;
    })
    else none

-- `none` is the dereference of the NULL of a fingerprint that is not in the container, the read of a
-- position that was not set, or an access outside `index_bit`.
unfoldable pub mark_position : ℕ → ℕ → ContainerMeta → Marks → Option Marks
mark_position id fp cm m = elim (lookup fp cm.map) [
  | none ↦ none
  | some me ↦ elim me.position [
    | none ↦ none
    | some position ↦ elim (set_index_bit (position + get_shift_by_id id m.ishead) m.index_bit) [
      | none ↦ none
      | some words ↦ some (record m { index_bit = words })
    ]
  ]
]

-- What the lookup does with a chunk that it finds in a container from before this backup.
unfoldable pub mark_reference : ℕ → ℕ → ContainerMeta → Marks → Option Marks
mark_reference id fp cm m = elim (add_container id cm m) [
  | none ↦ none
  | some m' ↦ mark_position id fp cm m'
]
