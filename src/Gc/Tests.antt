-- ===== src/Gc/Tests.antt =====
-- Runs of the marks of the garbage collection.
use destor_lt.Prelude.{
  ℕ, suc, ◌<◌, ◌≡◌, refl, arith, true, false, none, some, [], ◌∷◌, ◌==◌, if◌then◌else◌, lookup,
}
use destor_lt.Storage.Container.{ContainerMeta, MetaEntry}
use destor_lt.Gc.{
  IdShift, Words, Marks, init_id_shift, get_index_bit, set_index_bit, int32_bound, get_attribute,
  mark_reference,
}
use destor_lt.Gc.Bits.{get-set_index_bit}
use destor_lt.Gc.References.{mark_reference-Referred}
use destor_lt.Gc.Marked.{Referred, init_id_shift-IsMarks}
use destor_lt.Gc.Shifts.{known}
use destor_lt.Gc.Attribute.{get_attribute-single}

abbrev no_bits : Words
no_bits w b = false

get-set_index_bit_example :
    (words' : Words) × (set_index_bit 32 no_bits ≡ some words')
    × ((m : ℕ)
        → suc m < int32_bound
        → get_index_bit (suc m) words'
          ≡ (if 31 == m then some true else get_index_bit (suc m) no_bits))
get-set_index_bit_example = get-set_index_bit 31 no_bits (omega arith)

-- The chunk at a place of container 3, which has two.
abbrev sizes : ℕ → ℕ
sizes id = if id == 3 then 2 else 1

abbrev second : MetaEntry
second = record { off = 10; len = 5; position = some 1 }

abbrev three : ContainerMeta
three = record {
  id = some 3;
  data_size = 15;
  chunk_num = 2;
  map = (7, record { off = 0; len = 10; position = some 0 }) ∷ (8, second) ∷ [];
}

mark_reference-Referred_example :
    (m' : Marks) × (mark_reference 3 8 three init_id_shift ≡ some m')
    × Referred sizes 3 1 init_id_shift m'
unfolding lookup init_id_shift
mark_reference-Referred_example =
    mark_reference-Referred sizes 3 8 1 three second init_id_shift (init_id_shift-IsMarks sizes)
      refl (omega arith) refl refl (omega arith)

abbrev shift : ℕ → ℕ → IdShift
shift id at = record { container_id = id; chunk_shift = at; chunk_num = none }

abbrev two_marks : Marks
two_marks = record {
  ishead = shift 4 1 ∷ shift 5 2 ∷ [];
  id_shift_hash = 5 ∷ 4 ∷ [];
  globle_shift = 9;
  index_bit = no_bits;
}

get_attribute-single_example : get_attribute 4 two_marks ≡ some 2
unfolding known
get_attribute-single_example =
    get_attribute-single two_marks [] (shift 4 1) (shift 5 2) [] refl refl refl
