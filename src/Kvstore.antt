-- ===== src/Kvstore.antt =====
-- The hash table of the index: destor-master/src/index/kvstore_htable.c.
pub mod Latest
pub mod Oldest
pub mod Dump
mod Tests
use destor_lt.Prelude.{
  ℕ, zero, suc, ◌+◌, ◌-◌, Bool, true, false, Option, none, some, List, [], ◌∷◌, ◌++◌, ltb, leb,
  ◌==◌, if◌then◌else◌, length, take, replicate, lookup, insert, remove, HashOrder,
}
use destor_lt.Chunk.{ContainerId, temporary_id, eq_id}
use destor_lt.Storage.Serial.{serial_int, unserial_int, host_bytes, unser_bytes}

-- `index_key_size` and `index_value_length`.
pub record Config : Type 0 where
  pub index_key_size : ℕ
  pub index_value_length : ℕ

-- The ids of a key, the latest first and TEMPORARY_ID where there is none. A key is the number that
-- its bytes make, the first highest.
abbrev pub Value : Type 0
Value = List ContainerId

abbrev pub Htable : Type 0
Htable = List (ℕ × Value)

unfoldable pub new_kvpair : Config → Value
new_kvpair cfg = replicate cfg.index_value_length temporary_id

-- `memmove` by one place over all but the last id. A value holds at least one id.
unfoldable pub kv_update : Config → Value → ContainerId → Value
kv_update cfg value id = id ∷ take (cfg.index_value_length - 1) value

unfoldable pub kvstore_htable_lookup : ℕ → Htable → Option Value
kvstore_htable_lookup key htable = lookup key htable

unfoldable pub kvstore_htable_update : Config → ℕ → ContainerId → Htable → Htable
kvstore_htable_update cfg key id htable =
    insert key
      (kv_update cfg (elim (lookup key htable) [ none ↦ new_kvpair cfg | some value ↦ value ]) id)
      htable

abbrev pub is_end : Value → Bool
is_end [] = true
is_end (v ∷ vs) = eq_id v temporary_id

-- The loop over the ids. `none` is the failed assertion that the deleted id is the last; where it
-- holds there is nothing to move.
unfoldable pub drop_id : ContainerId → Value → Option Value
drop_id id [] = some []
drop_id id (v ∷ vs) =
    let rest = drop_id id vs in
    if eq_id v id
    then (if is_end vs then some (temporary_id ∷ vs) else none)
    else elim rest [ none ↦ none | some vs' ↦ some (v ∷ vs') ]

-- `none` is a failed assertion.
unfoldable pub kvstore_htable_delete : ℕ → ContainerId → Htable → Option Htable
kvstore_htable_delete key id htable = elim (lookup key htable) [
  | none ↦ some htable
  | some value ↦ elim (drop_id id value) [
    | none ↦ none
    | some value' ↦ some (if is_end value' then remove key htable else insert key value' htable)
  ]
]

-- The eight bytes of an id; TEMPORARY_ID is -1.
abbrev pub id_bits : ContainerId → ℕ
id_bits none = 18_446_744_073_709_551_615
id_bits (some id) = id

abbrev pub bits_id : ℕ → ContainerId
bits_id bits = if bits == 18_446_744_073_709_551_615 then none else some bits

unfoldable pub value_bytes : Value → List ℕ
value_bytes [] = []
value_bytes (v ∷ vs) = host_bytes 8 (id_bits v) ++ value_bytes vs

unfoldable pub pairs_bytes : Config → Htable → List ℕ
pairs_bytes cfg [] = []
pairs_bytes cfg ((key, value) ∷ pairs) =
    serial_int cfg.index_key_size key
    ++ (host_bytes 4 cfg.index_value_length ++ (value_bytes value ++ pairs_bytes cfg pairs))

-- The bytes of the file index/htable.
unfoldable pub close_kvstore_htable : HashOrder Value → Config → Htable → List ℕ
close_kvstore_htable order cfg htable =
    host_bytes 4 (length htable) ++ pairs_bytes cfg (order.iterate htable)

-- The loop over `id_num` ids, which replace the first of `value`.
unfoldable pub read_ids : ℕ → List ℕ → Value → Value × List ℕ
read_ids zero input value = (value, input)
read_ids (suc n) input [] = ([], input)
read_ids (suc n) input (v ∷ value) =
    let (bits, input') = unser_bytes 8 input in
    let (vs, rest) = read_ids n input' value in (bits_id bits ∷ vs, rest)

-- The loops of an int run as often as it says, and not at all below 0.
abbrev pub int_rounds : ℕ → ℕ
int_rounds bits = if ltb bits 2_147_483_648 then bits else 0

-- `id_num <= index_value_length` of ints, of which a negative one is below every length.
abbrev pub int_fits : ℕ → ℕ → Bool
int_fits bits bound = if ltb bits 2_147_483_648 then leb bits bound else true

-- The loop over `key_num` keys; `none` is the failed assertion that the ids fit.
unfoldable pub read_pairs : Config → ℕ → List ℕ → Htable → Option Htable
read_pairs cfg zero input htable = some htable
read_pairs cfg (suc n) input htable =
    let (key, input₁) = unserial_int cfg.index_key_size input in
    let (id_num, input₂) = unser_bytes 4 input₁ in
    let (value, input₃) = read_ids (int_rounds id_num) input₂ (new_kvpair cfg) in
    let rest = read_pairs cfg n input₃ (insert key value htable) in
    if int_fits id_num cfg.index_value_length then rest else none

-- From the dump file, or `none` where there is none. The tables of the garbage collection that the
-- code starts here are apart from the hash table.
unfoldable pub init_kvstore_htable : Config → Option (List ℕ) → Option Htable
init_kvstore_htable cfg none = some []
init_kvstore_htable cfg (some file) =
    let (key_num, input) = unser_bytes 4 file in read_pairs cfg (int_rounds key_num) input []
