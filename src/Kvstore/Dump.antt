-- ===== src/Kvstore/Dump.antt =====
-- The dump of the hash table of index/kvstore_htable.c, and its reading.
use destor_lt.Prelude.{
  ℕ, suc, ◌^◌, ◌<◌, ◌≡◌, refl, sym, ◌∙◌, none, some, List, [], ◌∷◌, ◌++◌, arith, length, replicate,
  length-replicate, lookup, insert, Distinct, All, leb, ltb, append_assoc, HashOrder, insert_all,
  lookup-insert_all, true,
}
use destor_lt.Chunk.{ContainerId, temporary_id}
use destor_lt.Storage.Serial.{
  serial_int, host_bytes, unserial_int-serial_int, unser_bytes-host_bytes,
}
use destor_lt.Kvstore.{
  Config, Value, Htable, new_kvpair, id_bits, bits_id, value_bytes, pairs_bytes,
  close_kvstore_htable, read_ids, read_pairs, init_kvstore_htable, kvstore_htable_lookup,
}

-- An id that is not read as another: below 2 ^ 64 - 1.
abbrev pub IsSmall : ContainerId → Type 0
IsSmall none = Unit
IsSmall (some id) = id < 18_446_744_073_709_551_615

bits_id-id_bits : (v : ContainerId) → IsSmall v → bits_id (id_bits v) ≡ v
bits_id-id_bits none small = refl
bits_id-id_bits (some id) small = ground arith

id_bits_small : (v : ContainerId) → IsSmall v → id_bits v < 256 ^ 8
id_bits_small none small = omega arith
id_bits_small (some id) small = omega arith

read_ids-value_bytes :
    (value old : Value) (rest : List ℕ)
    → All IsSmall value
    → length old ≡ length value
    → read_ids (length value) (value_bytes value ++ rest) old ≡ (value, rest)
unfolding value_bytes read_ids
read_ids-value_bytes [] [] rest small same = refl
read_ids-value_bytes [] (o ∷ old) rest small same = absurd (omega arith)
read_ids-value_bytes (v ∷ value) [] rest small same = absurd (omega arith)
read_ids-value_bytes (v ∷ value) (o ∷ old) rest small same =
    let first =
      unser_bytes-host_bytes 8 (id_bits v) (value_bytes value ++ rest) (id_bits_small v small.0) in
    let others = read_ids-value_bytes value old rest small.1 (omega arith) in
    rw
      (
        append_assoc (host_bytes 8 (id_bits v)) (value_bytes value) rest,
        first,
        others,
        bits_id-id_bits v small.0,
      )
      refl

-- What fits into the fields of a dumped pair.
abbrev pub IsStorable : Config → ℕ × Value → Type 0
IsStorable cfg (key, value) =
    (key < 256 ^ cfg.index_key_size) × (length value ≡ cfg.index_value_length) × All IsSmall value

module _ (cfg : Config) (narrow : cfg.index_value_length < 2_147_483_648) where
  read-pair :
      (key n : ℕ) (value : Value) (rest : List ℕ) (htable : Htable)
      → IsStorable cfg (key, value)
      → read_pairs cfg
          (suc n)
          (serial_int cfg.index_key_size key
            ++ (host_bytes 4 cfg.index_value_length ++ (value_bytes value ++ rest)))
          htable
        ≡ read_pairs cfg n rest (insert key value htable)
  unfolding read_pairs new_kvpair
  read-pair key n value rest htable (small, full, ids) =
      let len : length (replicate cfg.index_value_length temporary_id) ≡ length value =
        length-replicate cfg.index_value_length temporary_id ∙ sym full in
      let all_read =
        read_ids-value_bytes value (replicate cfg.index_value_length temporary_id) rest ids len in
      let read : read_ids cfg.index_value_length (value_bytes value ++ rest)
            (replicate cfg.index_value_length temporary_id)
          ≡ (value, rest) =
        rw full at all_read in
      let fits : leb cfg.index_value_length cfg.index_value_length ≡ true = ground arith in
      let int : ltb cfg.index_value_length 2_147_483_648 ≡ true = ground arith in
      rw
        (
          unserial_int-serial_int cfg.index_key_size key
              (host_bytes 4 cfg.index_value_length ++ (value_bytes value ++ rest)) small,
          unser_bytes-host_bytes 4 cfg.index_value_length (value_bytes value ++ rest) (omega arith),
          int,
          read,
          fits,
        )
        refl

  read_pairs-pairs_bytes :
      (pairs htable : Htable)
      → All (IsStorable cfg) pairs
      → read_pairs cfg (length pairs) (pairs_bytes cfg pairs) htable
        ≡ some (insert_all pairs htable)
  unfolding pairs_bytes insert_all
  read_pairs-pairs_bytes [] htable s = unfold read_pairs in refl
  read_pairs-pairs_bytes ((key, value) ∷ pairs) htable s =
      read-pair key (length pairs) value (pairs_bytes cfg pairs) htable s.0
      ∙ read_pairs-pairs_bytes pairs (insert key value htable) s.1

  same_key :
      (order : HashOrder Value) (htable : Htable) (key : ℕ)
      → Distinct htable
      → lookup key (insert_all (order.iterate htable) []) ≡ lookup key htable
  unfolding lookup
  same_key order htable key d = ground (
    arith,
    lookup-insert_all key (order.iterate htable) [] (order.iterate-Distinct htable d),
    order.lookup-iterate key htable d,
  )

  -- With fewer than 2 ^ 31 ids in a value, a table whose keys are distinct, whose keys and ids fit their
  -- fields and whose values are full length, and which has fewer than 2 ^ 31 keys, is read back
  -- from its dump: every key refers to the same ids, and no assertion fails.
  pub init-close :
      (order : HashOrder Value) (htable : Htable) (key : ℕ)
      → Distinct htable
      → length htable < 2_147_483_648
      → All (IsStorable cfg) (order.iterate htable)
      → (htable' : Htable) × (init_kvstore_htable cfg (some (close_kvstore_htable order cfg htable))
          ≡ some htable')
        × (kvstore_htable_lookup key htable' ≡ kvstore_htable_lookup key htable)
  unfolding init_kvstore_htable close_kvstore_htable kvstore_htable_lookup
  init-close order htable key d few s =
      let int : ltb (length htable) 2_147_483_648 ≡ true = ground arith in
      (
        insert_all (order.iterate htable) [],
        rw
            (
              unser_bytes-host_bytes 4 (length htable) (pairs_bytes cfg (order.iterate htable))
                  (omega (arith, few)),
              int,
              ← order.length-iterate htable,
            )
            (read_pairs-pairs_bytes (order.iterate htable) [] s),
        same_key order htable key d,
      )
