-- ===== src/Kvstore/Tests.antt =====
-- The hash table of index/kvstore_htable.c at concrete keys and ids.
use destor_lt.Prelude.{
  ℕ, ◌≡◌, refl, none, some, List, [], ◌∷◌, arith, lookup, insert, remove, insert_all, HashOrder,
  Distinct, ◌==◌, if◌then◌else◌,
}
use destor_lt.Storage.Serial.{serial_int, unserial_int, host_bytes, host_value, unser_bytes}
use destor_lt.Kvstore.{
  Config, Value, Htable, new_kvpair, kv_update, kvstore_htable_lookup, kvstore_htable_update,
  drop_id, kvstore_htable_delete, value_bytes, pairs_bytes, close_kvstore_htable, read_ids,
  read_pairs, init_kvstore_htable,
}
use destor_lt.Kvstore.Latest.{update_all, ids_of, update_all-latest, value_of}
use destor_lt.Kvstore.Oldest.{delete-oldest, left, value_with}
use destor_lt.Kvstore.Dump.{init-close}

program : Unit {0}
unfolding lookup insert remove insert_all serial_int unserial_int host_bytes host_value unser_bytes
    new_kvpair kv_update kvstore_htable_lookup kvstore_htable_update drop_id kvstore_htable_delete
    value_bytes pairs_bytes close_kvstore_htable read_ids read_pairs init_kvstore_htable update_all
    ids_of
program = tt

abbrev cfg : Config
cfg = record { index_key_size = 2; index_value_length = 2 }

abbrev in_order : HashOrder Value
in_order = record {
  iterate = λ m. m;
  length-iterate = λ m. refl;
  lookup-iterate = λ k m d. refl;
  iterate-Distinct = λ m d. d;
}

abbrev updates : List (ℕ × ℕ)
updates = (7, 1) ∷ (7, 2) ∷ (9, 2) ∷ (7, 3) ∷ []

abbrev table : Htable
table = (7, some 3 ∷ some 2 ∷ []) ∷ (9, some 2 ∷ none ∷ []) ∷ []

keeps_two : update_all cfg updates [] ≡ table
unfolding program
keeps_two = refl

deletes_oldest :
    kvstore_htable_delete 7 (some 2) table
    ≡ some ((7, some 3 ∷ none ∷ []) ∷ (9, some 2 ∷ none ∷ []) ∷ [])
unfolding program
deletes_oldest = refl

-- Out of order, the assertion fails.
deletes_newest : kvstore_htable_delete 7 (some 3) table ≡ none
unfolding program
deletes_newest = refl

reads_dump : init_kvstore_htable cfg (some (close_kvstore_htable in_order cfg table)) ≡ some table
unfolding program
reads_dump = refl

table-Distinct : Distinct table
unfolding program
table-Distinct = (refl, (refl, tt))

finds_seven : kvstore_htable_lookup 7 table ≡ some (value_with (3 ∷ 2 ∷ []) 0)
unfolding program
finds_seven = refl

update_all-latest_example :
    kvstore_htable_lookup 7 (update_all cfg updates []) ≡ value_of 2 (ids_of 7 updates [])
update_all-latest_example = update_all-latest cfg 7 updates (omega arith)

delete-oldest_example :
    (htable' : Htable) × (kvstore_htable_delete 7 (some 2) table ≡ some htable')
    × (kvstore_htable_lookup 7 htable'
        ≡ (if 7 == 7 then left (3 ∷ []) 0 else kvstore_htable_lookup 7 table))
delete-oldest_example =
    delete-oldest 7 2 0 7 (3 ∷ []) table table-Distinct finds_seven (ground arith, tt)

init-close_example :
    (htable' : Htable) × (init_kvstore_htable cfg (some (close_kvstore_htable in_order cfg table))
      ≡ some htable')
    × (kvstore_htable_lookup 9 htable' ≡ kvstore_htable_lookup 9 table)
init-close_example = init-close cfg (omega arith) in_order table 9 table-Distinct (omega arith) (
  (omega arith, refl, (omega arith, (omega arith, tt))),
  ((omega arith, refl, (omega arith, (tt, tt))), tt),
)
