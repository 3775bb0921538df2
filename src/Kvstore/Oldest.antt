-- ===== src/Kvstore/Oldest.antt =====
-- Deleting the oldest id of a key of index/kvstore_htable.c.
use destor_lt.Prelude.{
  ℕ, zero, suc, ◌≡◌, ◌≢◌, refl, Option, none, some, List, [], ◌∷◌, ◌++◌, map, arith, replicate,
  insert, remove, lookup-insert, lookup-remove, Distinct, All, ◌==◌, if◌then◌else◌, ==-refl, false,
}
use destor_lt.Chunk.{ContainerId}
use destor_lt.Kvstore.{Value, Htable, is_end, drop_id, kvstore_htable_lookup, kvstore_htable_delete}

-- Ids, and TEMPORARY_ID in the places behind them.
abbrev pub value_with : List ℕ → ℕ → Value
value_with ids free = map some ids ++ replicate free none

drop_oldest :
    (id free : ℕ) (ids : List ℕ)
    → All (λ i. i ≢ id) ids
    → drop_id (some id) (value_with (ids ++ id ∷ []) free) ≡ some (value_with ids (suc free))
unfolding drop_id
drop_oldest id zero [] new = rw (==-refl id) refl
drop_oldest id (suc free) [] new = rw (==-refl id) refl
drop_oldest id free (i ∷ ids) new =
    let rest = drop_oldest id free ids new.1 in
    let other : (i == id) ≡ false = ground (arith, new.0) in rw (rest, other, drop_id) refl

delete_found :
    (key : ℕ) (id : ContainerId) (value value' : Value) (htable : Htable)
    → kvstore_htable_lookup key htable ≡ some value
    → drop_id id value ≡ some value'
    → kvstore_htable_delete key id htable
      ≡ some (if is_end value' then remove key htable else insert key value' htable)
unfolding kvstore_htable_delete kvstore_htable_lookup
delete_found key id value value' htable e dropped = ground (arith, e, dropped)

abbrev pub left : List ℕ → ℕ → Option Value
left [] free = none
left (i ∷ ids) free = some (value_with (i ∷ ids) (suc free))

-- When the ids of a key end with `id`, which is not among the others, deleting it fails no assertion
-- and leaves the others; a key with no other id is removed. No other key changes.
pub delete-oldest :
    (key id free k : ℕ) (ids : List ℕ) (htable : Htable)
    → Distinct htable
    → kvstore_htable_lookup key htable ≡ some (value_with (ids ++ id ∷ []) free)
    → All (λ i. i ≢ id) ids
    → (htable' : Htable) × (kvstore_htable_delete key (some id) htable ≡ some htable')
      × (kvstore_htable_lookup k htable'
          ≡ (if key == k then left ids free else kvstore_htable_lookup k htable))
unfolding kvstore_htable_lookup
delete-oldest key id free k [] htable d e new =
    let dropped = drop_oldest id free [] new in
    (
      remove key htable,
      delete_found key (some id) _ _ htable e dropped,
      lookup-remove key k htable d,
    )
delete-oldest key id free k (i ∷ ids) htable d e new =
    let dropped = drop_oldest id free (i ∷ ids) new in
    (
      insert key (value_with (i ∷ ids) (suc free)) htable,
      delete_found key (some id) _ _ htable e dropped,
      lookup-insert key k (value_with (i ∷ ids) (suc free)) htable,
    )
