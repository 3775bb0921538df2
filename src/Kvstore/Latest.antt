-- ===== src/Kvstore/Latest.antt =====
-- What a key of index/kvstore_htable.c refers to after a history of updates.
use destor_lt.Prelude.{
  ℕ, zero, suc, ◌-◌, ◌<◌, ◌≡◌, refl, sym, ap, ◌∙◌, Option, none, some, List, [], ◌∷◌, ◌++◌, map,
  arith, take, replicate, length-replicate, take_of_length-le, lookup, lookup-insert, ◌==◌,
  if◌then◌else◌, ℕ_discrete, ==-refl,
}
use destor_lt.Chunk.{temporary_id}
use destor_lt.Kvstore.{
  Config, Value, Htable, new_kvpair, kv_update, kvstore_htable_lookup, kvstore_htable_update,
}

-- The updates in their order, each a key and the id it is to refer to.
unfoldable pub update_all : Config → List (ℕ × ℕ) → Htable → Htable
update_all cfg [] htable = htable
update_all cfg ((key, id) ∷ updates) htable =
    update_all cfg updates (kvstore_htable_update cfg key (some id) htable)

-- The ids of the updates of a key, the latest first, before those of `ids`.
unfoldable pub ids_of : ℕ → List (ℕ × ℕ) → List ℕ → List ℕ
ids_of key [] ids = ids
ids_of key ((k, id) ∷ updates) ids = ids_of key updates (if k == key then id ∷ ids else ids)

-- The first `n` ids, and TEMPORARY_ID where there are fewer.
abbrev pub padded : ℕ → List ℕ → Value
padded n ids = take n (map some ids ++ replicate n none)

abbrev pub value_of : ℕ → List ℕ → Option Value
value_of n [] = none
value_of n (id ∷ ids) = some (padded n (id ∷ ids))

take-take : (n : ℕ) (value : Value) → take n (take (suc n) value) ≡ take n value
take-take zero value = refl
take-take (suc n) [] = refl
take-take (suc n) (v ∷ value) = ap (◌∷◌ v) (take-take n value)

shift_take :
    (n : ℕ) (id : ℕ) (value : Value)
    → 0 < n
    → some id ∷ take (n - 1) (take n value) ≡ take n (some id ∷ value)
shift_take zero id value positive = absurd (omega arith)
shift_take (suc n) id value positive =
    let one_less : suc n - 1 ≡ n = omega arith in
    rw one_less (ap (◌∷◌ (some id)) (take-take n value))

-- A value with room for an id, after the update.
update-padded :
    (cfg : Config) (id : ℕ) (ids : List ℕ)
    → 0 < cfg.index_value_length
    → kv_update cfg (padded cfg.index_value_length ids) (some id)
      ≡ padded cfg.index_value_length (id ∷ ids)
unfolding kv_update
update-padded cfg id ids positive =
    shift_take cfg.index_value_length id (map some ids ++ replicate cfg.index_value_length none)
      positive

new-padded : (cfg : Config) → new_kvpair cfg ≡ padded cfg.index_value_length []
unfolding new_kvpair
new-padded cfg = sym (
    take_of_length-le cfg.index_value_length (replicate cfg.index_value_length none)
      (omega (arith, length-replicate cfg.index_value_length temporary_id)))

value_before :
    (cfg : Config) (ids : List ℕ)
    → (elim (value_of cfg.index_value_length ids) [ none ↦ new_kvpair cfg | some value ↦ value ])
      ≡ padded cfg.index_value_length ids
value_before cfg [] = new-padded cfg
value_before cfg (id ∷ ids) = refl

update_step :
    (cfg : Config) (key k id : ℕ) (old ids : List ℕ) (htable : Htable)
    → 0 < cfg.index_value_length
    → lookup k htable ≡ value_of cfg.index_value_length old
    → lookup key htable ≡ value_of cfg.index_value_length ids
    → lookup key (kvstore_htable_update cfg k (some id) htable) ≡ (
        if k == key
        then some (padded cfg.index_value_length (id ∷ old))
        else value_of cfg.index_value_length ids)
unfolding kvstore_htable_update
update_step cfg key k id old ids htable positive e h =
    let made =
      ap (λ v. kv_update cfg v (some id)) (value_before cfg old)
      ∙ update-padded cfg id old positive in
    rw (e, made, lookup-insert k key (padded cfg.index_value_length (id ∷ old)) htable)
      (ap (λ o. if k == key then some (padded cfg.index_value_length (id ∷ old)) else o) h)

abbrev Holds : Config → (ℕ → List ℕ) → Htable → Type 0
Holds cfg ids htable =
    (k : ℕ) → kvstore_htable_lookup k htable ≡ value_of cfg.index_value_length (ids k)

abbrev with_id : ℕ → ℕ → (ℕ → List ℕ) → ℕ → List ℕ
with_id key id ids k = if key == k then id ∷ ids k else ids k

update-Holds :
    (cfg : Config) (key id : ℕ) (ids : ℕ → List ℕ) (htable : Htable)
    → 0 < cfg.index_value_length
    → Holds cfg ids htable
    → Holds cfg (with_id key id ids) (kvstore_htable_update cfg key (some id) htable)
unfolding kvstore_htable_lookup
update-Holds cfg key id ids htable positive h k =
    update_step cfg k key id (ids key) (ids k) htable positive (h key) (h k)
    ∙ elim (ℕ_discrete key k) [ yes same ↦ rw (same, ==-refl k) refl | no other ↦ ground arith ]

history :
    (cfg : Config) (key : ℕ) (updates : List (ℕ × ℕ)) (ids : ℕ → List ℕ) (htable : Htable)
    → 0 < cfg.index_value_length
    → Holds cfg ids htable
    → kvstore_htable_lookup key (update_all cfg updates htable)
      ≡ value_of cfg.index_value_length (ids_of key updates (ids key))
unfolding update_all ids_of
history cfg key [] ids htable positive h = h key
history cfg key ((k, id) ∷ updates) ids htable positive h =
    history cfg key updates (with_id k id ids) (kvstore_htable_update cfg k (some id) htable)
      positive (update-Holds cfg k id ids htable positive h)

-- After any updates of an empty table, with room for at least one id, a key refers to the ids of its
-- last `index_value_length` updates, the latest first, and to none if it had no update.
pub update_all-latest :
    (cfg : Config) (key : ℕ) (updates : List (ℕ × ℕ))
    → 0 < cfg.index_value_length
    → kvstore_htable_lookup key (update_all cfg updates [])
      ≡ value_of cfg.index_value_length (ids_of key updates [])
unfolding kvstore_htable_lookup lookup
update_all-latest cfg key updates positive =
    history cfg key updates (λ k. []) [] positive (λ k. refl)
