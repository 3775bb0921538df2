-- ===== src/Storage/Pool/RoundTrip.antt =====
-- What is read back from the container pool is what was written (storage/containerstore.c).
use destor_lt.Prelude.{
  ℕ, ◌+◌, ◌*◌, ◌^◌, ◌≤◌, ◌<◌, ◌≡◌, ◌≢◌, refl, some, arith, lookup, inl, inr, leb, HashOrder, leb→le,
  Bool-cases,
}
use destor_lt.Chunk.{container_size, container_meta_size, simulation_restore, simulation_append}
use destor_lt.Storage.Memory.{zeros, load, copy, load_congr, copy_congr}
use destor_lt.Storage.Container.{MetaEntry, Container, get_chunk_in_container}
use destor_lt.Storage.Container.Valid.{IsValid}
use destor_lt.Storage.Pool.{Store, write_container, meta_offset, retrieve_container_by_id}
use destor_lt.Storage.Pool.Parse.{
  lookup-read_back, written, write-written, returned, retrieve-returned, get-returned,
}

-- A valid container that holds a chunk is written without a failed assertion, at every simulation
-- level and whatever the order in which its table is walked. Reading its id back then succeeds, and
-- gives its counters, under every fingerprint the entry that it had, and the chunk that it had.
pub retrieve-write :
    (order : HashOrder MetaEntry) (level stray id fp : ℕ) (c : Container) (st : Store)
    → IsValid c
    → c.meta.id ≡ some id
    → id < 2 ^ 63
    → c.meta.chunk_num ≢ 0
    → (st' : Store) × (c' : Container) × (write_container order level c st ≡ some st')
      × (retrieve_container_by_id level id st' ≡ some c')
      × (c'.meta.chunk_num ≡ c.meta.chunk_num)
      × (c'.meta.data_size ≡ c.meta.data_size)
      × (lookup fp c'.meta.map ≡ lookup fp c.meta.map)
      × (get_chunk_in_container level stray c' fp ≡ get_chunk_in_container level stray c fp)
retrieve-write order level stray id fp c st v named small used = (
  written order id c v named small st level,
  returned order id c v named small st level,
  write-written order id c v named small st level used,
  retrieve-returned order id c v named small st level,
  refl,
  refl,
  lookup-read_back order id c v named small fp,
  get-returned order id c v named small st level stray fp,
)

module _ (order : HashOrder MetaEntry) (level other id : ℕ) (c : Container) (st st' : Store)
    (named : c.meta.id ≡ some id) (ne : other ≢ id)
    (e : write_container order level c st ≡ some st') where
  -- A write at a level changes no byte outside the container's slot at that level.
  file_outside_real :
      (p : ℕ)
      → level < simulation_append
      → other * container_size + 8 ≤ p
      → p < other * container_size + 8 + container_size
      → st'.file p ≡ st.file p
  unfolding write_container copy
  file_outside_real p real above below = ground arith

  file_outside_simulated :
      (p : ℕ)
      → simulation_append ≤ level
      → other * container_meta_size + 8 ≤ p
      → p < other * container_meta_size + 8 + container_meta_size
      → st'.file p ≡ st.file p
  unfolding write_container copy
  file_outside_simulated p sim above below = ground arith

  area_outside :
      load (meta_offset level other) container_meta_size st'.file
      ≡ load (meta_offset level other) container_meta_size st.file
  area_outside = elim (Bool-cases (leb simulation_append level)) [
    | inl sim ↦
        rw sim
          (load_congr _ _ st'.file st.file λ p a b. file_outside_simulated p (leb→le _ _ sim) a b)
    | inr real ↦ rw real (
        load_congr _ _ st'.file st.file
          λ p a b. file_outside_real p (ground arith) (omega arith) (omega arith))
  ]

-- Writing one container, at any level, leaves what is read for every other id as it was: its
-- metadata and its bytes.
pub retrieve-write_other :
    (order : HashOrder MetaEntry) (level other id : ℕ) (c : Container) (st : Store) {st' : Store}
    → c.meta.id ≡ some id
    → other ≢ id
    → write_container order level c st ≡ some st'
    → retrieve_container_by_id level other st' ≡ retrieve_container_by_id level other st
unfolding retrieve_container_by_id
retrieve-write_other order level other id c st {st'} named ne e =
    elim (Bool-cases (leb simulation_restore level)) [
      | inl sim ↦ ground (arith, sim, area_outside order level other id c st st' named ne e)
      | inr real ↦
          let low : level < simulation_append = ground arith in
          let outside = file_outside_real order level other id c st st' named ne e in
          let area : load (other * container_size + 8 + 4_161_536) container_meta_size st'.file
              ≡ load (other * container_size + 8 + 4_161_536) container_meta_size st.file =
            load_congr _ _ st'.file st.file (λ p a b. outside p low (omega arith) (omega arith)) in
          let bytes : copy 0 container_size (λ p. st'.file (other * container_size + 8 + p)) zeros
              ≡ copy 0 container_size (λ p. st.file (other * container_size + 8 + p)) zeros =
            copy_congr _ _ _ zeros
              λ p b. outside (other * container_size + 8 + p) low (omega arith) (omega arith) in
          ground (arith, area, bytes, real)
    ]
