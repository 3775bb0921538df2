-- ===== src/RestoreAware.antt =====
-- The restore-aware monitor of destor-master/src/restore_aware.c, which runs an LRU cache during a
-- backup to estimate how a restore would read containers.
pub mod Tracks
pub mod Recency
mod Tests
use destor_lt.Prelude.{
  ℕ, ◌+◌, ◌-◌, ◌/◌, Bool, true, false, Option, none, some, List, [], ◌∷◌, ℤ, ltb, ◌==◌,
  if◌then◌else◌,
}
use destor_lt.Lru.{
  LruCache, new_lru_cache, lru_cache_lookup, lru_cache_lookup_without_update, lru_cache_insert,
}
use destor_lt.Chunk.{ContainerId, container_size, container_meta_entry}

-- `cfl` is the fraction `ocf / ccf`. Of a cached `containerRecord` only the `cid` is set, so the
-- cache holds ids.
pub record Monitor : Type 0 where
  pub total_size : ℕ
  pub ocf : ℕ
  pub ccf : ℕ
  pub cache : LruCache ℕ ℕ

abbrev pub container_record_check_id : ℕ → ℕ → Bool
container_record_check_id cid id = cid == id

unfoldable pub init_restore_aware : ℤ → Monitor
init_restore_aware restore_cache = record {
  total_size = 0;
  ocf = 0;
  ccf = 0;
  cache = new_lru_cache restore_cache container_record_check_id;
}

-- The rise of `total_size` and, from it, of `ocf`: the number of containers that hold this much.
abbrev pub grow : Monitor → ℕ → Monitor
grow m chunklen =
    let total = m.total_size + (chunklen + container_meta_entry) in
    record m { total_size = total; ocf = (total + container_size - 1) / container_size }

-- `none` is a crash in the cache's insertion.
unfoldable pub restore_aware_update : Monitor → ℕ → ℕ → Option Monitor
restore_aware_update m id chunklen =
    let (cache, found) = lru_cache_lookup m.cache id in
    elim found [
      | some _ ↦ some (record (grow m chunklen) { cache = cache })
      | none ↦ elim (lru_cache_insert cache id) [
        | none ↦ none
        | some (cache', _) ↦ some (record (grow m chunklen) { ccf = m.ccf + 1; cache = cache' })
      ]
    ]

unfoldable pub restore_aware_contains : Monitor → ℕ → Bool
restore_aware_contains m id = elim (lru_cache_lookup_without_update m.cache id) [
  | none ↦ false
  | some _ ↦ true
]

-- The fraction `ocf / ccf`, cut at one.
unfoldable pub restore_aware_get_cfl : Monitor → ℕ × ℕ
restore_aware_get_cfl m = if ltb m.ccf m.ocf then (1, 1) else (m.ocf, m.ccf)

-- The calls that a backup makes, one for each of its chunks.
unfoldable pub monitor_run : List (ℕ × ℕ) → Monitor → Option Monitor
monitor_run [] m = some m
monitor_run ((id, chunklen) ∷ calls) m = elim (restore_aware_update m id chunklen) [
  | none ↦ none
  | some m' ↦ monitor_run calls m'
]
