-- ===== src/Index/Cache.antt =====
-- The fingerprint cache with physical locality, index/fingerprint_cache.c, over the LRU cache and the hash
-- table of the index.
use destor_lt.Prelude.{ℕ, ◌+◌, Option, none, some, List, ◌∷◌, ℤ}
use destor_lt.Chunk.{ContainerId}
use destor_lt.Lru.{LruCache, new_lru_cache, lru_cache_lookup, lru_cache_insert}
use destor_lt.Kvstore.{Config, Htable, kvstore_htable_lookup, kvstore_htable_update}
use destor_lt.Storage.Container.{Container, ContainerMeta, lookup_fingerprint_in_container_meta}
use destor_lt.Index.Behind.{Backend}

-- `containers` are those that were handed over to be written, the latest first.
pub record Cache : Type 0 where
  pub lru_queue : LruCache ContainerMeta ℕ
  pub read_prefetching_units : ℕ
  pub htable : Htable
  pub containers : List Container

unfoldable pub init_fingerprint_cache : ℤ → Htable → List Container → Cache
init_fingerprint_cache index_cache_size htable containers = record {
  lru_queue = new_lru_cache index_cache_size lookup_fingerprint_in_container_meta;
  read_prefetching_units = 0;
  htable = htable;
  containers = containers;
}

unfoldable pub answer :
    Cache → LruCache ContainerMeta ℕ × Option ContainerMeta → Option (Cache × ContainerId)
answer s (lru_queue, none) = some (record s { lru_queue = lru_queue }, none)
answer s (lru_queue, some cm) = some (record s { lru_queue = lru_queue }, cm.id)

unfoldable pub fingerprint_cache_lookup : ℕ → Cache → Option (Cache × ContainerId)
fingerprint_cache_lookup fp s = answer s (lru_cache_lookup s.lru_queue fp)

-- `retrieve` reads the metadata of a container that was handed over.
module _ (retrieve : ℕ → List Container → Option ContainerMeta) (cfg : Config) where
  -- `none` is the exit for a container that was not written, or a crash in the cache.
  unfoldable pub fingerprint_cache_prefetch : ContainerId → Cache → Option Cache
  fingerprint_cache_prefetch none s = none
  fingerprint_cache_prefetch (some id) s = elim (retrieve id s.containers) [
    | none ↦ none
    | some cm ↦ elim (lru_cache_insert s.lru_queue cm) [
      | none ↦ none
      | some (lru_queue, victim) ↦ some (record s {
        lru_queue = lru_queue;
        read_prefetching_units = s.read_prefetching_units + 1;
      })
    ]
  ]

  abbrev pub cached_backend : Backend Cache
  cached_backend = record {
    fingerprint_cache_lookup = fingerprint_cache_lookup;
    fingerprint_cache_prefetch = fingerprint_cache_prefetch;
    kvstore_lookup = λ fp s. kvstore_htable_lookup fp s.htable;
    kvstore_update = λ fp id s. record s { htable = kvstore_htable_update cfg fp id s.htable };
    retrieve_container_meta_by_id = λ id s. retrieve id s.containers;
    write_container_async = λ c s. record s { containers = c ∷ s.containers };
  }
