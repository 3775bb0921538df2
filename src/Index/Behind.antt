-- ===== src/Index/Behind.antt =====
-- What the index and the filter phase use of the caches and stores behind them: the fingerprint cache,
-- the key-value store and the container store, with the state `σ` that those share.
use destor_lt.Prelude.{ℕ, Option, List}
use destor_lt.Chunk.{ContainerId}
use destor_lt.Storage.Container.{Container, ContainerMeta}

pub record Backend (σ : Type 0) : Type 0 where
  pub fingerprint_cache_lookup : ℕ → σ → Option (σ × ContainerId)
  pub fingerprint_cache_prefetch : ContainerId → σ → Option σ
  pub kvstore_lookup : ℕ → σ → Option (List ContainerId)
  pub kvstore_update : ℕ → ContainerId → σ → σ
  pub retrieve_container_meta_by_id : ℕ → σ → Option ContainerMeta
  pub write_container_async : Container → σ → σ
