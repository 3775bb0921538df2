-- ===== src/Pipeline/Promises.antt =====
-- What the deduplication and filter phases rely on in the caches and stores behind the index.
use destor_lt.Prelude.{ℕ, ◌≡◌, some, List, ◌∷◌}
use destor_lt.Chunk.{ContainerId}
use destor_lt.Storage.Container.{Container}
use destor_lt.Index.Behind.{Backend}
use destor_lt.Judge.Located.{IsLocated}

-- Once the containers `w` were handed over, the fingerprint cache gives only ids of containers of `w`
-- that hold the fingerprint, whatever was prefetched and whatever the key-value store was told.
pub record Promises {σ : Type 0} (backend : Backend σ) : Type 1 where
  pub IsSound : List Container → σ → Type 0
  pub cache_lookup :
      (w : List Container) (s s' : σ) (fp : ℕ) (id : ContainerId)
      → IsSound w s
      → backend.fingerprint_cache_lookup fp s ≡ some (s', id)
      → IsSound w s' × IsLocated w fp id
  pub cache_prefetch :
      (w : List Container) (s s' : σ) (id : ContainerId)
      → IsSound w s
      → backend.fingerprint_cache_prefetch id s ≡ some s'
      → IsSound w s'
  pub update :
      (w : List Container) (s : σ) (fp : ℕ) (id : ContainerId)
      → IsSound w s
      → IsSound w (backend.kvstore_update fp id s)
  pub write :
      (w : List Container) (s : σ) (c : Container)
      → IsSound w s
      → IsSound (c ∷ w) (backend.write_container_async c s)
