-- ===== src/Pipeline/Looked.antt =====
-- The lookup of a chunk in the index.
use destor_lt.Prelude.{
  ℕ, ◌+◌, ◌≡◌, refl, subst, sym, ◌∙◌, arith, Option, none, some, List, [], ◌∷◌, Bool-cases, inl,
  inr,
}
use destor_lt.Chunk.{Chunk, ContainerId}
use destor_lt.Storage.Container.{Container}
use destor_lt.Index.{
  IndexElem, Index, set_duplicate, take_cached, take_found, check_cache, take_prefetched, take_ids,
  check_kvstore,
}
use destor_lt.Index.Behind.{Backend}
use destor_lt.Judge.Located.{containers_of, IsLocated}
use destor_lt.Pipeline.Promises.{Promises}
use destor_lt.Pipeline.Seen.{Seen, written-IsLocated}

module _ {σ : Type 0} (backend : Backend σ) (promises : Promises backend) (start : ℕ) where
  -- Behind a stage of the lookup.
  pub record Stage (o : Option Container) (w : List Container) (q : List IndexElem) (c : Chunk)
      (ix : Index σ) (c' : Chunk) (ix' : Index σ) : Type 0 where
    pub seen : Seen o (containers_of o w) q c c'
    pub sound : promises.IsSound w ix'.behind
    pub buffer : ix'.buffer ≡ ix.buffer

  cached_state :
      (c : Chunk) (id : ℕ) (ix : Index σ) {c' : Chunk} {ix' : Index σ}
      → take_cached backend start c id ix ≡ some (c', ix')
      → (c' ≡ set_duplicate (record c { id = some id }))
        × (ix'.behind ≡ ix.behind)
        × (ix'.buffer ≡ ix.buffer)
  unfolding take_cached
  cached_state c id ix e = ground (arith, e)

  same-Stage :
      (o : Option Container) (w : List Container) (q : List IndexElem) (c : Chunk) (ix : Index σ)
      (c₁ c₂ : Chunk) (ix₁ ix₂ : Index σ)
      → ◌≡◌ {A = Option (Chunk × Index σ)} (some (c₁, ix₁)) (some (c₂, ix₂))
      → Stage o w q c ix c₁ ix₁
      → Stage o w q c ix c₂ ix₂
  same-Stage o w q c ix c₁ c₂ ix₁ ix₂ e t =
      let ec : c₁ ≡ c₂ = ground (arith, e) in
      let ei : ix₁ ≡ ix₂ = ground (arith, e) in
      subst (λ (d : Chunk). Stage o w q c ix d ix₂) ec
        (subst (λ (j : Index σ). Stage o w q c ix c₁ j) ei t)

  found-Stage :
      (o : Option Container) (w : List Container) (q : List IndexElem) (c c₁ c' : Chunk)
      (ix ix' : Index σ) (r : Option (σ × ContainerId))
      → Seen o (containers_of o w) q c c₁
      → ((s : σ) (id : ContainerId) → r ≡ some (s, id) → promises.IsSound w s × IsLocated w c.fp id)
      → take_found backend start c₁ ix r ≡ some (c', ix')
      → Stage o w q c ix c' ix'
  unfolding take_found
  found-Stage o w q c c₁ c' ix ix' none s k e = absurd (ground (arith, e))
  found-Stage o w q c c₁ c' ix ix' (some (b, none)) s k e =
      same-Stage o w q c ix c₁ c' (record ix { behind = b }) ix' e
        (record { seen = s; sound = (k b none refl).0; buffer = refl })
  found-Stage o w q c c₁ c' ix ix' (some (b, some id)) s k e =
      let (is_c, is_b, is_ix) = cached_state c₁ id (record ix { behind = b }) e in
      let (sound, place) = k b (some id) refl in
      record {
        seen =
            subst (λ (d : Chunk). Seen o (containers_of o w) q c d) (sym is_c)
              (record {
                fp = s.fp;
                size = s.size;
                signal = s.signal;
                place = written-IsLocated o w c.fp (some id) place;
                unique = λ d. absurd (ground (arith, d));
                named = λ d h. refl;
              });
        sound = rw (is_b) sound;
        buffer = is_ix;
      }

  -- The answers of the cache, asked for the chunk as it is now.
  answers :
      (w : List Container) (c c₁ : Chunk) (behind : σ)
      → c₁.fp ≡ c.fp
      → promises.IsSound w behind
      → (s : σ) (id : ContainerId) → backend.fingerprint_cache_lookup c₁.fp behind ≡ some (s, id)
      → promises.IsSound w s × IsLocated w c.fp id
  answers w c c₁ behind same sound s id e =
      let (sound', place) = promises.cache_lookup w behind s c₁.fp id sound e in
      (sound', subst (λ (fp : ℕ). IsLocated w fp id) same place)

  cache-Stage :
      (o : Option Container) (w : List Container) (q : List IndexElem) (c c₁ c' : Chunk)
      (ix ix' : Index σ)
      → Seen o (containers_of o w) q c c₁
      → promises.IsSound w ix.behind
      → check_cache backend start c₁ ix ≡ some (c', ix')
      → Stage o w q c ix c' ix'
  unfolding check_cache
  cache-Stage o w q c c₁ c' ix ix' s sound e = elim (Bool-cases c₁.flag.duplicate) [
    | inl again ↦
        same-Stage o w q c ix c₁ c' ix ix' (sym (rw (check_cache, again) refl) ∙ e)
          (record { seen = s; sound = sound; buffer = refl })
    | inr once ↦
        found-Stage o w q c c₁ c' ix ix' (backend.fingerprint_cache_lookup c₁.fp ix.behind) s
          (answers w c c₁ ix.behind s.fp sound) (sym (rw (check_cache, once) refl) ∙ e)
  ]

  prefetched-Stage :
      (o : Option Container) (w : List Container) (q : List IndexElem) (c c₁ c' : Chunk)
      (ix ix' : Index σ) (r : Option σ)
      → Seen o (containers_of o w) q c c₁
      → ((s : σ) → r ≡ some s → promises.IsSound w s)
      → take_prefetched backend start c₁ ix r ≡ some (c', ix')
      → Stage o w q c ix c' ix'
  unfolding take_prefetched
  prefetched-Stage o w q c c₁ c' ix ix' none s k e = absurd (ground (arith, e))
  prefetched-Stage o w q c c₁ c' ix ix' (some b) s k e =
      let t =
        found-Stage o w q c c₁ c' (record ix { lookup_requests = ix.lookup_requests + 1 }) ix'
          (backend.fingerprint_cache_lookup c₁.fp b) s (answers w c c₁ b s.fp (k b refl)) e in
      record { seen = t.seen; sound = t.sound; buffer = t.buffer }

  ids-Stage :
      (o : Option Container) (w : List Container) (q : List IndexElem) (c c₁ c' : Chunk)
      (ix ix' : Index σ) (r : Option (List ContainerId))
      → Seen o (containers_of o w) q c c₁
      → promises.IsSound w ix.behind
      → take_ids backend start c₁ ix r ≡ some (c', ix')
      → Stage o w q c ix c' ix'
  unfolding take_ids
  ids-Stage o w q c c₁ c' ix ix' none s sound e =
      same-Stage o w q c ix c₁ c'
        (record ix { lookup_requests_for_unique = ix.lookup_requests_for_unique + 1 }) ix' e
        (record { seen = s; sound = sound; buffer = refl })
  ids-Stage o w q c c₁ c' ix ix' (some []) s sound e = absurd (ground (arith, e))
  ids-Stage o w q c c₁ c' ix ix' (some (first ∷ ids)) s sound e =
      prefetched-Stage o w q c c₁ c' ix ix' (backend.fingerprint_cache_prefetch first ix.behind) s
        (λ b h. promises.cache_prefetch w ix.behind b first sound h) e

  -- Both stages that ask what is behind the index.
  pub stages-Stage :
      (o : Option Container) (w : List Container) (q : List IndexElem) (c c₁ c' : Chunk)
      (ix ix' : Index σ) (r : Option (Chunk × Index σ))
      → Seen o (containers_of o w) q c c₁
      → promises.IsSound w ix.behind
      → check_cache backend start c₁ ix ≡ r
      → check_kvstore backend start r ≡ some (c', ix')
      → Stage o w q c ix c' ix'
  unfolding check_kvstore
  stages-Stage o w q c c₁ c' ix ix' none s sound f e = absurd (ground (arith, e))
  stages-Stage o w q c c₁ c' ix ix' (some (d, ixd)) s sound f e =
      let t = cache-Stage o w q c c₁ d ix ixd s sound f in
      elim (Bool-cases d.flag.duplicate) [
        | inl again ↦
            same-Stage o w q c ix d c' ixd ix' (sym (rw (check_kvstore, again) refl) ∙ e) t
        | inr once ↦
            let k =
              ids-Stage o w q c d c' ixd ix' (backend.kvstore_lookup d.fp ixd.behind) t.seen t.sound
                (sym (rw (check_kvstore, once) refl) ∙ e) in
            record { seen = k.seen; sound = k.sound; buffer = k.buffer ∙ t.buffer }
      ]
