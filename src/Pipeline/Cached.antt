-- ===== src/Pipeline/Cached.antt =====
-- The fingerprint cache with physical locality, index/fingerprint_cache.c, behind the phases.
use destor_lt.Prelude.{
  ℕ, ◌+◌, ◌-◌, ◌&&◌, ◌≡◌, refl, subst, sym, ◌∙◌, ap, arith, Bool, true, Option, none, some, List,
  [], ◌∷◌, All, Bool-cases, Option-cases, inl, inr, ℤ,
}
use destor_lt.Chunk.{ContainerId}
use destor_lt.Lru.{
  LruCache, new_lru_cache, unlink_first, unlink_end, lru_cache_lookup, lru_cache_insert,
  is_positive, is_at,
}
use destor_lt.Kvstore.{Config, Htable}
use destor_lt.Storage.Container.{Container, ContainerMeta, lookup_fingerprint_in_container_meta}
use destor_lt.Index.Cache.{
  Cache, answer, init_fingerprint_cache, fingerprint_cache_lookup, fingerprint_cache_prefetch,
  cached_backend,
}
use destor_lt.Judge.Located.{IsLocated, located-cons}
use destor_lt.Pipeline.Promises.{Promises}

-- The metadata says only what a container that was handed over holds.
abbrev pub IsTrue : List Container → ContainerMeta → Type 0
IsTrue w cm = (fp : ℕ) → lookup_fingerprint_in_container_meta cm fp ≡ true → IsLocated w fp cm.id

unlink_first-All :
    {A : Type 0} (P : A → Type 0) (test : A → Bool) (q r : List A) (x : A)
    → All P q
    → unlink_first test q ≡ some (x, r)
    → P x × All P r × (test x ≡ true)
unfolding unlink_first
unlink_first-All P test [] r x a e = absurd (ground (arith, e))
unlink_first-All P test (y ∷ q) r x a e = elim (Bool-cases (test y)) [
  | inl it ↦
      let ex : y ≡ x = ground (arith, e, it) in
      let er : q ≡ r = ground (arith, e, it) in
      (subst P ex a.0, subst (All P) er a.1, subst (λ z. test z ≡ true) ex it)
  | inr other ↦ elim (Option-cases (unlink_first test q)) [
    | inl missed ↦ absurd (ground (arith, e, other, missed))
    | inr ((z, s), found) ↦
        let (pz, ps, tz) = unlink_first-All P test q s z a.1 found in
        let ez : z ≡ x = ground (arith, e, other, found) in
        let er : y ∷ s ≡ r = ground (arith, e, other, found) in
        (subst P ez pz, subst (All P) er (a.0, ps), subst (λ t. test t ≡ true) ez tz)
  ]
]

unlink_end-All :
    {A : Type 0} (P : A → Type 0) (q r : List A) (x : A)
    → All P q
    → unlink_end q ≡ some (x, r)
    → All P r
unfolding unlink_end
unlink_end-All P [] r x a e = absurd (ground (arith, e))
unlink_end-All P (y ∷ q) r x a e = elim (Option-cases (unlink_end q)) [
  | inl last ↦ let er : q ≡ r = ground (arith, e, last) in subst (All P) er a.1
  | inr ((z, s), found) ↦
      let er : y ∷ s ≡ r = ground (arith, e, found) in
      subst (All P) er (a.0, unlink_end-All P q s z a.1 found)
]

-- What the state must be for its answers to be right.
pub record IsCache (w : List Container) (s : Cache) : Type 0 where
  pub handed : s.containers ≡ w
  pub hits : s.lru_queue.hit_elem ≡ lookup_fingerprint_in_container_meta
  pub metas : All (IsTrue w) s.lru_queue.elem_queue

-- A new cache, whatever the key-value store holds.
pub init_fingerprint_cache-IsCache :
    (size : ℤ) (htable : Htable) (w : List Container)
    → IsCache w (init_fingerprint_cache size htable w)
unfolding init_fingerprint_cache new_lru_cache
init_fingerprint_cache-IsCache size htable w = record { handed = refl; hits = refl; metas = tt }

same_answer :
    (w : List Container) (fp : ℕ) (s₁ s₂ : Cache) (i₁ i₂ : ContainerId)
    → ◌≡◌ {A = Option (Cache × ContainerId)} (some (s₁, i₁)) (some (s₂, i₂))
    → IsCache w s₁ × IsLocated w fp i₁
    → IsCache w s₂ × IsLocated w fp i₂
same_answer w fp s₁ s₂ i₁ i₂ e k =
    let es : s₁ ≡ s₂ = ground (arith, e) in
    let ei : i₁ ≡ i₂ = ground (arith, e) in
    (subst (IsCache w) es k.0, subst (IsLocated w fp) ei k.1)

lookup_missed :
    (c : LruCache ContainerMeta ℕ) (fp : ℕ)
    → unlink_first (λ cm. c.hit_elem cm fp) c.elem_queue ≡ none
    → lru_cache_lookup c fp ≡ (record c { miss_count = c.miss_count + 1 }, none)
unfolding lru_cache_lookup
lookup_missed c fp missed = rw (lru_cache_lookup, missed) refl

lookup_found :
    (c : LruCache ContainerMeta ℕ) (fp : ℕ) (cm : ContainerMeta) (r : List ContainerMeta)
    → unlink_first (λ e. c.hit_elem e fp) c.elem_queue ≡ some (cm, r)
    → lru_cache_lookup c fp
      ≡ (record c { elem_queue = cm ∷ r; hit_count = c.hit_count + 1 }, some cm)
unfolding lru_cache_lookup
lookup_found c fp cm r found = rw (lru_cache_lookup, found) refl

lookup-IsCache :
    (w : List Container) (s s' : Cache) (fp : ℕ) (id : ContainerId)
    → IsCache w s
    → fingerprint_cache_lookup fp s ≡ some (s', id)
    → IsCache w s' × IsLocated w fp id
unfolding fingerprint_cache_lookup answer
lookup-IsCache w s s' fp id k e =
    let test : ContainerMeta → Bool = λ cm. s.lru_queue.hit_elem cm fp in
    elim (Option-cases (unlink_first test s.lru_queue.elem_queue)) [
      | inl missed ↦
          let q : LruCache ContainerMeta ℕ = record s.lru_queue {
            miss_count = s.lru_queue.miss_count + 1;
          } in
          let gives : fingerprint_cache_lookup fp s ≡ some (record s { lru_queue = q }, none) =
            ap (answer s) (lookup_missed s.lru_queue fp missed) in
          same_answer w fp (record s { lru_queue = q }) s' none id (sym gives ∙ e)
            (record { handed = k.handed; hits = k.hits; metas = k.metas }, tt)
      | inr ((cm, r), found) ↦
          let q : LruCache ContainerMeta ℕ = record s.lru_queue {
            elem_queue = cm ∷ r;
            hit_count = s.lru_queue.hit_count + 1;
          } in
          let gives : fingerprint_cache_lookup fp s ≡ some (record s { lru_queue = q }, cm.id) =
            ap (answer s) (lookup_found s.lru_queue fp cm r found) in
          let (here, rest, hit) =
            unlink_first-All (IsTrue w) test s.lru_queue.elem_queue r cm k.metas found in
          let hit' : lookup_fingerprint_in_container_meta cm fp ≡ true =
            sym (ap (λ (h : ContainerMeta → ℕ → Bool). h cm fp) k.hits) ∙ hit in
          same_answer w fp (record s { lru_queue = q }) s' cm.id id (sym gives ∙ e)
            (record { handed = k.handed; hits = k.hits; metas = (here, rest) }, here fp hit')
    ]

insert-IsCache :
    (w : List Container) (c d : LruCache ContainerMeta ℕ) (cm : ContainerMeta)
    (victim : Option ContainerMeta)
    → lru_cache_insert c cm ≡ some (d, victim)
    → IsTrue w cm
    → All (IsTrue w) c.elem_queue
    → All (IsTrue w) d.elem_queue × (d.hit_elem ≡ c.hit_elem)
unfolding lru_cache_insert
insert-IsCache w c d cm victim e here a =
    elim (Bool-cases (is_positive c.max_size && is_at c.size c.max_size)) [
      | inl full ↦ elim (Option-cases (unlink_end c.elem_queue)) [
        | inl empty ↦ absurd (ground (arith, e, full, empty))
        | inr ((v, q), found) ↦
            let ed : record c { elem_queue = cm ∷ q; size = c.size - 1 + 1 } ≡ d =
              ground (arith, e, full, found) in
            subst
              (λ (x : LruCache ContainerMeta ℕ).
                All (IsTrue w) x.elem_queue × (x.hit_elem ≡ c.hit_elem))
              ed ((here, unlink_end-All (IsTrue w) c.elem_queue q v a found), refl)
      ]
      | inr room ↦
          let ed : record c { elem_queue = cm ∷ c.elem_queue; size = c.size + 1 } ≡ d =
            ground (arith, e, room) in
          subst
            (λ (x : LruCache ContainerMeta ℕ).
              All (IsTrue w) x.elem_queue × (x.hit_elem ≡ c.hit_elem))
            ed ((here, a), refl)
    ]

cons-IsLocated :
    (w : List Container) (c : Container) (fp : ℕ) (id : ContainerId)
    → IsLocated w fp id
    → IsLocated (c ∷ w) fp id
cons-IsLocated w c fp none l = tt
cons-IsLocated w c fp (some id) l = located-cons id fp c w l

IsTrue-cons :
    (w : List Container) (c : Container) (cm : ContainerMeta) → IsTrue w cm → IsTrue (c ∷ w) cm
IsTrue-cons w c cm t fp h = cons-IsLocated w c fp cm.id (t fp h)

All-IsTrue_cons :
    (w : List Container) (c : Container) (q : List ContainerMeta)
    → All (IsTrue w) q
    → All (IsTrue (c ∷ w)) q
All-IsTrue_cons w c [] a = tt
All-IsTrue_cons w c (cm ∷ q) a = (IsTrue-cons w c cm a.0, All-IsTrue_cons w c q a.1)

-- Where reading a container's metadata back says only what the container holds, the fingerprint cache
-- keeps the promises: it gives only ids of containers that were handed over and hold the fingerprint.
module _ (retrieve : ℕ → List Container → Option ContainerMeta) (cfg : Config)
    (reads : (w : List Container) (id : ℕ) (cm : ContainerMeta)
      → retrieve id w ≡ some cm
      → IsTrue w cm) where
  prefetch-IsCache :
      (w : List Container) (s s' : Cache) (id : ContainerId)
      → IsCache w s
      → fingerprint_cache_prefetch retrieve cfg id s ≡ some s'
      → IsCache w s'
  unfolding fingerprint_cache_prefetch
  prefetch-IsCache w s s' none k e = absurd (ground (arith, e))
  prefetch-IsCache w s s' (some id) k e = elim (Option-cases (retrieve id s.containers)) [
    | inl failed ↦ absurd (ground (arith, e, failed))
    | inr (cm, found) ↦ elim (Option-cases (lru_cache_insert s.lru_queue cm)) [
      | inl crashed ↦ absurd (ground (arith, e, found, crashed))
      | inr ((q, victim), inserted) ↦
          let es : record s { lru_queue = q; read_prefetching_units = s.read_prefetching_units + 1 }
              ≡ s' =
            ground (arith, e, found, inserted) in
          let here : IsTrue w cm =
            subst (λ (l : List Container). IsTrue l cm) k.handed (reads s.containers id cm found) in
          let (metas, hits) = insert-IsCache w s.lru_queue q cm victim inserted here k.metas in
          subst (IsCache w) es (record { handed = k.handed; hits = hits ∙ k.hits; metas = metas })
    ]
  ]

  pub cached_promises : Promises (cached_backend retrieve cfg)
  cached_promises = record {
    IsSound = IsCache;
    cache_lookup = lookup-IsCache;
    cache_prefetch = prefetch-IsCache;
    update = λ w s fp id k. record { handed = k.handed; hits = k.hits; metas = k.metas };
    write = λ w s c k. record {
      handed = ap (λ l. c ∷ l) k.handed;
      hits = k.hits;
      metas = All-IsTrue_cons w c s.lru_queue.elem_queue k.metas;
    };
  }
