-- ===== src/Handoff/Looked.antt =====
-- What the lookup of a segment, `index_lookup_base` of index/index.c, leaves of its chunks.
use destor_lt.Prelude.{
  ℕ, ◌+◌, ◌<◌, ◌≡◌, refl, sym, ap, subst, arith, Bool, true, false, Option, none, some, List, [],
  ◌∷◌, map, All, Bool-cases, Option-cases, inl, inr, ltb, if◌then◌else◌,
}
use destor_lt.Chunk.{Chunk, ContainerId, is_file_signal, is_signal}
use destor_lt.Storage.Container.{Container, lookup_fingerprint_in_container}
use destor_lt.Gc.{mark_reference}
use destor_lt.Rewrite.Buffer.Balance.{IsMarked}
use destor_lt.Index.{
  Index, IndexElem, queue_of, check_storage, check_buffered, take_cached, take_found, check_cache,
  take_prefetched, take_ids, check_kvstore, push_found, lookup_chunk, index_lookup_base,
}
use destor_lt.Index.Behind.{Backend}

-- A chunk without what a lookup finds.
abbrev pub bare : Chunk → Chunk
bare c = record c { id = none; flag = record c.flag { duplicate = false; rewrite_denied = false } }

-- `c'` is `c` but for what was found, and a duplicate if it has a container.
pub record Found (c c' : Chunk) : Type 0 where
  pub same : bare c' ≡ bare c
  pub marked : IsMarked c'.id c'.flag.duplicate

either : {A : Type 0} (P : A → Type 0) (b : Bool) {x y : A} → P x → P y → P (if b then x else y)
either P true p q = p
either P false p q = q

-- A chunk of a file has a size, and the duplicate mark if it has a container.
abbrev pub IsLooked : Chunk → Type 0
IsLooked c = if is_signal c then Unit {0} else (0 < c.size) × IsMarked c.id c.flag.duplicate

-- Such a chunk that was not looked up yet.
abbrev pub IsRaw : Chunk → Type 0
IsRaw c = IsLooked c × (c.id ≡ none)

pub list_cong : {A : Type 0} {x y : A} {xs ys : List A} → x ≡ y → xs ≡ ys → x ∷ xs ≡ y ∷ ys
list_cong p q = λ i. p i ∷ q i

unless :
    (b : Bool) {A : Type 0} {B : Type 0}
    → (A → B)
    → (if b then Unit {0} else A)
    → (if b then Unit {0} else B)
unless true f a = tt
unless false f a = f a

always_marked : (id : ContainerId) → IsMarked id true
always_marked none = tt
always_marked (some id) = refl

storage-Found :
    (c : Chunk) (o : Option Container)
    → IsMarked c.id c.flag.duplicate
    → Found c (check_storage o c)
unfolding check_storage
storage-Found c none m = record { same = refl; marked = m }
storage-Found c (some k) m = elim (Bool-cases (lookup_fingerprint_in_container k c.fp)) [
  | inl there ↦ rw there (record { same = refl; marked = always_marked k.meta.id })
  | inr absent ↦ rw absent (record { same = refl; marked = m })
]

buffered-Found : (c d : Chunk) (q : List IndexElem) → Found c d → Found c (check_buffered q d)
unfolding check_buffered
buffered-Found c d [] f = f
buffered-Found c d (be ∷ q) f =
    either (Found c) d.flag.duplicate f (record { same = f.same; marked = always_marked be.id })

-- What a looked-up segment keeps of the one before.
pub record AllFound (cs cs' : List Chunk) : Type 0 where
  pub same : map bare cs' ≡ map bare cs
  pub looked : All IsLooked cs'

Found-IsLooked : (c c' : Chunk) → IsLooked c → Found c c' → IsLooked c'
Found-IsLooked c c' t f =
    let signal : is_signal c ≡ is_signal c' = sym (ap (λ (x : Chunk). is_signal x) f.same) in
    let size : c'.size ≡ c.size = ap (λ (x : Chunk). x.size) f.same in
    subst (λ b. if b then Unit {0} else (0 < c'.size) × IsMarked c'.id c'.flag.duplicate) signal
      (unless (is_signal c)
        (λ (old : (0 < c.size) × IsMarked c.id c.flag.duplicate).
          (omega (arith, old.0, size), f.marked))
        t)

module _ {σ : Type 0} (backend : Backend σ) (start : ℕ) where
  abbrev Finds : Chunk → Option (Chunk × Index σ) → Type 0
  Finds c none = Unit
  Finds c (some (c', ix)) = Found c c'

  take_cached-Finds :
      (c d : Chunk) (id : ℕ) (ix : Index σ)
      → Found c d
      → Finds c (take_cached backend start d id ix)
  unfolding take_cached
  take_cached-Finds c d id ix f = elim (Bool-cases (ltb id start)) [
    | inl old ↦ elim (Option-cases (backend.retrieve_container_meta_by_id id ix.behind)) [
      | inl failed ↦ rw (old, failed) tt
      | inr (cm, read) ↦ elim (Option-cases (mark_reference id d.fp cm ix.marks)) [
        | inl failed ↦ rw (old, read, failed) tt
        | inr (marks, marked) ↦ rw (old, read, marked) (record { same = f.same; marked = refl })
      ]
    ]
    | inr new ↦ rw new (record { same = f.same; marked = refl })
  ]

  take_found-Finds :
      (c d : Chunk) (ix : Index σ) (r : Option (σ × ContainerId))
      → Found c d
      → Finds c (take_found backend start d ix r)
  unfolding take_found
  take_found-Finds c d ix none f = tt
  take_found-Finds c d ix (some (behind, none)) f = f
  take_found-Finds c d ix (some (behind, some id)) f =
      take_cached-Finds c d id (record ix { behind = behind }) f

  cache-Finds : (c d : Chunk) (ix : Index σ) → Found c d → Finds c (check_cache backend start d ix)
  unfolding check_cache
  cache-Finds c d ix f =
      either (Finds c) d.flag.duplicate f
        (take_found-Finds c d ix (backend.fingerprint_cache_lookup d.fp ix.behind) f)

  ids-Finds :
      (c d : Chunk) (ix : Index σ) (r : Option (List ContainerId))
      → Found c d
      → Finds c (take_ids backend start d ix r)
  unfolding take_ids take_prefetched
  ids-Finds c d ix none f = f
  ids-Finds c d ix (some []) f = tt
  ids-Finds c d ix (some (first ∷ ids)) f =
      elim (Option-cases (backend.fingerprint_cache_prefetch first ix.behind)) [
        | inl failed ↦ rw failed tt
        | inr (behind, done) ↦ rw done (
            take_found-Finds c d (record ix { lookup_requests = ix.lookup_requests + 1 })
              (backend.fingerprint_cache_lookup d.fp behind) f)
      ]

  kvstore-Finds :
      (c : Chunk) (r : Option (Chunk × Index σ))
      → Finds c r
      → Finds c (check_kvstore backend start r)
  unfolding check_kvstore
  kvstore-Finds c none f = tt
  kvstore-Finds c (some (d, ix)) f =
      either (Finds c) d.flag.duplicate f
        (ids-Finds c d ix (backend.kvstore_lookup d.fp ix.behind) f)

  push-Finds :
      (c : Chunk) (r : Option (Chunk × Index σ)) → Finds c r → Finds c (push_found backend start r)
  unfolding push_found
  push-Finds c none f = tt
  push-Finds c (some (d, ix)) f = f

  lookup_chunk-Finds :
      (o : Option Container) (c : Chunk) (ix : Index σ)
      → IsMarked c.id c.flag.duplicate
      → Finds c (lookup_chunk backend start o c ix)
  unfolding lookup_chunk
  lookup_chunk-Finds o c ix m = elim (Bool-cases (is_file_signal c)) [
    | inl signal ↦ rw signal (record { same = refl; marked = m })
    | inr normal ↦
        let q = queue_of c.fp ix.buffer in
        let d = check_buffered q (check_storage o c) in
        let f : Found c d = buffered-Found c (check_storage o c) q (storage-Found c o m) in
        rw normal (
          push-Finds c (check_kvstore backend start (check_cache backend start d ix))
            (kvstore-Finds c (check_cache backend start d ix) (cache-Finds c d ix f)))
  ]

  lookup_chunk-Found :
      (o : Option Container) (c : Chunk) (ix : Index σ) (c' : Chunk) (ix' : Index σ)
      → IsRaw c
      → lookup_chunk backend start o c ix ≡ some (c', ix')
      → Found c c'
  lookup_chunk-Found o c ix c' ix' (t, unnamed) e =
      subst (Finds c) e (lookup_chunk-Finds o c ix (rw unnamed tt))

  pub index_lookup_base-AllFound :
      (o : Option Container) (cs cs' : List Chunk) (ix ix' : Index σ)
      → All IsRaw cs
      → index_lookup_base backend start o cs ix ≡ some (cs', ix')
      → AllFound cs cs'
  unfolding index_lookup_base
  index_lookup_base-AllFound o [] cs' ix ix' t e =
      let none_left : [] ≡ cs' = ground (arith, e) in
      subst (AllFound []) none_left (record { same = refl; looked = tt })
  index_lookup_base-AllFound o (c ∷ cs) cs' ix ix' (t, ts) e =
      elim (Option-cases (lookup_chunk backend start o c ix)) [
        | inl failed ↦ absurd (ground (arith, e, failed))
        | inr ((d, ix₁), e₁) ↦ elim (Option-cases (index_lookup_base backend start o cs ix₁)) [
          | inl failed ↦ absurd (ground (arith, e, e₁, failed))
          | inr ((ds, ix₂), e₂) ↦
              let f = lookup_chunk-Found o c ix d ix₁ t e₁ in
              let fs = index_lookup_base-AllFound o cs ds ix₁ ix₂ ts e₂ in
              let all : d ∷ ds ≡ cs' = ground (arith, e, e₁, e₂) in
              subst (AllFound (c ∷ cs)) all (record {
                same = list_cong f.same fs.same;
                looked = (Found-IsLooked c d t.0 f, fs.looked);
              })
        ]
      ]
