-- ===== src/Pipeline/Deduplicated.antt =====
-- The lookup of a segment: dedup_phase.c and `index_lookup_base` of index/index.c.
use destor_lt.Prelude.{
  ℕ, ◌≤◌, ◌≡◌, refl, subst, sym, ◌∙◌, arith, false, Option, none, some, List, [], ◌∷◌, ◌++◌,
  Bool-cases, Option-cases, inl, inr, All, append_assoc, append-nil,
}
use destor_lt.Chunk.{Chunk, is_file_signal}
use destor_lt.Storage.Container.{Container}
use destor_lt.Index.{
  Index, queue_of, push_elem, push_found, lookup_chunk, index_lookup_base, check_cache,
  check_kvstore, check_buffered, check_storage,
}
use destor_lt.Index.Behind.{Backend}
use destor_lt.Judge.Located.{IsOpen, capacity}
use destor_lt.Pipeline.Buffered.{Buffered}
use destor_lt.Pipeline.Promises.{Promises}
use destor_lt.Pipeline.Looked.{Stage, stages-Stage}
use destor_lt.Pipeline.Seen.{IsFresh, checked-Seen}
use destor_lt.Pipeline.Queued.{signal-Buffered, push-Buffered}

-- A chunk that enters the deduplication phase: no duplicate, without an id, and not too large.
abbrev pub IsInput : Chunk → Type 0
IsInput c = IsFresh c × (c.size ≤ capacity)

module _ {σ : Type 0} (backend : Backend σ) (promises : Promises backend) (start : ℕ)
    (o : Option Container) (w : List Container) (opened : IsOpen o) where
  -- The phases agree on the index and the chunks.
  pub record Agrees (ix : Index σ) (p : List Chunk) : Type 0 where
    pub buffered : Buffered o w ix.buffer p
    pub sound : promises.IsSound w ix.behind

  same-Agrees :
      (p : List Chunk) (c₁ c₂ : Chunk) (ix₁ ix₂ : Index σ)
      → ◌≡◌ {A = Option (Chunk × Index σ)} (some (c₁, ix₁)) (some (c₂, ix₂))
      → Agrees ix₁ (p ++ c₁ ∷ [])
      → Agrees ix₂ (p ++ c₂ ∷ [])
  same-Agrees p c₁ c₂ ix₁ ix₂ e t =
      let ec : c₁ ≡ c₂ = ground (arith, e) in
      let ei : ix₁ ≡ ix₂ = ground (arith, e) in
      subst (λ (d : Chunk). Agrees ix₂ (p ++ d ∷ [])) ec
        (subst (λ (j : Index σ). Agrees j (p ++ c₁ ∷ [])) ei t)

  pushed-Agrees :
      (p : List Chunk) (c c' : Chunk) (ix ix' : Index σ) (r : Option (Chunk × Index σ))
      → Agrees ix p
      → is_file_signal c ≡ false
      → c.size ≤ capacity
      → ((d : Chunk) (j : Index σ)
          → r ≡ some (d, j)
          → Stage backend promises start o w (queue_of c.fp ix.buffer) c ix d j)
      → push_found backend start r ≡ some (c', ix')
      → Agrees ix' (p ++ c' ∷ [])
  unfolding push_found
  pushed-Agrees p c c' ix ix' none a normal fits k e = absurd (ground (arith, e))
  pushed-Agrees p c c' ix ix' (some (d, j)) a normal fits k e =
      let t = k d j refl in
      same-Agrees p d c' (record j { buffer = push_elem d j.buffer }) ix' e
        (record {
          buffered =
              subst (λ b. Buffered o w (push_elem d b) (p ++ d ∷ [])) (sym t.buffer)
                (push-Buffered o w ix.buffer p c d a.buffered t.seen normal fits);
          sound = t.sound;
        })

  chunk-Agrees :
      (p : List Chunk) (c c' : Chunk) (ix ix' : Index σ)
      → Agrees ix p
      → IsInput c
      → lookup_chunk backend start o c ix ≡ some (c', ix')
      → Agrees ix' (p ++ c' ∷ [])
  unfolding lookup_chunk
  chunk-Agrees p c c' ix ix' a i e = elim (Bool-cases (is_file_signal c)) [
    | inl signal ↦ same-Agrees p c c' ix ix' (sym (rw (lookup_chunk, signal) refl) ∙ e) (record {
      buffered = signal-Buffered o w ix.buffer p c a.buffered signal (i.1, rw (i.0.1) tt);
      sound = a.sound;
    })
    | inr normal ↦
        let c₁ = check_buffered (queue_of c.fp ix.buffer) (check_storage o c) in
        pushed-Agrees p c c' ix ix' (check_kvstore backend start (check_cache backend start c₁ ix))
          a normal i.1
          (λ d j h.
            stages-Stage backend promises start o w (queue_of c.fp ix.buffer) c c₁ d ix j
              (check_cache backend start c₁ ix)
              (checked-Seen o w (queue_of c.fp ix.buffer) c opened i.0 (a.buffered.heads c.fp))
              a.sound refl h)
          (sym (rw (lookup_chunk, normal) refl) ∙ e)
  ]

  lookup_cons :
      (c : Chunk) (s s' : List Chunk) (ix ix' : Index σ)
      → index_lookup_base backend start o (c ∷ s) ix ≡ some (s', ix')
      → (c₁ : Chunk) × (ix₁ : Index σ) × (s₁ : List Chunk) × (lookup_chunk backend start o c ix
          ≡ some (c₁, ix₁))
        × (index_lookup_base backend start o s ix₁ ≡ some (s₁, ix'))
        × (s' ≡ c₁ ∷ s₁)
  unfolding index_lookup_base
  lookup_cons c s s' ix ix' e = elim (Option-cases (lookup_chunk backend start o c ix)) [
    | inl failed ↦ absurd (ground (arith, e, failed))
    | inr ((c₁, ix₁), f) ↦ elim (Option-cases (index_lookup_base backend start o s ix₁)) [
      | inl failed ↦ absurd (ground (arith, e, f, failed))
      | inr ((s₁, ix₂), g) ↦
          let gives : index_lookup_base backend start o (c ∷ s) ix ≡ some (c₁ ∷ s₁, ix₂) =
            rw (index_lookup_base, f, g) refl in
          let same : ◌≡◌ {A = Option (List Chunk × Index σ)} (some (c₁ ∷ s₁, ix₂))
              (some (s', ix')) =
            sym gives ∙ e in
          let es : c₁ ∷ s₁ ≡ s' = ground (arith, same) in
          let ei : ix₂ ≡ ix' = ground (arith, same) in
          (
            c₁,
            ix₁,
            s₁,
            f,
            subst (λ (j : Index σ). index_lookup_base backend start o s ix₁ ≡ some (s₁, j)) ei g,
            sym es,
          )
    ]
  ]

  -- A segment that is looked up joins the chunks that wait for the filter phase.
  pub index_lookup_base-Agrees :
      (s s' p : List Chunk) (ix ix' : Index σ)
      → Agrees ix p
      → All IsInput s
      → index_lookup_base backend start o s ix ≡ some (s', ix')
      → Agrees ix' (p ++ s')
  unfolding index_lookup_base
  index_lookup_base-Agrees [] s' p ix ix' a i e =
      let es : [] ≡ s' = ground (arith, e) in
      let ei : ix ≡ ix' = ground (arith, e) in
      subst (λ (l : List Chunk). Agrees ix' (p ++ l)) es
        (subst (λ (l : List Chunk). Agrees ix' l) (sym (append-nil p))
          (subst (λ (j : Index σ). Agrees j p) ei a))
  index_lookup_base-Agrees (c ∷ s) s' p ix ix' a i e =
      let (c₁, ix₁, s₁, f, g, is) = lookup_cons c s s' ix ix' e in
      let k =
        index_lookup_base-Agrees s s₁ (p ++ c₁ ∷ []) ix₁ ix' (chunk-Agrees p c c₁ ix ix₁ a i.0 f)
          i.1 g in
      subst (λ (l : List Chunk). Agrees ix' (p ++ l)) (sym is)
        (subst (λ (l : List Chunk). Agrees ix' l) (append_assoc p (c₁ ∷ []) s₁) k)
