-- ===== src/Pipeline/Behind.antt =====
-- The loop of filter_phase.c, and what is behind the index.
use destor_lt.Prelude.{
  ℕ, ◌≡◌, refl, subst, sym, ap, ◌∙◌, arith, ℤ, Bool, true, false, ◌&&◌, Option, none, some, List,
  [], ◌∷◌, Bool-cases, Option-cases, inl, inr, if◌then◌else◌,
}
use destor_lt.Chunk.{Chunk, ContainerId, is_file_signal}
use destor_lt.Storage.Container.{
  Container, container_empty, container_overflow, add_chunk_to_container,
}
use destor_lt.RestoreAware.{restore_aware_update}
use destor_lt.Index.Behind.{Backend}
use destor_lt.Index.{IndexBuffer, index_check_buffer, index_update_buffer}
use destor_lt.Pipeline.Filtered.{with_fresh_tables}
use destor_lt.Judge.{
  filter_segment, Config, Filter, index_update, index_container, hand_over, open_container,
  current_container, make_room, take_container, count_added, take_added, put_chunk, is_writable,
  store_chunk, monitor_id, monitor_stored, judge_settled, judge_chunk, judge_chunks, deny_rewritten,
  is_written, settle_copy, flag_cached, switch_rewrite,
}
use destor_lt.Pipeline.Promises.{Promises}

pair_of :
    {A : Type 0} {B : Type 0} {a c : A} {b d : B} → a ≡ c → b ≡ d → ◌≡◌ {A = A × B} (a, b) (c, d)
pair_of p q = λ i. (p i, q i)

held_back :
    {A : Type 0} (holds : Bool) (o : Option A) (x : A)
    → (if holds then o else none) ≡ some x
    → o ≡ some x
held_back true o x e = e
held_back false o x e = absurd (ground (arith, e))

module _ {σ : Type 0} (backend : Backend σ) (promises : Promises backend)
    (sampling : List ℕ → List ℕ) (cfg : Config) where
  abbrev pub KeptBehind : Filter σ → Type 0
  KeptBehind f = promises.IsSound f.written f.behind

  index_update-IsSound :
      (fs : List ℕ) (id : ContainerId) (w : List Container) (s : σ)
      → promises.IsSound w s
      → promises.IsSound w (index_update backend sampling cfg fs id s)
  unfolding index_update
  index_update-IsSound [] id w s h = h
  index_update-IsSound (f ∷ fs) id w s h =
      index_update-IsSound fs id w (backend.kvstore_update f id s) (promises.update w s f id h)

  hand_over-IsSound :
      (c : Container) (f : Filter σ)
      → KeptBehind f
      → KeptBehind (hand_over backend sampling cfg c (index_container backend sampling cfg c f))
  unfolding hand_over index_container index_update
  hand_over-IsSound c f h = elim (Bool-cases cfg.physical_locality) [
    | inl physical ↦ elim (Bool-cases (container_empty c)) [
      | inl empty ↦
          rw (physical, empty)
            (index_update-IsSound (sampling f.chunks) c.meta.id f.written f.behind h)
      | inr full ↦
          rw (physical, full)
            (promises.write f.written _ c
              (index_update-IsSound (sampling f.chunks) c.meta.id f.written f.behind h))
    ]
    | inr logical ↦ elim (Bool-cases (container_empty c)) [
      | inl empty ↦ rw (logical, empty) h
      | inr full ↦ rw (logical, full) (promises.write f.written f.behind c h)
    ]
  ]

  current-IsSound :
      (o : Option Container) (f : Filter σ)
      → KeptBehind f
      → KeptBehind (current_container backend sampling cfg o f).1
  unfolding current_container open_container
  current-IsSound none f h = elim (Bool-cases cfg.physical_locality) [
    | inl physical ↦ rw (physical) h
    | inr logical ↦ rw (logical) h
  ]
  current-IsSound (some c) f h = h

  make_room-IsSound :
      (size : ℕ) (c : Container) (f : Filter σ)
      → KeptBehind f
      → KeptBehind (make_room backend sampling cfg size (c, f)).1
  unfolding make_room open_container
  make_room-IsSound size c f h = elim (Bool-cases (container_overflow c size)) [
    | inl over ↦ rw (over) (hand_over-IsSound c f h)
    | inr room ↦ rw (room) h
  ]

  count_added-IsSound :
      (c : Chunk) (f : Filter σ) → KeptBehind f → KeptBehind (count_added backend sampling cfg c f)
  unfolding count_added
  count_added-IsSound c f h = elim (Bool-cases cfg.physical_locality) [
    | inl physical ↦ elim (Bool-cases c.flag.duplicate) [
      | inl again ↦ rw (physical, again) h
      | inr once ↦ rw (physical, once) h
    ]
    | inr logical ↦ elim (Bool-cases c.flag.duplicate) [
      | inl again ↦ rw (logical, again) h
      | inr once ↦ rw (logical, once) h
    ]
  ]

  take_added-IsSound :
      (f f' : Filter σ) (r : Option (Container × Chunk × Bool)) (c : Chunk)
      → KeptBehind f
      → take_added backend sampling cfg f r ≡ some (c, f')
      → KeptBehind f'
  unfolding take_added
  take_added-IsSound f f' none c h e = absurd (ground (arith, e))
  take_added-IsSound f f' (some (k, d, true)) c h e =
      let ef : count_added backend sampling cfg d (record f { container_buffer = some k }) ≡ f' =
        ground (arith, e) in
      subst KeptBehind ef (count_added-IsSound d (record f { container_buffer = some k }) h)
  take_added-IsSound f f' (some (k, d, false)) c h e =
      elim (Bool-cases (cfg.exact && cfg.rewrite_no)) [
        | inl strict ↦ absurd (ground (arith, e, strict))
        | inr lax ↦
            let ef : record f { container_buffer = some k } ≡ f' = ground (arith, e, lax) in
            subst KeptBehind ef h
      ]

  store_chunk-IsSound :
      (c c' : Chunk) (f f' : Filter σ)
      → KeptBehind f
      → store_chunk backend sampling cfg c f ≡ some (c', f')
      → KeptBehind f'
  unfolding store_chunk put_chunk take_container
  store_chunk-IsSound c c' f f' h e =
      let is_in : put_chunk backend sampling cfg c (take_container backend sampling cfg c.size f)
          ≡ some (c', f') =
        held_back (is_writable backend sampling cfg c.size f.container_buffer) _ _ e in
      let t = current_container backend sampling cfg f.container_buffer f in
      let r = make_room backend sampling cfg c.size t in
      take_added-IsSound r.1 f' (add_chunk_to_container cfg.simulation_level r.0 c) c'
        (make_room-IsSound c.size t.0 t.1 (current-IsSound f.container_buffer f h)) is_in

  monitor_id-IsSound :
      (i : Option ℕ) (c c' : Chunk) (f f' : Filter σ)
      → KeptBehind f
      → monitor_id backend sampling cfg i c f ≡ some (c', f')
      → KeptBehind f'
  unfolding monitor_id
  monitor_id-IsSound none c c' f f' h e = absurd (ground (arith, e))
  monitor_id-IsSound (some id) c c' f f' h e =
      elim (Option-cases (restore_aware_update f.monitor id c.size)) [
        | inl failed ↦ absurd (ground (arith, e, failed))
        | inr (m, g) ↦
            let ef : record f { monitor = m; har_calls = (id, c.size) ∷ f.har_calls } ≡ f' =
              ground (arith, e, g) in
            subst KeptBehind ef h
      ]

  monitor-IsSound :
      (r : Option (Chunk × Filter σ)) (c' : Chunk) (f' : Filter σ)
      → ((c : Chunk) (f : Filter σ) → r ≡ some (c, f) → KeptBehind f)
      → monitor_stored backend sampling cfg r ≡ some (c', f')
      → KeptBehind f'
  unfolding monitor_stored
  monitor-IsSound none c' f' k e = absurd (ground (arith, e))
  monitor-IsSound (some (c, f)) c' f' k e = monitor_id-IsSound c.id c c' f f' (k c f refl) e

  judge_settled-IsSound :
      (r : Option Chunk) (c' : Chunk) (f f' : Filter σ)
      → KeptBehind f
      → judge_settled backend sampling cfg r f ≡ some (c', f')
      → KeptBehind f'
  unfolding judge_settled
  judge_settled-IsSound none c' f f' h e = absurd (ground (arith, e))
  judge_settled-IsSound (some c) c' f f' h e =
      let d = deny_rewritten f.recently_rewritten_chunks c in
      elim (Bool-cases (is_written f.enable_rewrite d)) [
        | inl to_write ↦
            monitor-IsSound (store_chunk backend sampling cfg d f) c' f'
              (λ c₁ f₁ k. store_chunk-IsSound d c₁ f f₁ h k)
              (sym (rw (judge_settled, to_write) refl) ∙ e)
        | inr left ↦
            monitor-IsSound (some (d, f)) c' f'
              (λ c₁ f₁ k. let ef : f ≡ f₁ = ground (arith, k) in subst KeptBehind ef h)
              (sym (rw (judge_settled, left) refl) ∙ e)
      ]

  judge_chunk-IsSound :
      (c c' : Chunk) (f f' : Filter σ)
      → KeptBehind f
      → judge_chunk backend sampling cfg c f ≡ some (c', f')
      → KeptBehind f'
  unfolding judge_chunk
  judge_chunk-IsSound c c' f f' h e = elim (Bool-cases (is_file_signal c)) [
    | inl signal ↦
        let same : ◌≡◌ {A = Option (Chunk × Filter σ)} (some (c, f)) (some (c', f')) =
          sym (rw (judge_chunk, signal) refl) ∙ e in
        let ef : f ≡ f' = ground (arith, same) in subst KeptBehind ef h
    | inr normal ↦
        judge_settled-IsSound (settle_copy f.recently_unique_chunks (flag_cached cfg f.monitor c))
          c' (record f { enable_rewrite = switch_rewrite cfg f.monitor f.enable_rewrite }) f' h
          (sym (rw (judge_chunk, normal) refl) ∙ e)
  ]

  -- Whatever the loop writes and tells the index, the cache keeps its promises.
  pub judge_chunks-IsSound :
      (s s' : List Chunk) (f f' : Filter σ)
      → KeptBehind f
      → judge_chunks backend sampling cfg s f ≡ some (s', f')
      → KeptBehind f'
  unfolding judge_chunks
  judge_chunks-IsSound [] s' f f' h e = let ef : f ≡ f' = ground (arith, e) in subst KeptBehind ef h
  judge_chunks-IsSound (c ∷ s) s' f f' h e =
      elim (Option-cases (judge_chunk backend sampling cfg c f)) [
        | inl failed ↦ absurd (ground (arith, e, failed))
        | inr ((c₁, f₁), e₁) ↦ elim (Option-cases (judge_chunks backend sampling cfg s f₁)) [
          | inl failed ↦ absurd (ground (arith, e, e₁, failed))
          | inr ((s₁, f₂), e₂) ↦
              let ef : f₂ ≡ f' = ground (arith, e, e₁, e₂) in
              subst KeptBehind ef
                (judge_chunks-IsSound s s₁ f₁ f₂ (judge_chunk-IsSound c c₁ f f₁ h e₁) e₂)
        ]
      ]

  segment-filter :
      (wait : ℤ) (s s' : List Chunk) (b b' : IndexBuffer) (full : Bool) (f f' : Filter σ)
      → filter_segment backend sampling cfg wait s b f ≡ some (s', b', full, f')
      → (s₁ : List Chunk) × (judge_chunks backend sampling cfg s₁ (with_fresh_tables f)
          ≡ some (s', f'))
  unfolding filter_segment
  segment-filter wait s s' b b' full f f' e = elim (Option-cases (index_check_buffer b s)) [
    | inl failed ↦ absurd (ground (arith, e, failed))
    | inr (s₁, e₁) ↦
        elim (Option-cases (judge_chunks backend sampling cfg s₁ (with_fresh_tables f))) [
          | inl failed ↦ absurd (ground (arith, e, e₁, failed))
          | inr ((s₂, f₂), e₂) ↦ elim (Option-cases (index_update_buffer wait s₂ b)) [
            | inl failed ↦ absurd (ground (arith, e, e₁, e₂, failed))
            | inr (r, e₃) ↦
                let es : s₂ ≡ s' = ground (arith, e, e₁, e₂, e₃) in
                let ef : f₂ ≡ f' = ground (arith, e, e₁, e₂, e₃) in
                (s₁, e₂ ∙ ap some (pair_of es ef))
          ]
        ]
  ]

  pub segment-IsSound :
      (wait : ℤ) (s s' : List Chunk) (b b' : IndexBuffer) (full : Bool) (f f' : Filter σ)
      → KeptBehind f
      → filter_segment backend sampling cfg wait s b f ≡ some (s', b', full, f')
      → KeptBehind f'
  segment-IsSound wait s s' b b' full f f' h e =
      let (s₁, e₁) = segment-filter wait s s' b b' full f f' e in
      judge_chunks-IsSound s₁ s' (with_fresh_tables f) f' h e₁
