-- ===== src/Pipeline/Consistent.antt =====
-- The segments, the index and the containers in the runs of the phases.
use destor_lt.Prelude.{
  ℕ, ◌≡◌, subst, sym, ◌∙◌, arith, Bool, false, ◌&&◌, Option, some, List, ◌∷◌, ◌++◌, ℤ,
}
use destor_lt.Chunk.{Chunk}
use destor_lt.Lru.Bounds.{IsValid, new_lru_cache-IsValid}
use destor_lt.Storage.Container.{Container}
use destor_lt.RestoreAware.{init_restore_aware, container_record_check_id}
use destor_lt.Index.{IndexBuffer, reaches}
use destor_lt.Index.Behind.{Backend}
use destor_lt.Judge.{Config, Filter, filter_segment}
use destor_lt.Judge.Located.{IsOpen}
use destor_lt.Pipeline.Buffered.{Buffered}
use destor_lt.Pipeline.Filtered.{Filtered, filter_segment-Filtered}
use destor_lt.Pipeline.Promises.{Promises}
use destor_lt.Pipeline.Behind.{segment-IsSound}
use destor_lt.Pipeline.Deduplicated.{Agrees, index_lookup_base-Agrees}
use destor_lt.Pipeline.Runs.{System, chunks_of, index_of, looked_up, filtered, Step, Reach}
use destor_lt.Pipeline.Marked.{
  first_system, chunks_of-snoc, chunks_of-AllMarked, marked-Buffered, first-Buffered,
}

module _ {σ : Type 0} (backend : Backend σ) (promises : Promises backend)
    (sampling : List ℕ → List ℕ) (cfg : Config) (start : ℕ) (wait : ℤ) where
  pub record IsConsistent (st : System σ) : Type 0 where
    pub opened : IsOpen st.filter.container_buffer
    pub valid : IsValid st.filter.monitor.cache
    pub buffered :
        Buffered st.filter.container_buffer st.filter.written st.buffer (chunks_of st.pending)
    pub sound : promises.IsSound st.filter.written st.filter.behind

  pub first_system-IsConsistent :
      (written : List Container) (container_count : ℕ) (behind : σ) (restore_cache : ℤ)
      → promises.IsSound written behind
      → IsConsistent (first_system written container_count behind restore_cache)
  unfolding init_restore_aware
  first_system-IsConsistent written container_count behind restore_cache h = record {
    opened = tt;
    valid = new_lru_cache-IsValid restore_cache container_record_check_id;
    buffered = first-Buffered written;
    sound = h;
  }

  -- The filtering of the oldest segment.
  pub filters-IsConsistent :
      (st : System σ) (s : List Chunk) (rest : List (List Chunk))
      → (cfg.exact && cfg.rewrite_no) ≡ false
      → IsConsistent st
      → st.pending ≡ s ∷ rest
      → (s' : List Chunk) × (b : IndexBuffer) × (f : Filter σ) × (filter_segment backend sampling
            cfg wait s st.buffer st.filter
          ≡ some (s', b, reaches b.chunk_num wait, f))
        × Filtered s (chunks_of rest) st.filter s' b f
        × IsConsistent (filtered st rest b f)
  unfolding chunks_of filtered
  filters-IsConsistent st s rest plain k e =
      let u : Buffered st.filter.container_buffer st.filter.written st.buffer
          (s ++ chunks_of rest) =
        subst
          (λ (p : List (List Chunk)).
            Buffered st.filter.container_buffer st.filter.written st.buffer (chunks_of p))
          e k.buffered in
      let (s', b, f, gives, t) =
        filter_segment-Filtered backend sampling cfg wait s (chunks_of rest) st.buffer st.filter
          plain u k.opened k.valid in
      (
        s',
        b,
        f,
        gives,
        t,
        record {
          opened = t.opened;
          valid = t.valid;
          buffered = t.buffered;
          sound =
              segment-IsSound backend promises sampling cfg wait s s' st.buffer b
                (reaches b.chunk_num wait) st.filter f k.sound gives;
        },
      )

  -- Whatever the filtering gives is what it is to give.
  pub outcome :
      (st : System σ) (s s' : List Chunk) (rest : List (List Chunk)) (b : IndexBuffer) (full : Bool)
      (f : Filter σ)
      → (cfg.exact && cfg.rewrite_no) ≡ false
      → IsConsistent st
      → st.pending ≡ s ∷ rest
      → filter_segment backend sampling cfg wait s st.buffer st.filter ≡ some (s', b, full, f)
      → Filtered s (chunks_of rest) st.filter s' b f × IsConsistent (filtered st rest b f)
  outcome st s s' rest b full f plain k pending e =
      let (s₁, b₁, f₁, gives, t, c) = filters-IsConsistent st s rest plain k pending in
      let same : ◌≡◌ {A = Option (List Chunk × IndexBuffer × Bool × Filter σ)}
          (some (s₁, b₁, reaches b₁.chunk_num wait, f₁)) (some (s', b, full, f)) =
        sym gives ∙ e in
      let es : s₁ ≡ s' = ground (arith, same) in
      let eb : b₁ ≡ b = ground (arith, same) in
      let ef : f₁ ≡ f = ground (arith, same) in
      subst
        (λ (x : List Chunk).
          Filtered s (chunks_of rest) st.filter x b f × IsConsistent (filtered st rest b f))
        es
        (subst
          (λ (x : IndexBuffer).
            Filtered s (chunks_of rest) st.filter s₁ x f × IsConsistent (filtered st rest x f))
          eb
          (subst
            (λ (x : Filter σ).
              Filtered s (chunks_of rest) st.filter s₁ b₁ x × IsConsistent (filtered st rest b₁ x))
            ef (t, c)))

  pub Step-IsConsistent :
      {st st' : System σ}
      → (cfg.exact && cfg.rewrite_no) ≡ false
      → IsConsistent st
      → Step backend sampling cfg start wait st st'
      → IsConsistent st'
  unfolding looked_up index_of
  Step-IsConsistent plain k (Step.looks_up st s s' ix inputs room e) =
      let a : Agrees backend promises start st.filter.container_buffer st.filter.written k.opened ix
          (chunks_of st.pending ++ s') =
        index_lookup_base-Agrees backend promises start st.filter.container_buffer st.filter.written
          k.opened s s' (chunks_of st.pending) (index_of st) ix
          (record { buffered = k.buffered; sound = k.sound }) inputs e in
      record {
        opened = k.opened;
        valid = k.valid;
        buffered =
            subst (Buffered st.filter.container_buffer st.filter.written ix.buffer)
              (sym (chunks_of-snoc st.pending s')) a.buffered;
        sound = a.sound;
      }
  Step-IsConsistent plain k (Step.rewrites st p m) = record {
    opened = k.opened;
    valid = k.valid;
    buffered =
        marked-Buffered st.filter.container_buffer st.filter.written st.buffer
          (chunks_of-AllMarked m) k.buffered;
    sound = k.sound;
  }
  Step-IsConsistent plain k (Step.filters st s s' rest b full f pending e) =
      (outcome st s s' rest b full f plain k pending e).1

  pub Reach-IsConsistent :
      {from st : System σ}
      → (cfg.exact && cfg.rewrite_no) ≡ false
      → IsConsistent from
      → Reach backend sampling cfg start wait from st
      → IsConsistent st
  Reach-IsConsistent plain k Reach.at_start = k
  Reach-IsConsistent plain k (Reach.steps r s) =
      Step-IsConsistent plain (Reach-IsConsistent plain k r) s
