-- ===== src/Judge/Step.antt =====
-- One chunk of the loop of filter_phase.c.
use destor_lt.Prelude.{
  ℕ, ◌≤◌, ◌≡◌, refl, subst, sym, ◌∙◌, ap, arith, Bool, true, false, ◌&&◌, ◌||◌, some, List, ◌∷◌,
  ◌==◌, Bool-cases, Option-cases, inl, inr,
}
use destor_lt.Chunk.{Chunk, is_file_signal}
use destor_lt.Lru.Bounds.{IsValid}
use destor_lt.RestoreAware.{Monitor}
use destor_lt.Index.{is_temporary}
use destor_lt.Index.Behind.{Backend}
use destor_lt.Judge.{
  Config, Filter, flag_cached, deny_rewritten, is_written, store_chunk, monitor_id, switch_rewrite,
  monitor_stored, judge_settled, judge_chunk,
}
use destor_lt.Judge.Located.{located, open_has, IsLocated, capacity}
use destor_lt.Judge.Room.{all_of}
use destor_lt.Judge.Placed.{Placed, store_chunk-Placed}
use destor_lt.Judge.Settled.{
  IsTable, knows, Judging, Kept, Judged, Settled, restore_aware_update-IsValid, flag_cached-Kept,
  settle_copy-Settled, deny_rewritten-Settled, knows-insert, insert-IsTable, keep-IsTable,
}

cached-Settled :
    {σ : Type 0} (f : Filter σ) (c c₁ c₂ : Chunk) → Kept c c₁ → Settled f c₁ c₂ → Settled f c c₂
cached-Settled f c c₁ c₂ k s = record {
  kept = record {
    fp = s.kept.fp ∙ k.fp;
    duplicate = s.kept.duplicate ∙ k.duplicate;
    signal = s.kept.signal ∙ k.signal;
    size = s.kept.size ∙ k.size;
  };
  place = subst (λ (fp : ℕ). IsLocated (all_of f) fp c₂.id) k.fp s.place;
  named = s.named;
}

Placed-Judged :
    {σ : Type 0} (f after : Filter σ) (c c' : Chunk) (id : ℕ) (m : Monitor) (calls : List (ℕ × ℕ))
    (enable : Bool)
    → Judging f
    → Settled f c c'
    → Placed (record f { enable_rewrite = enable }) c' id after
    → IsValid m.cache
    → Judged f c (record after { monitor = m; har_calls = calls }) (record c' { id = some id })
Placed-Judged f after c c' id m calls enable g s p v = record {
  kept = record {
    fp = s.kept.fp;
    duplicate = s.kept.duplicate;
    signal = s.kept.signal;
    size = s.kept.size;
  };
  id = id;
  named = refl;
  here = subst (λ (k : ℕ). located id k (all_of after) ≡ true) s.kept.fp p.here;
  keeps = p.keeps;
  held = λ fp h.
      subst (λ (k : ℕ). (open_has f.container_buffer fp || (k == fp)) ≡ true) s.kept.fp
        (p.held fp h);
  state = record {
    opened = p.still;
    unique = subst (IsTable (all_of after)) (sym p.unique) (elim (Bool-cases c'.flag.duplicate) [
      | inl again ↦ rw (again) (keep-IsTable f after f.recently_unique_chunks p.keeps g.unique)
      | inr once ↦ rw (once) (
          insert-IsTable (all_of after) c'.fp id f.recently_unique_chunks p.here
            (keep-IsTable f after f.recently_unique_chunks p.keeps g.unique))
    ]);
    rewritten = elim p.rewritten [
      | inl same ↦
          subst (IsTable (all_of after)) (sym same)
            (keep-IsTable f after f.recently_rewritten_chunks p.keeps g.rewritten)
      | inr put ↦ subst (IsTable (all_of after)) (sym put) (
          insert-IsTable (all_of after) c'.fp id f.recently_rewritten_chunks p.here
            (keep-IsTable f after f.recently_rewritten_chunks p.keeps g.rewritten))
    ];
    valid = v;
  };
  known = λ fp. ap (λ t. knows t fp) p.unique ∙ (elim (Bool-cases c'.flag.duplicate) [
    | inl again ↦ ground (arith, again, s.kept.duplicate)
    | inr once ↦ rw (once) (
        knows-insert fp c'.fp (some id) f.recently_unique_chunks
        ∙ ground (arith, once, s.kept.duplicate, s.kept.fp))
  ]);
}

module _ {σ : Type 0} (backend : Backend σ) (sampling : List ℕ → List ℕ) (cfg : Config) where
  -- The monitors see a chunk that has its id.
  monitored-Judged :
      (f h : Filter σ) (c c' : Chunk) (id : ℕ)
      → c'.id ≡ some id
      → IsValid h.monitor.cache
      → ((m : Monitor) (calls : List (ℕ × ℕ))
          → IsValid m.cache
          → Judged f c (record h { monitor = m; har_calls = calls }) c')
      → (f' : Filter σ) × (monitor_stored backend sampling cfg (some (c', h)) ≡ some (c', f'))
        × Judged f c f' c'
  unfolding monitor_stored monitor_id
  monitored-Judged f h c c' id named valid judged =
      let (m, e, v) = restore_aware_update-IsValid h.monitor id c'.size valid in
      (
        record h { monitor = m; har_calls = (id, c'.size) ∷ h.har_calls },
        ap (λ i. monitor_id backend sampling cfg i c' h) named ∙ rw (monitor_id, e) refl,
        judged m ((id, c'.size) ∷ h.har_calls) v,
      )

  -- A chunk that is not written is a duplicate with an id.
  left-Judged :
      (f : Filter σ) (c c' : Chunk) (enable : Bool)
      → Judging f
      → Settled f c c'
      → is_written enable c' ≡ false
      → (f' : Filter σ) × (monitor_stored backend sampling cfg
            (some (c', record f { enable_rewrite = enable }))
          ≡ some (c', f'))
        × Judged f c f' c'
  unfolding is_written
  left-Judged f c c' enable g s left =
      let again : c'.flag.duplicate ≡ true = ground (arith, left) in
      elim (Option-cases c'.id) [
        | inl open_id ↦ absurd (ground (arith, open_id, s.named again))
        | inr (id, named) ↦
            monitored-Judged f (record f { enable_rewrite = enable }) c c' id named g.valid
              (λ m calls v. record {
                kept = s.kept;
                id = id;
                named = named;
                here = subst (IsLocated (all_of f) c.fp) named s.place;
                keeps = λ i fp l. l;
                held = λ fp h. ground (arith, h);
                state = record {
                  opened = g.opened;
                  unique = g.unique;
                  rewritten = g.rewritten;
                  valid = v;
                };
                known = λ fp. ground (arith, s.kept.duplicate, again);
              })
      ]

  written-Judged :
      (f : Filter σ) (c c' : Chunk) (enable : Bool)
      → Judging f
      → Settled f c c'
      → (cfg.exact && cfg.rewrite_no) ≡ false
      → c.size ≤ capacity
      → (c.flag.duplicate ≡ false → open_has f.container_buffer c.fp ≡ false)
      → (c'' : Chunk) × (f' : Filter σ) × (monitor_stored backend sampling cfg
            (store_chunk backend sampling cfg c' (record f { enable_rewrite = enable }))
          ≡ some (c'', f'))
        × Judged f c f' c''
  written-Judged f c c' enable g s plain fits fresh =
      let (id, after, e, p) =
        store_chunk-Placed backend sampling cfg c' (record f { enable_rewrite = enable }) plain
          (rw (s.kept.size) fits) g.opened
          (λ d. rw (s.kept.fp) (fresh (rw (← s.kept.duplicate) d))) in
      let (f', e', j) =
        monitored-Judged f after c (record c' { id = some id }) id refl
          (subst (λ (m : Monitor). IsValid m.cache) (sym p.monitored) g.valid)
          (λ m calls v. Placed-Judged f after c c' id m calls enable g s p v) in
      (record c' { id = some id }, f', ap (monitor_stored backend sampling cfg) e ∙ e', j)

  pub judge_chunk-Judged :
      (f : Filter σ) (c : Chunk)
      → Judging f
      → is_file_signal c ≡ false
      → IsLocated (all_of f) c.fp c.id
      → ((c.flag.duplicate && is_temporary c.id) ≡ true
          → knows f.recently_unique_chunks c.fp ≡ true)
      → (cfg.exact && cfg.rewrite_no) ≡ false
      → c.size ≤ capacity
      → (c.flag.duplicate ≡ false → open_has f.container_buffer c.fp ≡ false)
      → (c' : Chunk) × (f' : Filter σ) × (judge_chunk backend sampling cfg c f ≡ some (c', f'))
        × Judged f c f' c'
  unfolding judge_chunk judge_settled
  judge_chunk-Judged f c g normal place copy plain fits fresh =
      let (k, same_id) = flag_cached-Kept cfg f.monitor c in
      let (c₁, e₁, s₁) =
        settle_copy-Settled f (flag_cached cfg f.monitor c) g (rw (k.fp, same_id) place)
          (rw (k.fp, k.duplicate, same_id) copy) in
      let enable = switch_rewrite cfg f.monitor f.enable_rewrite in
      let f₁ : Filter σ = record f { enable_rewrite = enable } in
      let c₂ = deny_rewritten f.recently_rewritten_chunks c₁ in
      let s₂ : Settled f c c₂ =
        cached-Settled f c (flag_cached cfg f.monitor c) c₂ k
          (deny_rewritten-Settled f (flag_cached cfg f.monitor c) c₁ g s₁) in
      let gives : judge_chunk backend sampling cfg c f
          ≡ judge_settled backend sampling cfg (some c₁) f₁ =
        rw (judge_chunk, normal) (ap (λ o. judge_settled backend sampling cfg o f₁) e₁) in
      elim (Bool-cases (is_written enable c₂)) [
        | inl yes_written ↦
            let (c₃, f', e, j) = written-Judged f c c₂ enable g s₂ plain fits fresh in
            (c₃, f', gives ∙ (rw (judge_settled, yes_written) refl ∙ e), j)
        | inr not_written ↦
            let (f', e, j) = left-Judged f c c₂ enable g s₂ not_written in
            (c₂, f', gives ∙ (rw (judge_settled, not_written) refl ∙ e), j)
      ]
