-- ===== src/Pipeline/Filtered.antt =====
-- The filter phase on the oldest segment.
use destor_lt.Prelude.{
  ℕ, ◌≡◌, refl, sym, ◌∙◌, arith, Bool, false, ◌&&◌, some, List, [], ◌++◌, inl, inr, lookup, All, ℤ,
}
use destor_lt.Chunk.{Chunk}
use destor_lt.Lru.Bounds.{IsValid}
use destor_lt.Index.{
  IndexBuffer, queue_of, index_check_buffer, index_update_chunks, index_update_buffer, reaches,
}
use destor_lt.Index.Behind.{Backend}
use destor_lt.Index.Counts.{count, total, count-append, total-append, head_id, has_id}
use destor_lt.Index.Order.{is_duplicate, Ready-append, Ready-mono, learns-cases, passes-AllKept}
use destor_lt.Index.Check.{Heads, index_check_buffer-Ready}
use destor_lt.Index.Update.{Updated, index_update_chunks-Updated}
use destor_lt.Judge.{Config, Filter, judge_chunks, filter_segment}
use destor_lt.Judge.Located.{open_has, IsOpen}
use destor_lt.Judge.Room.{all_of, Keeps}
use destor_lt.Judge.Settled.{Judging}
use destor_lt.Judge.Loop.{
  passes, learns, Ready, AllKept, IsNamed, Loop, judge_chunks-Loop, keep-IsLocated, keep-IsPlaced,
}
use destor_lt.Pipeline.Buffered.{Buffered, All-split, AllKept-trans, count-AllKept, total-AllKept}

-- What the filter phase makes of a segment in front of others.
pub record Filtered {σ : Type 0} (s rest : List Chunk) (f : Filter σ) (s' : List Chunk)
    (b' : IndexBuffer) (f' : Filter σ) : Type 0 where
  pub kept : AllKept s s'
  pub named : All (IsNamed (all_of f')) s'
  pub keeps : Keeps f f'
  pub buffered : Buffered f'.container_buffer f'.written b' rest
  pub opened : IsOpen f'.container_buffer
  pub valid : IsValid f'.monitor.cache

-- The loop starts with fresh tables.
abbrev pub with_fresh_tables : {σ : Type 0} → Filter σ → Filter σ
with_fresh_tables f = record f { recently_unique_chunks = []; recently_rewritten_chunks = [] }

keep-Heads :
    {σ : Type 0} (f g : Filter σ) (b : IndexBuffer)
    → Keeps f g
    → Heads (all_of f) b
    → Heads (all_of g) b
keep-Heads f g b k h fp = keep-IsLocated f g k fp (head_id (queue_of fp b)) (h fp)

fresh-Judging :
    {σ : Type 0} (f : Filter σ)
    → IsOpen f.container_buffer
    → IsValid f.monitor.cache
    → Judging (with_fresh_tables f)
unfolding lookup
fresh-Judging f o v = record {
  opened = o;
  unique = λ fp x h. absurd (ground (arith, h));
  rewritten = λ fp x h. absurd (ground (arith, h));
  valid = v;
}

rest-Ready :
    {σ : Type 0} (s rest s₁ s₂ : List Chunk) (b b' : IndexBuffer) (f f' : Filter σ)
    → Ready is_duplicate (open_has f.container_buffer) (has_id b) (s ++ rest)
    → AllKept s s₁
    → Loop (with_fresh_tables f) s₁ (open_has f.container_buffer) s₂ f'
    → Updated (all_of f') s₂ (λ fp. count fp rest) (total rest) b b'
    → Ready is_duplicate (open_has f'.container_buffer) (has_id b') rest
rest-Ready s rest s₁ s₂ b b' f f' r k l w =
    let seen = open_has f.container_buffer in
    Ready-mono is_duplicate rest (passes s seen) (learns s (has_id b))
      (open_has f'.container_buffer) (has_id b')
      (λ fp n h. sym (passes-AllKept seen seen fp (λ j. refl) k) ∙ l.held fp h)
      (λ fp n h. w.named fp n (elim (learns-cases s (has_id b) fp h) [
        | inl e ↦ inl e
        | inr m ↦ inr (omega (arith, m, count-AllKept fp (AllKept-trans k l.kept)))
      ]))
      (Ready-append is_duplicate s rest seen (has_id b) r).1

looped-Filtered :
    {σ : Type 0} (s rest s₁ s₂ : List Chunk) (b : IndexBuffer) (f f' : Filter σ)
    → Buffered f.container_buffer f.written b (s ++ rest)
    → AllKept s s₁
    → Loop (with_fresh_tables f) s₁ (open_has f.container_buffer) s₂ f'
    → (b' : IndexBuffer) × (index_update_chunks s₂ b ≡ some b') × Filtered s rest f s₂ b' f'
looped-Filtered s rest s₁ s₂ b f f' u k₁ l =
    let k = AllKept-trans k₁ l.kept in
    let (b', e, w) =
      index_update_chunks-Updated (all_of f') s₂ b (λ fp. count fp rest) (total rest) u.distinct
        (λ fp. omega (arith, u.counted fp, count-append fp s rest, count-AllKept fp k))
        (omega (arith, u.all_counted, total-append s rest, total-AllKept k)) l.named
        (keep-Heads f f' b l.keeps u.heads) in
    (
      b',
      e,
      record {
        kept = k;
        named = l.named;
        keeps = l.keeps;
        buffered = record {
          counted = w.left;
          all_counted = w.all_left;
          distinct = w.distinct;
          heads = w.heads;
          placed = keep-IsPlaced f f' l.keeps rest (All-split _ s rest u.placed).1;
          ready = rest-Ready s rest s₁ s₂ b b' f f' u.ready k₁ l w;
        };
        opened = l.state.opened;
        valid = l.state.valid;
      },
    )

module _ {σ : Type 0} (backend : Backend σ) (sampling : List ℕ → List ℕ) (cfg : Config) where
  filter_steps :
      (wait : ℤ) (s s₁ s₂ : List Chunk) (b b' : IndexBuffer) (f f' : Filter σ)
      → index_check_buffer b s ≡ some s₁
      → judge_chunks backend sampling cfg s₁
          (record f { recently_unique_chunks = []; recently_rewritten_chunks = [] })
        ≡ some (s₂, f')
      → index_update_chunks s₂ b ≡ some b'
      → filter_segment backend sampling cfg wait s b f
        ≡ some (s₂, b', reaches b'.chunk_num wait, f')
  unfolding filter_segment index_update_buffer
  filter_steps wait s s₁ s₂ b b' f f' e₁ e₂ e₃ =
      rw (filter_segment, index_update_buffer, e₁, e₂, e₃) refl

  pub filter_segment-Filtered :
      (wait : ℤ) (s rest : List Chunk) (b : IndexBuffer) (f : Filter σ)
      → (cfg.exact && cfg.rewrite_no) ≡ false
      → Buffered f.container_buffer f.written b (s ++ rest)
      → IsOpen f.container_buffer
      → IsValid f.monitor.cache
      → (s' : List Chunk) × (b' : IndexBuffer) × (f' : Filter σ) × (filter_segment backend sampling
            cfg wait s b f
          ≡ some (s', b', reaches b'.chunk_num wait, f'))
        × Filtered s rest f s' b' f'
  filter_segment-Filtered wait s rest b f plain u o v =
      let seen : ℕ → Bool = open_has f.container_buffer in
      let none_known : ℕ → Bool = λ fp. false in
      let (s₁, e₁, k₁, p₁, r₁) =
        index_check_buffer-Ready (all_of f) b s seen seen (has_id b) none_known
          (λ fp. omega (arith, u.counted fp, count-append fp s rest)) u.heads
          (All-split _ s rest u.placed).0 (λ fp. refl) (λ fp e h. absurd (ground (arith, e, h)))
          (Ready-append is_duplicate s rest seen (has_id b) u.ready).0 in
      let (s₂, f', e₂, l) =
        judge_chunks-Loop backend sampling cfg s₁ (with_fresh_tables f) seen none_known
          (fresh-Judging f o v) (λ fp h. h) (λ fp h. absurd (ground (arith, h))) r₁ p₁ plain in
      let (b', e₃, w) = looped-Filtered s rest s₁ s₂ b f f' u k₁ l in
      (s₂, b', f', filter_steps wait s s₁ s₂ b b' f f' e₁ e₂ e₃, w)
