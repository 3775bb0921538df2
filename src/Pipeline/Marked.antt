-- ===== src/Pipeline/Marked.antt =====
-- Chunks whose flags the rewriting phase changes (rewrite_phase.c), in the index buffer and in the filter phase.
use destor_lt.Prelude.{
  ℕ, ◌≡◌, refl, sym, ◌∙◌, ap, arith, Bool, true, Option, none, List, [], ◌∷◌, ◌++◌, All, ℤ,
  append_assoc, append-nil, lookup,
}
use destor_lt.Chunk.{Chunk}
use destor_lt.Storage.Container.{Container}
use destor_lt.RestoreAware.{init_restore_aware}
use destor_lt.Gc.{init_id_shift}
use destor_lt.Index.{IndexBuffer, empty_buffer, queue_of}
use destor_lt.Index.Counts.{count, total, has_id}
use destor_lt.Index.Order.{is_duplicate}
use destor_lt.Judge.Located.{containers_of, open_has}
use destor_lt.Judge.Loop.{pass, learn, Ready, AllKept, kept_nil, kept_cons, IsPlaced}
use destor_lt.Pipeline.Buffered.{Buffered, count-AllKept, total-AllKept}
use destor_lt.Pipeline.Runs.{
  System, AllMarked, marked_nil, marked_cons, SegmentsMarked, no_segments, more_segments, chunks_of,
}

-- The start of a backup, with the containers of earlier ones and a restore cache of a size.
abbrev pub first_system : {σ : Type 0} → List Container → ℕ → σ → ℤ → System σ
first_system written container_count behind restore_cache = record {
  pending = [];
  buffer = empty_buffer;
  marks = init_id_shift;
  lookup_requests = 0;
  lookup_requests_for_unique = 0;
  filter = record {
    container_buffer = none;
    chunks = [];
    container_count = container_count;
    written = written;
    behind = behind;
    recently_unique_chunks = [];
    recently_rewritten_chunks = [];
    enable_rewrite = true;
    monitor = init_restore_aware restore_cache;
    har_calls = [];
    unique_chunk_num = 0;
    unique_data_size = 0;
    rewritten_chunk_num = 0;
    rewritten_chunk_size = 0;
  };
}

pub chunks_of-snoc :
    (ss : List (List Chunk)) (s : List Chunk) → chunks_of (ss ++ s ∷ []) ≡ chunks_of ss ++ s
unfolding chunks_of
chunks_of-snoc [] s = append-nil s
chunks_of-snoc (t ∷ ss) s =
    ap (λ l. t ++ l) (chunks_of-snoc ss s) ∙ sym (append_assoc t (chunks_of ss) s)

append-AllMarked :
    {s t u v : List Chunk} → AllMarked s t → AllMarked u v → AllMarked (s ++ u) (t ++ v)
append-AllMarked marked_nil b = b
append-AllMarked (marked_cons m a) b = marked_cons m (append-AllMarked a b)

pub chunks_of-AllMarked :
    {ss ts : List (List Chunk)} → SegmentsMarked ss ts → AllMarked (chunks_of ss) (chunks_of ts)
unfolding chunks_of
chunks_of-AllMarked no_segments = marked_nil
chunks_of-AllMarked (more_segments a m) = append-AllMarked a (chunks_of-AllMarked m)

marked-AllKept : {s t : List Chunk} → AllMarked s t → AllKept s t
marked-AllKept marked_nil = kept_nil
marked-AllKept (marked_cons m a) = kept_cons m.kept (marked-AllKept a)

IsPlaced-AllMarked :
    {s t : List Chunk} (cs : List Container)
    → AllMarked s t
    → All (IsPlaced cs) s
    → All (IsPlaced cs) t
IsPlaced-AllMarked cs marked_nil p = tt
IsPlaced-AllMarked cs (marked_cons {c} {d} m a) p =
    ((rw (m.kept.size) p.0.0, rw (m.kept.fp, m.id) p.0.1), IsPlaced-AllMarked cs a p.1)

Ready-AllKept :
    {s t : List Chunk} (seen seen' known known' : ℕ → Bool)
    → ((fp : ℕ) → seen' fp ≡ seen fp)
    → ((fp : ℕ) → known' fp ≡ known fp)
    → AllKept s t
    → Ready is_duplicate seen known s
    → Ready is_duplicate seen' known' t
Ready-AllKept seen seen' known known' e f kept_nil r = tt
Ready-AllKept seen seen' known known' e f (kept_cons {c} {d} k a) r = (
  λ normal.
      let (u, v) = r.0 (sym k.signal ∙ normal) in
      (
        λ h. e d.fp ∙ rw (k.fp) (u (sym k.duplicate ∙ h)),
        λ h. f d.fp ∙ rw (k.fp) (v (sym k.duplicate ∙ h)),
      ),
  Ready-AllKept (pass c seen) (pass d seen') (learn c known) (learn d known')
      (λ fp. ground (arith, e fp, k.fp, k.signal))
      (λ fp. ground (arith, f fp, k.fp, k.signal, k.duplicate)) a r.1,
)

pub marked-Buffered :
    (o : Option Container) (w : List Container) (b : IndexBuffer) {p q : List Chunk}
    → AllMarked p q
    → Buffered o w b p
    → Buffered o w b q
marked-Buffered o w b m u =
    let k = marked-AllKept m in
    record {
      counted = λ fp. omega (arith, u.counted fp, count-AllKept fp k);
      all_counted = omega (arith, u.all_counted, total-AllKept k);
      distinct = u.distinct;
      heads = u.heads;
      placed = IsPlaced-AllMarked (containers_of o w) m u.placed;
      ready =
          Ready-AllKept (open_has o) (open_has o) (has_id b) (has_id b) (λ fp. refl) (λ fp. refl) k
            u.ready;
    }

pub first-Buffered : (w : List Container) → Buffered none w empty_buffer (chunks_of [])
unfolding empty_buffer queue_of count total chunks_of lookup
first-Buffered w = record {
  counted = λ fp. refl;
  all_counted = refl;
  distinct = tt;
  heads = λ fp. tt;
  placed = tt;
  ready = tt;
}
