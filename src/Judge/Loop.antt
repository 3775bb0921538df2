-- ===== src/Judge/Loop.antt =====
-- The loop of filter_phase.c over a segment.
use destor_lt.Prelude.{
  ℕ, ◌≤◌, ◌≡◌, refl, arith, Bool, true, false, not, ◌&&◌, ◌||◌, none, some, List, [], ◌∷◌, ◌==◌,
  Bool-cases, inl, inr, All,
}
use destor_lt.Chunk.{Chunk, ContainerId, is_file_signal}
use destor_lt.Storage.Container.{Container}
use destor_lt.Index.{is_temporary}
use destor_lt.Index.Behind.{Backend}
use destor_lt.Judge.{Config, Filter, judge_chunk, judge_chunks}
use destor_lt.Judge.Located.{located, open_has, IsLocated, capacity}
use destor_lt.Judge.Room.{all_of, Keeps}
use destor_lt.Judge.Settled.{knows, Judging, Kept, Judged}
use destor_lt.Judge.Step.{judge_chunk-Judged}

-- The fingerprints seen, and those known to have an id, behind a chunk.
abbrev pub pass : Chunk → (ℕ → Bool) → ℕ → Bool
pass c seen fp = seen fp || (not (is_file_signal c) && (c.fp == fp))

abbrev pub learn : Chunk → (ℕ → Bool) → ℕ → Bool
learn c known fp = known fp || (not (is_file_signal c) && (not c.flag.duplicate && (c.fp == fp)))

abbrev pub passes : List Chunk → (ℕ → Bool) → ℕ → Bool
passes [] seen = seen
passes (c ∷ cs) seen = passes cs (pass c seen)

abbrev pub learns : List Chunk → (ℕ → Bool) → ℕ → Bool
learns [] known = known
learns (c ∷ cs) known = learns cs (learn c known)

-- A unique chunk is the first with its fingerprint; a chunk that needs it finds its fingerprint known.
abbrev pub IsReady : (Chunk → Bool) → (ℕ → Bool) → (ℕ → Bool) → Chunk → Type 0
IsReady needs seen known c =
    is_file_signal c ≡ false
    → (c.flag.duplicate ≡ false → seen c.fp ≡ false) × (needs c ≡ true → known c.fp ≡ true)

abbrev pub Ready : (Chunk → Bool) → (ℕ → Bool) → (ℕ → Bool) → List Chunk → Type 0
Ready needs seen known [] = Unit
Ready needs seen known (c ∷ cs) =
    IsReady needs seen known c × Ready needs (pass c seen) (learn c known) cs

-- A copy of a chunk that had no id when it was looked up.
abbrev pub is_copy : Chunk → Bool
is_copy c = c.flag.duplicate && is_temporary c.id

pub data AllKept : List Chunk → List Chunk → Type 0 where
  kept_nil : AllKept [] []
  kept_cons :
      {c d : Chunk} {cs ds : List Chunk} → Kept c d → AllKept cs ds → AllKept (c ∷ cs) (d ∷ ds)

-- A chunk of a file has the id of a container that holds it.
abbrev pub IsNamed : List Container → Chunk → Type 0
IsNamed cs c = is_file_signal c ≡ false → (id : ℕ) × (c.id ≡ some id) × (located id c.fp cs ≡ true)

-- A chunk of a file fits into a container, and its id, if it has one, is right.
abbrev pub IsPlaced : List Container → Chunk → Type 0
IsPlaced cs c = (c.size ≤ capacity) × IsLocated cs c.fp c.id

module _ {σ : Type 0} (f g : Filter σ) (k : Keeps f g) where
  pub keep-IsLocated :
      (fp : ℕ) (id : ContainerId) → IsLocated (all_of f) fp id → IsLocated (all_of g) fp id
  keep-IsLocated fp none l = tt
  keep-IsLocated fp (some id) l = k id fp l

  pub keep-IsPlaced : (s : List Chunk) → All (IsPlaced (all_of f)) s → All (IsPlaced (all_of g)) s
  keep-IsPlaced [] a = tt
  keep-IsPlaced (c ∷ s) a = ((a.0.0, keep-IsLocated c.fp c.id a.0.1), keep-IsPlaced s a.1)

-- What the loop gives.
pub record Loop {σ : Type 0} (f : Filter σ) (s : List Chunk) (seen : ℕ → Bool) (s' : List Chunk)
    (f' : Filter σ) : Type 0 where
  pub kept : AllKept s s'
  pub named : All (IsNamed (all_of f')) s'
  pub keeps : Keeps f f'
  pub state : Judging f'
  pub held : (fp : ℕ) → open_has f'.container_buffer fp ≡ true → passes s seen fp ≡ true

IsNamed-mono :
    {σ : Type 0} (f f' : Filter σ) (c c' : Chunk)
    → Judged f c f' c'
    → (g : Filter σ) → Keeps f' g
    → IsNamed (all_of g) c'
IsNamed-mono f f' c c' j g k normal = (j.id, j.named, k j.id c'.fp (rw (j.kept.fp) j.here))

or_or :
    (a b c d e : Bool) → a ≡ (b || c) → (d ≡ true → b ≡ true) → (d || (e && c)) ≡ true → a ≡ true
or_or a true c d e eq f h = ground (arith, eq)
or_or a false true d e eq f h = ground (arith, eq)
or_or a false false true e eq f h = absurd (ground (arith, f refl))
or_or a false false false e eq f h = absurd (ground (arith, h))

or_pass :
    (b c d e : Bool)
    → e ≡ false
    → (b ≡ true → d ≡ true)
    → (b || c) ≡ true
    → (d || (not e && c)) ≡ true
or_pass true c d e n f h = rw (f refl) refl
or_pass false true d e n f h = ground (arith, n)
or_pass false false d e n f h = absurd (ground (arith, h))

or_left : (a b d : Bool) → d ≡ true → (a || (not d && b)) ≡ true → a ≡ true
or_left true b d s h = refl
or_left false b d s h = absurd (ground (arith, s, h))

not_open :
    {σ : Type 0} (fp : ℕ) (f : Filter σ) (seen : ℕ → Bool)
    → (open_has f.container_buffer fp ≡ true → seen fp ≡ true)
    → seen fp ≡ false
    → open_has f.container_buffer fp ≡ false
not_open fp f seen o h = elim (Bool-cases (open_has f.container_buffer fp)) [
  | inl there ↦ absurd (ground (arith, o there, h))
  | inr absent ↦ absent
]

module _ {σ : Type 0} (backend : Backend σ) (sampling : List ℕ → List ℕ) (cfg : Config) where
  judge_signal :
      (c : Chunk) (f : Filter σ)
      → is_file_signal c ≡ true
      → judge_chunk backend sampling cfg c f ≡ some (c, f)
  unfolding judge_chunk
  judge_signal c f h = rw (judge_chunk, h) refl

  judge_chunks_cons :
      (c c' : Chunk) (s s' : List Chunk) (f f₁ f₂ : Filter σ)
      → judge_chunk backend sampling cfg c f ≡ some (c', f₁)
      → judge_chunks backend sampling cfg s f₁ ≡ some (s', f₂)
      → judge_chunks backend sampling cfg (c ∷ s) f ≡ some (c' ∷ s', f₂)
  unfolding judge_chunks
  judge_chunks_cons c c' s s' f f₁ f₂ e₁ e₂ = rw (judge_chunks, e₁, e₂) refl

  pub judge_chunks-Loop :
      (s : List Chunk) (f : Filter σ) (seen known : ℕ → Bool)
      → Judging f
      → ((fp : ℕ) → open_has f.container_buffer fp ≡ true → seen fp ≡ true)
      → ((fp : ℕ) → known fp ≡ true → knows f.recently_unique_chunks fp ≡ true)
      → Ready is_copy seen known s
      → All (IsPlaced (all_of f)) s
      → (cfg.exact && cfg.rewrite_no) ≡ false
      → (s' : List Chunk) × (f' : Filter σ) × (judge_chunks backend sampling cfg s f
          ≡ some (s', f'))
        × Loop f s seen s' f'
  unfolding judge_chunks
  judge_chunks-Loop [] f seen known g o n r a plain = (
    [],
    f,
    refl,
    record { kept = kept_nil; named = tt; keeps = λ i fp l. l; state = g; held = o },
  )
  judge_chunks-Loop (c ∷ s) f seen known g o n r a plain = elim (Bool-cases (is_file_signal c)) [
    | inl signal ↦
        let (s', f', e, l) =
          judge_chunks-Loop s f (pass c seen) (learn c known) g (λ fp h. ground (arith, o fp h))
            (λ fp h. n fp (
              or_left (known fp) (not c.flag.duplicate && (c.fp == fp)) (is_file_signal c) signal
                h))
            r.1 a.1 plain in
        (
          c ∷ s',
          f',
          judge_chunks_cons c c s s' f f f' (judge_signal c f signal) e,
          record {
            kept =
                kept_cons (record { fp = refl; duplicate = refl; signal = refl; size = refl })
                  l.kept;
            named = (λ h. absurd (ground (arith, h, signal)), l.named);
            keeps = l.keeps;
            state = l.state;
            held = l.held;
          },
        )
    | inr normal ↦
        let (unique, copy) = r.0 normal in
        let (c', f₁, e₁, j) =
          judge_chunk-Judged backend sampling cfg f c g normal a.0.1 (λ h. n c.fp (copy h)) plain
            a.0.0 (λ h. not_open c.fp f seen (o c.fp) (unique h)) in
        let (s', f', e, l) =
          judge_chunks-Loop s f₁ (pass c seen) (learn c known) j.state
            (λ fp h.
              or_pass (open_has f.container_buffer fp) (c.fp == fp) (seen fp) (is_file_signal c)
                normal (o fp) (j.held fp h))
            (λ fp h.
              or_or (knows f₁.recently_unique_chunks fp) (knows f.recently_unique_chunks fp)
                (not c.flag.duplicate && (c.fp == fp)) (known fp) (not (is_file_signal c))
                (j.known fp) (n fp) h)
            r.1 (keep-IsPlaced f f₁ j.keeps s a.1) plain in
        (
          c' ∷ s',
          f',
          judge_chunks_cons c c' s s' f f₁ f' e₁ e,
          record {
            kept = kept_cons j.kept l.kept;
            named = (IsNamed-mono f f₁ c c' j f' l.keeps, l.named);
            keeps = λ i fp h. l.keeps i fp (j.keeps i fp h);
            state = l.state;
            held = l.held;
          },
        )
  ]
