-- ===== src/Index/Order.antt =====
-- What the index buffer (index/index.c) says of the chunks that are looked up and not updated yet.
use destor_lt.Prelude.{
  ℕ, ◌<◌, ◌≡◌, refl, subst, arith, Bool, true, false, not, ◌&&◌, ◌||◌, List, [], ◌∷◌, ◌++◌, ◌==◌,
  Bool-cases, inl, inr, ◌⊎◌,
}
use destor_lt.Chunk.{Chunk, is_file_signal}
use destor_lt.Index.Counts.{is_with, count, count-cons, count_self}
use destor_lt.Judge.Loop.{pass, learn, passes, learns, IsReady, Ready, AllKept, kept_nil, kept_cons}

abbrev pub is_duplicate : Chunk → Bool
is_duplicate c = c.flag.duplicate

pub Ready-append :
    (needs : Chunk → Bool) (s t : List Chunk) (seen known : ℕ → Bool)
    → Ready needs seen known (s ++ t)
    → Ready needs seen known s × Ready needs (passes s seen) (learns s known) t
Ready-append needs [] t seen known r = (tt, r)
Ready-append needs (c ∷ s) t seen known r =
    let (a, b) = Ready-append needs s t (pass c seen) (learn c known) r.1 in ((r.0, a), b)

pub Ready-snoc :
    (needs : Chunk → Bool) (s : List Chunk) (c : Chunk) (seen known : ℕ → Bool)
    → Ready needs seen known s
    → IsReady needs (passes s seen) (learns s known) c
    → Ready needs seen known (s ++ c ∷ [])
Ready-snoc needs [] c seen known r i = (i, tt)
Ready-snoc needs (d ∷ s) c seen known r i =
    (r.0, Ready-snoc needs s c (pass d seen) (learn d known) r.1 i)

-- Only what is seen and known of the list's own fingerprints matters.
-- A disjunction whose left side is passed on.
pub or_left : (a b c : Bool) → (a ≡ true → b ≡ true) → (a || c) ≡ true → (b || c) ≡ true
or_left true b c f h = rw (f refl) refl
or_left false true c f h = refl
or_left false false c f h = h

pub false_of : (a b : Bool) → (a ≡ true → b ≡ true) → b ≡ false → a ≡ false
false_of true b f h = absurd (ground (arith, f refl, h))
false_of false b f h = refl

pub Ready-mono :
    (needs : Chunk → Bool) (s : List Chunk) (seen known seen' known' : ℕ → Bool)
    → ((fp : ℕ) → 0 < count fp s → seen' fp ≡ true → seen fp ≡ true)
    → ((fp : ℕ) → 0 < count fp s → known fp ≡ true → known' fp ≡ true)
    → Ready needs seen known s
    → Ready needs seen' known' s
unfolding count
Ready-mono needs [] seen known seen' known' f g r = tt
Ready-mono needs (c ∷ s) seen known seen' known' f g r = (
  λ normal.
      let here : 0 < count c.fp (c ∷ s) = omega (arith, count_self c s normal) in
      (
        λ d. false_of (seen' c.fp) (seen c.fp) (f c.fp here) ((r.0 normal).0 d),
        λ n. g c.fp here ((r.0 normal).1 n),
      ),
  Ready-mono needs s (pass c seen) (learn c known) (pass c seen') (learn c known')
      (λ fp h e.
        or_left (seen' fp) (seen fp) (is_with fp c) (f fp (omega (arith, count-cons fp c s))) e)
      (λ fp h e.
        or_left (known fp) (known' fp)
          (not (is_file_signal c) && (not c.flag.duplicate && (c.fp == fp)))
          (g fp (omega (arith, count-cons fp c s))) e)
      r.1,
)

pub passes-cases :
    (s : List Chunk) (seen : ℕ → Bool) (fp : ℕ)
    → passes s seen fp ≡ true
    → (seen fp ≡ true) ⊎ (0 < count fp s)
unfolding count
passes-cases [] seen fp h = inl h
passes-cases (c ∷ s) seen fp h = elim (passes-cases s (pass c seen) fp h) [
  | inl e ↦ ground (arith, e)
  | inr n ↦ inr (omega (arith, count-cons fp c s))
]

pub learns-cases :
    (s : List Chunk) (known : ℕ → Bool) (fp : ℕ)
    → learns s known fp ≡ true
    → (known fp ≡ true) ⊎ (0 < count fp s)
unfolding count
learns-cases [] known fp h = inl h
learns-cases (c ∷ s) known fp h = elim (learns-cases s (learn c known) fp h) [
  | inl e ↦ ground (arith, e)
  | inr n ↦ inr (omega (arith, count-cons fp c s))
]

pub learns_mono :
    (s : List Chunk) (known : ℕ → Bool) (fp : ℕ) → known fp ≡ true → learns s known fp ≡ true
learns_mono [] known fp h = h
learns_mono (c ∷ s) known fp h = learns_mono s (learn c known) fp (ground (arith, h))

-- Behind a chunk with a fingerprint, that is known, since the first with it is unique or known before.
pub learns-Ready :
    (s : List Chunk) (seen known : ℕ → Bool) (fp : ℕ)
    → Ready is_duplicate seen known s
    → 0 < count fp s
    → learns s known fp ≡ true
unfolding count
learns-Ready [] seen known fp r h = absurd (omega arith)
learns-Ready (c ∷ s) seen known fp r h = elim (Bool-cases (is_with fp c)) [
  | inl it ↦
      let normal : is_file_signal c ≡ false = ground (arith, it) in
      let same : c.fp ≡ fp = ground (arith, it) in
      learns_mono s (learn c known) fp (elim (Bool-cases c.flag.duplicate) [
        | inl again ↦
            let k = subst (λ (j : ℕ). known j ≡ true) same ((r.0 normal).1 again) in rw (k) refl
        | inr once ↦ ground (arith, it, once)
      ])
  | inr other ↦ learns-Ready s (pass c seen) (learn c known) fp r.1 (ground (arith, h, other))
]

pub passes-AllKept :
    {s s' : List Chunk} (seen seen' : ℕ → Bool) (fp : ℕ)
    → ((j : ℕ) → seen' j ≡ seen j)
    → AllKept s s'
    → passes s' seen' fp ≡ passes s seen fp
passes-AllKept seen seen' fp e kept_nil = e fp
passes-AllKept seen seen' fp e (kept_cons {c} {d} {cs} {ds} k a) =
    passes-AllKept (pass c seen) (pass d seen') fp (λ j. ground (arith, e j, k.fp, k.signal)) a
