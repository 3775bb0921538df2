-- ===== src/Index/Update.antt =====
-- The update of the buffer that index/index.c makes for a segment once its chunks have their ids.
use destor_lt.Prelude.{
  ℕ, suc, ◌+◌, ◌-◌, ◌<◌, ◌≡◌, refl, subst, sym, ◌∙◌, ap, arith, true, false, not, some, List, [],
  ◌∷◌, ◌==◌, if◌then◌else◌, Bool-cases, inl, inr, ◌⊎◌, length, map, All, Distinct,
}
use destor_lt.Chunk.{Chunk, ContainerId, is_file_signal}
use destor_lt.Storage.Container.{Container}
use destor_lt.Index.{
  IndexElem, IndexBuffer, queue_of, is_temporary, update_chunk, index_update_chunks, with_id,
}
use destor_lt.Index.Counts.{
  is_with, count, total, head_id, rest_of, has_id, Popped, update_chunk-Popped, length-map,
}
use destor_lt.Judge.Located.{located, IsLocated}
use destor_lt.Judge.Loop.{IsNamed}
use destor_lt.Index.Check.{Heads}

-- Behind a chunk's update every element of its queue has its id.
updated_head :
    (id : ℕ) (q : List IndexElem) → 0 < length q → head_id (map (with_id (some id)) q) ≡ some id
updated_head id [] h = absurd (ground (arith, h))
updated_head id (x ∷ q) h = refl

length-rest_of : (q : List IndexElem) → length (rest_of q) ≡ length q - 1
length-rest_of [] = omega arith
length-rest_of (x ∷ q) = omega arith

updated-IsLocated :
    (cs : List Container) (fp id : ℕ) (q : List IndexElem)
    → located id fp cs ≡ true
    → IsLocated cs fp (head_id (map (with_id (some id)) q))
updated-IsLocated cs fp id [] h = tt
updated-IsLocated cs fp id (x ∷ q) h = h

signal_update : (c : Chunk) (b : IndexBuffer) → is_file_signal c ≡ true → update_chunk c b ≡ some b
unfolding update_chunk
signal_update c b signal = rw (update_chunk, signal) refl

module _ (cs : List Container) (c : Chunk) (b b₁ : IndexBuffer) (p : Popped c b b₁) (id : ℕ)
    (named : c.id ≡ some id) where
  queue_at : queue_of c.fp b₁ ≡ map (with_id (some id)) (rest_of (queue_of c.fp b))
  queue_at = p.queue c.fp ∙ ground (arith, named)

  queue_other : (fp : ℕ) → (c.fp == fp) ≡ false → queue_of fp b₁ ≡ queue_of fp b
  queue_other fp other = p.queue fp ∙ rw (other) refl

  popped_length :
      (fp k : ℕ)
      → length (queue_of fp b) ≡ (if c.fp == fp then suc k else k)
      → length (queue_of fp b₁) ≡ k
  popped_length fp k h = elim (Bool-cases (c.fp == fp)) [
    | inl it ↦
        let same : c.fp ≡ fp = ground (arith, it) in
        let at : length (queue_of c.fp b) ≡ suc k = rw (same) (ground (arith, h, it)) in
        let l : length (queue_of c.fp b₁) ≡ length (queue_of c.fp b) - 1 =
          ap length queue_at
          ∙ (length-map (with_id (some id)) (rest_of (queue_of c.fp b))
              ∙ length-rest_of (queue_of c.fp b)) in
        subst (λ (j : ℕ). length (queue_of j b₁) ≡ k) same (omega (arith, l, at))
    | inr other ↦ ap length (queue_other fp other) ∙ ground (arith, h, other)
  ]

  popped_id :
      (fp : ℕ)
      → 0 < length (queue_of fp b₁)
      → (has_id b fp ≡ true) ⊎ ((c.fp == fp) ≡ true)
      → has_id b₁ fp ≡ true
  popped_id fp n h = elim (Bool-cases (c.fp == fp)) [
    | inl it ↦
        let same : c.fp ≡ fp = ground (arith, it) in
        let left : 0 < length (rest_of (queue_of c.fp b)) = omega (
          arith,
          length-map (with_id (some id)) (rest_of (queue_of c.fp b)),
          ap length queue_at,
          subst (λ (j : ℕ). 0 < length (queue_of j b₁)) (sym same) n,
        ) in
        subst (λ (j : ℕ). has_id b₁ j ≡ true) same
          (ap (λ (q : List IndexElem). not (is_temporary (head_id q))) queue_at
            ∙ ap (λ (i : ContainerId). not (is_temporary i))
                (updated_head id (rest_of (queue_of c.fp b)) left))
    | inr other ↦ elim h [
      | inl e ↦
          ap (λ (q : List IndexElem). not (is_temporary (head_id q))) (queue_other fp other) ∙ e
      | inr it ↦ absurd (ground (arith, it, other))
    ]
  ]

  popped-Heads : located id c.fp cs ≡ true → Heads cs b → Heads cs b₁
  popped-Heads here heads fp = elim (Bool-cases (c.fp == fp)) [
    | inl it ↦
        let same : c.fp ≡ fp = ground (arith, it) in
        subst (λ (j : ℕ). IsLocated cs j (head_id (queue_of j b₁))) same
          (subst (λ (q : List IndexElem). IsLocated cs c.fp (head_id q)) (sym queue_at)
            (updated-IsLocated cs c.fp id (rest_of (queue_of c.fp b)) here))
    | inr other ↦
        subst (λ (q : List IndexElem). IsLocated cs fp (head_id q)) (sym (queue_other fp other))
          (heads fp)
  ]

update_cons :
    (c : Chunk) (s : List Chunk) (b b₁ : IndexBuffer)
    → update_chunk c b ≡ some b₁
    → index_update_chunks (c ∷ s) b ≡ index_update_chunks s b₁
unfolding index_update_chunks
update_cons c s b b₁ e = rw (index_update_chunks, e) refl

-- The buffer behind the update of a segment, of which `n` elements of each fingerprint and `m` in all
-- belong to other chunks.
pub record Updated (cs : List Container) (s : List Chunk) (n : ℕ → ℕ) (m : ℕ) (b b' : IndexBuffer)
    : Type 0 where
  pub distinct : Distinct b'.buffered_fingerprints
  pub left : (fp : ℕ) → length (queue_of fp b') ≡ n fp
  pub all_left : b'.chunk_num ≡ m
  pub heads : Heads cs b'
  pub named : (fp : ℕ) → 0 < n fp → (has_id b fp ≡ true) ⊎ (0 < count fp s) → has_id b' fp ≡ true

named_step :
    (cs : List Container) (c : Chunk) (s : List Chunk) (n : ℕ → ℕ) (m : ℕ) (b b₁ b' : IndexBuffer)
    → Updated cs s n m b₁ b'
    → ((fp : ℕ) → 0 < n fp → (has_id b fp ≡ true) ⊎ (is_with fp c ≡ true) → has_id b₁ fp ≡ true)
    → Updated cs (c ∷ s) n m b b'
unfolding count
named_step cs c s n m b b₁ b' u f = record {
  distinct = u.distinct;
  left = u.left;
  all_left = u.all_left;
  heads = u.heads;
  named = λ fp some_left h. elim (Bool-cases (is_with fp c)) [
    | inl it ↦ u.named fp some_left (inl (f fp some_left (inr it)))
    | inr other ↦ elim h [
      | inl e ↦ u.named fp some_left (inl (f fp some_left (inl e)))
      | inr k ↦ u.named fp some_left (inr (ground (arith, k, other)))
    ]
  ];
}

-- With an element for each chunk of the segment, and their ids, the update fails no assertion and pops
-- no missing queue.
pub index_update_chunks-Updated :
    (cs : List Container) (s : List Chunk) (b : IndexBuffer) (n : ℕ → ℕ) (m : ℕ)
    → Distinct b.buffered_fingerprints
    → ((fp : ℕ) → length (queue_of fp b) ≡ count fp s + n fp)
    → b.chunk_num ≡ total s + m
    → All (IsNamed cs) s
    → Heads cs b
    → (b' : IndexBuffer) × (index_update_chunks s b ≡ some b') × Updated cs s n m b b'
unfolding index_update_chunks count total
index_update_chunks-Updated cs [] b n m d l t a h = (
  b,
  refl,
  record {
    distinct = d;
    left = λ fp. omega (arith, l fp);
    all_left = omega (arith, t);
    heads = h;
    named = λ fp k e. elim e [ inl g ↦ g | inr z ↦ absurd (omega (arith, z)) ];
  },
)
index_update_chunks-Updated cs (c ∷ s) b n m d l t a h = elim (Bool-cases (is_file_signal c)) [
  | inl signal ↦
      let (b', e, u) =
        index_update_chunks-Updated cs s b n m d (λ fp. ground (arith, l fp, signal))
          (ground (arith, t, signal)) a.1 h in
      (
        b',
        update_cons c s b b (signal_update c b signal) ∙ e,
        named_step cs c s n m b b b' u
            (λ fp k x. elim x [ inl g ↦ g | inr w ↦ absurd (ground (arith, w, signal)) ]),
      )
  | inr normal ↦
      let (id, named, here) = a.0 normal in
      let (b₁, e₁, p) =
        update_chunk-Popped c b d normal (rw (named) refl) (ground (arith, l c.fp, normal)) in
      let l₁ : (fp : ℕ) → length (queue_of fp b₁) ≡ count fp s + n fp = λ fp.
        popped_length cs c b b₁ p id named fp (count fp s + n fp) (ground (arith, l fp, normal)) in
      let (b', e, u) =
        index_update_chunks-Updated cs s b₁ n m p.distinct l₁ (ground (arith, t, normal, p.fewer))
          a.1 (popped-Heads cs c b b₁ p id named here h) in
      (
        b',
        update_cons c s b b₁ e₁ ∙ e,
        named_step cs c s n m b b₁ b' u (λ fp k x.
            popped_id cs c b b₁ p id named fp (omega (arith, l₁ fp))
              (elim x [ inl g ↦ inl g | inr w ↦ inr (ground (arith, w)) ])),
      )
]
