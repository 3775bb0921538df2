-- ===== src/Index/Check.antt =====
-- The check of the buffer that index/index.c makes for a segment before its chunks are written.
use destor_lt.Prelude.{
  ℕ, ◌≤◌, ◌<◌, ◌≡◌, refl, subst, sym, ◌∙◌, arith, Bool, true, false, not, ◌&&◌, none, some, List,
  [], ◌∷◌, ◌==◌, Bool-cases, List-cases, inl, inr, length, All,
}
use destor_lt.Chunk.{Chunk, ContainerId, is_file_signal}
use destor_lt.Storage.Container.{Container}
use destor_lt.Index.{
  IndexElem, IndexBuffer, queue_of, is_temporary, gt_id, is_checked, check_elem, check_buffer_chunk,
  index_check_buffer,
}
use destor_lt.Index.Counts.{count, count-cons, count_self, head_id, has_id}
use destor_lt.Judge.Located.{IsLocated}
use destor_lt.Judge.Settled.{Kept}
use destor_lt.Judge.Loop.{
  pass, learn, Ready, IsReady, is_copy, AllKept, kept_nil, kept_cons, IsPlaced,
}
use destor_lt.Index.Order.{is_duplicate, or_left}

-- The heads of the queues have the ids of containers that hold their fingerprints.
abbrev pub Heads : List Container → IndexBuffer → Type 0
Heads cs b = (fp : ℕ) → IsLocated cs fp (head_id (queue_of fp b))

-- A checked chunk is right, and a copy without an id only if the head of its queue has none.
record Checked (cs : List Container) (b : IndexBuffer) (c c' : Chunk) : Type 0 where
  kept : Kept c c'
  placed : IsPlaced cs c'
  copy : is_file_signal c ≡ false → is_copy c' ≡ true → has_id b c.fp ≡ false

check_elem-Kept : (be : IndexElem) (c : Chunk) → Kept c (check_elem be c)
unfolding check_elem
check_elem-Kept be c = ground arith

-- A head that has no id is not above any.
gt_id-temporary :
    (a b : ContainerId) → is_temporary b ≡ true → gt_id a b ≡ false → is_temporary a ≡ true
unfolding gt_id
gt_id-temporary none b t g = refl
gt_id-temporary (some a) none t g = absurd (ground (arith, g))
gt_id-temporary (some a) (some b) t g = absurd (ground (arith, t))

check_elem-facts :
    (cs : List Container) (be : IndexElem) (c : Chunk)
    → IsLocated cs c.fp be.id
    → IsPlaced cs c
    → IsPlaced cs (check_elem be c) × (is_copy (check_elem be c) ≡ true → is_temporary be.id ≡ true)
unfolding check_elem
check_elem-facts cs be c l p = elim (Bool-cases (gt_id be.id c.id)) [
  | inl above ↦ rw (above) ((p.0, l), λ h. ground (arith, h))
  | inr not_above ↦
      rw (not_above) (p, λ h. gt_id-temporary be.id c.id (ground (arith, h)) not_above)
]

check_chunk-Checked :
    (cs : List Container) (b : IndexBuffer) (c : Chunk)
    → (is_file_signal c ≡ false → 0 < length (queue_of c.fp b))
    → Heads cs b
    → IsPlaced cs c
    → (c' : Chunk) × (check_buffer_chunk b c ≡ some c') × Checked cs b c c'
unfolding check_buffer_chunk
check_chunk-Checked cs b c n heads p = elim (Bool-cases (is_file_signal c)) [
  | inl signal ↦ (
    c,
    rw (signal) refl,
    record {
      kept = record { fp = refl; duplicate = refl; signal = refl; size = refl };
      placed = p;
      copy = λ normal h. absurd (ground (arith, signal, normal));
    },
  )
  | inr normal ↦ elim (Bool-cases (is_checked c)) [
    | inl checked ↦ elim (List-cases (queue_of c.fp b)) [
      | inl empty ↦ absurd (ground (arith, n normal, empty))
      | inr (be, q, e) ↦
          let l : IsLocated cs c.fp be.id =
            subst (λ (q : List IndexElem). IsLocated cs c.fp (head_id q)) e (heads c.fp) in
          let (placed, copy) = check_elem-facts cs be c l p in
          (
            check_elem be c,
            rw (check_buffer_chunk, normal, checked, e) refl,
            record {
              kept = check_elem-Kept be c;
              placed = placed;
              copy = λ m h. rw (e, copy h) refl;
            },
          )
    ]
    | inr unchecked ↦ (
      c,
      rw (check_buffer_chunk, normal, unchecked) refl,
      record {
        kept = record { fp = refl; duplicate = refl; signal = refl; size = refl };
        placed = p;
        copy = λ m h. absurd (ground (arith, h, unchecked));
      },
    )
  ]
]

check_cons :
    (b : IndexBuffer) (c c' : Chunk) (s s' : List Chunk)
    → check_buffer_chunk b c ≡ some c'
    → index_check_buffer b s ≡ some s'
    → index_check_buffer b (c ∷ s) ≡ some (c' ∷ s')
unfolding index_check_buffer
check_cons b c c' s s' e f = rw (index_check_buffer, e, f) refl

pass-Kept :
    (seen seen' : ℕ → Bool) (fp : ℕ) (c c' : Chunk)
    → Kept c c'
    → seen' fp ≡ seen fp
    → pass c' seen' fp ≡ pass c seen fp
pass-Kept seen seen' fp c c' k e = ground (arith, e, k.fp, k.signal)

learn-Kept :
    (known learned : ℕ → Bool) (fp : ℕ) (c c' : Chunk)
    → Kept c c'
    → (known fp ≡ true → learned fp ≡ true)
    → learn c known fp ≡ true
    → learn c' learned fp ≡ true
learn-Kept known learned fp c c' k f l =
    let same : learn c' learned fp ≡ learn c learned fp =
      ground (arith, k.fp, k.signal, k.duplicate) in
    same
    ∙ or_left (known fp) (learned fp)
        (not (is_file_signal c) && (not c.flag.duplicate && (c.fp == fp))) f l

Checked-IsReady :
    (cs : List Container) (b : IndexBuffer) (c c' : Chunk) (seen seen' known learned : ℕ → Bool)
    → Checked cs b c c'
    → seen' c.fp ≡ seen c.fp
    → (known c.fp ≡ true → has_id b c.fp ≡ false → learned c.fp ≡ true)
    → IsReady is_duplicate seen known c
    → IsReady is_copy seen' learned c'
Checked-IsReady cs b c c' seen seen' known learned x e f r normal' =
    let normal : is_file_signal c ≡ false = sym x.kept.signal ∙ normal' in
    (
      λ d. rw (x.kept.fp) (e ∙ (r normal).0 (sym x.kept.duplicate ∙ d)),
      λ copy.
          let again : c.flag.duplicate ≡ true = ground (arith, copy, x.kept.duplicate) in
          rw (x.kept.fp) (f ((r normal).1 again) (x.copy normal copy)),
    )

-- Where the buffer has an element for each chunk of the segment the check does not fail; a chunk whose
-- id is still open then is a copy of a chunk of the segment.
pub index_check_buffer-Ready :
    (cs : List Container) (b : IndexBuffer) (s : List Chunk) (seen seen' known learned : ℕ → Bool)
    → ((fp : ℕ) → count fp s ≤ length (queue_of fp b))
    → Heads cs b
    → All (IsPlaced cs) s
    → ((fp : ℕ) → seen' fp ≡ seen fp)
    → ((fp : ℕ) → known fp ≡ true → has_id b fp ≡ false → learned fp ≡ true)
    → Ready is_duplicate seen known s
    → (s' : List Chunk) × (index_check_buffer b s ≡ some s')
      × AllKept s s'
      × All (IsPlaced cs) s'
      × Ready is_copy seen' learned s'
unfolding index_check_buffer
index_check_buffer-Ready cs b [] seen seen' known learned n heads p same k r =
    ([], refl, kept_nil, tt, tt)
index_check_buffer-Ready cs b (c ∷ s) seen seen' known learned n heads p same k r =
    let (c', e, x) =
      check_chunk-Checked cs b c (λ normal. omega (arith, n c.fp, count_self c s normal)) heads
        p.0 in
    let (s', f, a, q, t) =
      index_check_buffer-Ready cs b s (pass c seen) (pass c' seen') (learn c known)
        (learn c' learned) (λ fp. omega (arith, n fp, count-cons fp c s)) heads p.1
        (λ fp. pass-Kept seen seen' fp c c' x.kept (same fp))
        (λ fp l h. learn-Kept known learned fp c c' x.kept (λ t. k fp t h) l) r.1 in
    (
      c' ∷ s',
      check_cons b c c' s s' e f,
      kept_cons x.kept a,
      (x.placed, q),
      (Checked-IsReady cs b c c' seen seen' known learned x (same c.fp) (k c.fp) r.0, t),
    )
