-- ===== src/Index/Counts.antt =====
-- How the queues of the index buffer (index/index.c) change when a chunk enters and leaves.
use destor_lt.Prelude.{
  ℕ, suc, ◌+◌, ◌-◌, ◌≤◌, ◌<◌, ◌≡◌, refl, arith, Bool, false, not, ◌&&◌, none, some, List, [], ◌∷◌,
  ◌++◌, ◌==◌, if◌then◌else◌, length, map, insert, remove, Distinct, lookup-insert, lookup-remove,
  insert-Distinct, remove-Distinct,
}
use destor_lt.Chunk.{Chunk, ContainerId, is_file_signal}
use destor_lt.Index.{
  IndexElem, IndexBuffer, queue_of, push_elem, pop_elem, update_chunk, with_id, is_temporary,
}

-- The chunks of files with a fingerprint, and all of them.
abbrev pub is_with : ℕ → Chunk → Bool
is_with fp c = not (is_file_signal c) && (c.fp == fp)

unfoldable pub count : ℕ → List Chunk → ℕ
count fp [] = 0
count fp (c ∷ cs) = if is_with fp c then suc (count fp cs) else count fp cs

unfoldable pub total : List Chunk → ℕ
total [] = 0
total (c ∷ cs) = if is_file_signal c then total cs else suc (total cs)

pub count-append : (fp : ℕ) (s t : List Chunk) → count fp (s ++ t) ≡ count fp s + count fp t
unfolding count
count-append fp [] t = omega arith
count-append fp (c ∷ s) t = ground (arith, count-append fp s t)

pub count-cons : (fp : ℕ) (c : Chunk) (s : List Chunk) → count fp s ≤ count fp (c ∷ s)
unfolding count
count-cons fp c s = ground arith

pub count_self :
    (c : Chunk) (s : List Chunk)
    → is_file_signal c ≡ false
    → count c.fp (c ∷ s) ≡ suc (count c.fp s)
unfolding count
count_self c s normal = ground (arith, normal)

pub total-append : (s t : List Chunk) → total (s ++ t) ≡ total s + total t
unfolding total
total-append [] t = omega arith
total-append (c ∷ s) t = ground (arith, total-append s t)

abbrev pub head_id : List IndexElem → ContainerId
head_id [] = none
head_id (e ∷ q) = e.id

abbrev pub rest_of : List IndexElem → List IndexElem
rest_of [] = []
rest_of (e ∷ q) = q

-- Whether the head of the queue has the id of a container.
abbrev pub has_id : IndexBuffer → ℕ → Bool
has_id b fp = not (is_temporary (head_id (queue_of fp b)))

pub queue_of-push_elem :
    (c : Chunk) (b : IndexBuffer) (fp : ℕ)
    → queue_of fp (push_elem c b) ≡ (
        if c.fp == fp
        then queue_of c.fp b ++ record { id = c.id; fp = c.fp } ∷ []
        else queue_of fp b)
unfolding queue_of push_elem
queue_of-push_elem c b fp = ground (
  arith,
  lookup-insert c.fp fp (queue_of c.fp b ++ record { id = c.id; fp = c.fp } ∷ [])
      b.buffered_fingerprints,
)

-- What the pop of a chunk's element does.
pub record Popped (c : Chunk) (b b' : IndexBuffer) : Type 0 where
  pub queue :
      (fp : ℕ)
      → queue_of fp b'
        ≡ (if c.fp == fp then map (with_id c.id) (rest_of (queue_of c.fp b)) else queue_of fp b)
  pub distinct : Distinct b'.buffered_fingerprints
  pub fewer : b'.chunk_num ≡ b.chunk_num - 1

queue_of-remove :
    (k fp n : ℕ) (b : IndexBuffer)
    → Distinct b.buffered_fingerprints
    → queue_of fp
        (record { buffered_fingerprints = remove k b.buffered_fingerprints; chunk_num = n })
      ≡ (if k == fp then [] else queue_of fp b)
unfolding queue_of
queue_of-remove k fp n b d = ground (arith, lookup-remove k fp b.buffered_fingerprints d)

queue_of-insert :
    (k fp n : ℕ) (q : List IndexElem) (b : IndexBuffer)
    → queue_of fp
        (record { buffered_fingerprints = insert k q b.buffered_fingerprints; chunk_num = n })
      ≡ (if k == fp then q else queue_of fp b)
unfolding queue_of
queue_of-insert k fp n q b = ground (arith, lookup-insert k fp q b.buffered_fingerprints)

pop_elem-Popped :
    (c : Chunk) (b : IndexBuffer) (q : List IndexElem)
    → Distinct b.buffered_fingerprints
    → queue_of c.fp b ≡ q
    → 0 < length q
    → (b' : IndexBuffer) × (pop_elem c q b ≡ some b') × Popped c b b'
unfolding pop_elem
pop_elem-Popped c b [] d e h = absurd (ground (arith, h))
pop_elem-Popped c b (x ∷ []) d e h = (
  record {
    buffered_fingerprints = remove c.fp b.buffered_fingerprints;
    chunk_num = b.chunk_num - 1;
  },
  refl,
  record {
    queue = λ fp. rw (e) (queue_of-remove c.fp fp (b.chunk_num - 1) b d);
    distinct = remove-Distinct c.fp b.buffered_fingerprints d;
    fewer = refl;
  },
)
pop_elem-Popped c b (x ∷ y ∷ q) d e h = (
  record {
    buffered_fingerprints = insert c.fp (map (with_id c.id) (y ∷ q)) b.buffered_fingerprints;
    chunk_num = b.chunk_num - 1;
  },
  refl,
  record {
    queue = λ fp. rw (e) (queue_of-insert c.fp fp (b.chunk_num - 1) (map (with_id c.id) (y ∷ q)) b);
    distinct = insert-Distinct c.fp (map (with_id c.id) (y ∷ q)) b.buffered_fingerprints d;
    fewer = refl;
  },
)

pub update_chunk-Popped :
    (c : Chunk) (b : IndexBuffer)
    → Distinct b.buffered_fingerprints
    → is_file_signal c ≡ false
    → is_temporary c.id ≡ false
    → 0 < length (queue_of c.fp b)
    → (b' : IndexBuffer) × (update_chunk c b ≡ some b') × Popped c b b'
unfolding update_chunk
update_chunk-Popped c b d normal named h =
    let (b', e, p) = pop_elem-Popped c b (queue_of c.fp b) d refl h in
    (b', rw (update_chunk, normal, named) e, p)

pub length-map : (f : IndexElem → IndexElem) (q : List IndexElem) → length (map f q) ≡ length q
length-map f [] = refl
length-map f (x ∷ q) = ground (arith, length-map f q)
