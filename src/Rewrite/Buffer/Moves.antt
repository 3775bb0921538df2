-- ===== src/Rewrite/Buffer/Moves.antt =====
-- A chunk pushed into and popped from the rewrite buffer (rewrite_phase.c).
use native.Mathlib.Nat.{add-zero, one-mul, suc-mul, add-mul, mul-le-mul_right}
use destor_lt.Prelude.{
  ℕ, suc, ◌+◌, ◌*◌, ◌≤◌, ◌<◌, ◌≡◌, refl, Bool, true, false, none, some, Bool-cases, inl, inr, List,
  [], ◌∷◌, ◌++◌, arith, ◌==◌, leb, if◌then◌else◌, lookup, Distinct, sum_by, sum_by-append, All,
  All-append,
}
use destor_lt.Chunk.{Chunk, ContainerId, is_signal}
use destor_lt.Rewrite.Records.{Records, int_bound, is_ascending}
use destor_lt.Rewrite.Buffer.{RewriteBuffer, count_in, fits_in, count_chunk, rewrite_buffer_push}
use destor_lt.Rewrite.Buffer.Balance.{
  IsTidy, share, normal_size, normal_one, IsRecordOf, IsBalanced, count_in-Distinct, fits_in-total,
  count_in-IsRecordOf,
}

-- A signal, or a chunk of at most `largest` bytes.
abbrev pub IsSmall : ℕ → Chunk → Type 0
IsSmall largest c = normal_size c ≤ largest

one_le : (largest : ℕ) (c : Chunk) → IsSmall largest c → normal_size c ≤ normal_one c * largest
one_le largest c h = elim (Bool-cases (is_signal c)) [
  | inl signal ↦ rw signal (omega arith)
  | inr plain ↦ let h' : c.size ≤ largest = rw plain at h in rw (plain, one-mul) h'
]

size_le :
    (largest : ℕ) (queue : List Chunk)
    → All (IsSmall largest) queue
    → sum_by normal_size queue ≤ sum_by normal_one queue * largest
size_le largest [] h = omega arith
size_le largest (c ∷ queue) (h, hs) =
    let one : normal_size c ≤ normal_one c * largest = one_le largest c h in
    let split : sum_by normal_one (c ∷ queue) * largest
        ≡ normal_one c * largest + sum_by normal_one queue * largest =
      add-mul (normal_one c) (sum_by normal_one queue) largest in
    omega (arith, one, size_le largest queue hs, split)

-- With fewer than `limit` small chunks pending, one more small chunk overflows no counter.
pub room_for_small :
    (limit largest : ℕ) (c : Chunk) (b : RewriteBuffer)
    → limit * largest < int_bound
    → IsBalanced b
    → b.num < limit
    → All (IsSmall largest) b.chunk_queue
    → IsSmall largest c
    → b.size + normal_size c < int_bound
room_for_small limit largest c b bound v room queue one =
    let pending = size_le largest b.chunk_queue queue in
    let part : suc (sum_by normal_one b.chunk_queue) * largest ≤ limit * largest =
      mul-le-mul_right largest (omega (arith, v.counted, room)) in
    let split : suc (sum_by normal_one b.chunk_queue) * largest
        ≡ sum_by normal_one b.chunk_queue * largest + largest =
      suc-mul (sum_by normal_one b.chunk_queue) largest in
    omega (arith, pending, part, split, v.sized, one, bound)

sum_by-snoc {ℓ} :
    {A : Type ℓ} (f : A → ℕ) (xs : List A) (x : A) → sum_by f (xs ++ x ∷ []) ≡ sum_by f xs + f x
sum_by-snoc f xs x = omega (arith, sum_by-append f xs (x ∷ []))

share_le : (k : ℕ) (queue : List Chunk) → sum_by (share k) queue ≤ sum_by normal_size queue
share_le k [] = omega arith
share_le k (c ∷ queue) =
    let one : share k c ≤ normal_size c = ground arith in omega (arith, one, share_le k queue)

-- The records of the buffer after a tidy chunk that is no signal came in.
abbrev Counted : Chunk → RewriteBuffer → Type 0
Counted c b =
    (seq : Records) × (count_chunk c b.container_record_seq ≡ some seq)
    × Distinct seq
    × (is_ascending seq ≡ true)
    × ((cid : ℕ) → IsRecordOf (sum_by (share cid) b.chunk_queue + share cid c) (lookup cid seq))

count_chunk-Counted :
    (c : Chunk) (id : ContainerId) (b : RewriteBuffer)
    → c.id ≡ id
    → is_signal c ≡ false
    → IsTidy c
    → IsBalanced b
    → b.size + normal_size c < int_bound
    → Counted c b
unfolding count_chunk
count_chunk-Counted c none b same plain t v small = (
  b.container_record_seq,
  ground arith,
  v.distinct,
  v.ascending,
  λ cid. let nothing : share cid c ≡ 0 = ground arith in rw (nothing, add-zero) (v.records cid),
)
count_chunk-Counted c (some k) b same plain t v small =
    let (distinct, ascending) =
      count_in-Distinct k c.size b.container_record_seq v.ascending v.distinct in
    let all : normal_size c ≡ c.size = ground arith in
    let near : k < int_bound = ground arith in
    let fits : fits_in k c.size b.container_record_seq ≡ true =
      fits_in-total k c.size (sum_by (share k) b.chunk_queue) b.container_record_seq v.ascending
        (v.records k) (omega (arith, v.sized, share_le k b.chunk_queue, small, all)) near in
    (
      count_in k c.size b.container_record_seq,
      ground (arith, fits),
      distinct,
      ascending,
      λ cid.
          let pos : 0 < c.size = ground arith in
          let part : share cid c ≡ (if k == cid then c.size else 0) = ground arith in
          rw part (
            count_in-IsRecordOf k cid c.size (sum_by (share cid) b.chunk_queue)
              b.container_record_seq v.ascending pos (v.records cid)),
    )

abbrev Pushed : ℕ → Chunk → RewriteBuffer → Type 0
Pushed limit c b =
    (b' : RewriteBuffer) × (full : Bool) × (rewrite_buffer_push limit c b ≡ some (b', full))
    × IsBalanced b'
    × (b'.chunk_queue ≡ b.chunk_queue ++ c ∷ [])
    × (full ≡ (b'.num == limit))
    × (b'.num ≤ limit)

module _ (limit : ℕ) (c : Chunk) (b : RewriteBuffer) (t : IsTidy c) (v : IsBalanced b)
    (room : b.num < limit) (small : b.size + normal_size c < int_bound) where
  push-signal : is_signal c ≡ true → Pushed limit c b
  unfolding rewrite_buffer_push
  push-signal signal = (
    record b { chunk_queue = b.chunk_queue ++ c ∷ [] },
    false,
    ground arith,
    record {
      tidy = All-append IsTidy b.chunk_queue (c ∷ []) v.tidy (t, tt);
      counted =
          let none_more : normal_one c ≡ 0 = ground arith in
          omega (arith, v.counted, sum_by-snoc normal_one b.chunk_queue c);
      sized =
          let none_more : normal_size c ≡ 0 = ground arith in
          omega (arith, v.sized, sum_by-snoc normal_size b.chunk_queue c);
      distinct = v.distinct;
      ascending = v.ascending;
      records = λ cid.
          let nothing : share cid c ≡ 0 = ground arith in
          rw (sum_by-snoc (share cid) b.chunk_queue c, nothing, add-zero) (v.records cid);
    },
    refl,
    ground arith,
    omega arith,
  )

  push-normal : is_signal c ≡ false → Pushed limit c b
  unfolding rewrite_buffer_push
  push-normal plain =
      let (seq, e, d, a, records) = count_chunk-Counted c c.id b refl plain t v small in
      let all : normal_size c ≡ c.size = ground arith in
      let int : leb int_bound (b.size + c.size) ≡ false = ground (arith, small, all) in
      (
        record {
          chunk_queue = b.chunk_queue ++ c ∷ [];
          container_record_seq = seq;
          num = b.num + 1;
          size = b.size + c.size;
        },
        (b.num + 1 == limit),
        ground arith,
        record {
          tidy = All-append IsTidy b.chunk_queue (c ∷ []) v.tidy (t, tt);
          counted =
              let one : normal_one c ≡ 1 = ground arith in
              omega (arith, v.counted, sum_by-snoc normal_one b.chunk_queue c);
          sized =
              let all : normal_size c ≡ c.size = ground arith in
              omega (arith, v.sized, sum_by-snoc normal_size b.chunk_queue c);
          distinct = d;
          ascending = a;
          records = λ cid. rw (sum_by-snoc (share cid) b.chunk_queue c) (records cid);
        },
        refl,
        refl,
        omega arith,
      )

-- A tidy chunk (a signal, or a chunk of positive size that, if it has a container, is marked duplicate
-- and has an id below 2 ^ 31) that is pushed into a balanced buffer with room, whose size stays below 2 ^ 31 with it, overflows no
-- counter and fails no assertion. It stands at the end of the
-- queue, the counters and the container records are again those of the pending chunks, and the buffer
-- is reported full exactly when it holds `limit` chunks of files, which it never exceeds.
pub rewrite_buffer_push-IsBalanced :
    (limit : ℕ) (c : Chunk) (b : RewriteBuffer)
    → IsTidy c
    → IsBalanced b
    → b.num < limit
    → b.size + normal_size c < int_bound
    → (b' : RewriteBuffer) × (full : Bool) × (rewrite_buffer_push limit c b ≡ some (b', full))
      × IsBalanced b'
      × (b'.chunk_queue ≡ b.chunk_queue ++ c ∷ [])
      × (full ≡ (b'.num == limit))
      × (b'.num ≤ limit)
rewrite_buffer_push-IsBalanced limit c b t v room small = elim (Bool-cases (is_signal c)) [
  | inl signal ↦ push-signal limit c b t v room small signal
  | inr plain ↦ push-normal limit c b t v room small plain
]
