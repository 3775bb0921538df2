-- ===== src/Rewrite/Buffer/Pops.antt =====
-- A chunk popped from the rewrite buffer (rewrite_phase.c).
use native.Mathlib.Nat.{zero-add}
use destor_lt.Prelude.{
  ℕ, ◌+◌, ◌-◌, ◌<◌, ◌≡◌, refl, ap, ◌∙◌, true, false, none, some, Bool-cases, inl, inr, List, ◌∷◌,
  arith, ◌==◌, if◌then◌else◌, lookup, Distinct, sum_by, All,
}
use destor_lt.Chunk.{Chunk, ContainerId, is_signal}
use destor_lt.Rewrite.Records.{Records, is_ascending}
use destor_lt.Rewrite.Har.{Har, har_check}
use destor_lt.Rewrite.Buffer.{RewriteBuffer, release_chunk, rewrite_buffer_pop}
use destor_lt.Rewrite.Buffer.Balance.{
  IsTidy, share, normal_size, normal_one, IsRecordOf, IsBalanced, count_out-IsRecordOf,
}

-- What the history-aware check makes of a chunk that leaves the buffer.
unfoldable pub har_mark : Har → Chunk → Chunk
har_mark har c =
    if is_signal c
    then c
    else if c.flag.duplicate
    then elim c.id [
      | none ↦ c
      | some _ ↦ if har.enabled then har_check har.inherited_sparse_containers c else c
    ]
    else c

abbrev ReleasedChunk : Har → Chunk → Records → List Chunk → Type 0
ReleasedChunk har c seq queue =
    (seq' : Records) × (release_chunk har c seq ≡ some (seq', har_mark har c))
    × Distinct seq'
    × (is_ascending seq' ≡ true)
    × ((cid : ℕ) → IsRecordOf (sum_by (share cid) queue) (lookup cid seq'))

release_chunk_lem :
    (har : Har) (c : Chunk) (id : ContainerId) (seq : Records) (queue : List Chunk)
    → c.id ≡ id
    → is_signal c ≡ false
    → IsTidy c
    → Distinct seq
    → is_ascending seq ≡ true
    → ((cid : ℕ) → IsRecordOf (share cid c + sum_by (share cid) queue) (lookup cid seq))
    → ReleasedChunk har c seq queue
unfolding release_chunk har_mark
release_chunk_lem har c none seq queue same plain t d a h = (
  seq,
  ground arith,
  d,
  a,
  λ cid. let nothing : share cid c ≡ 0 = ground arith in rw (nothing, zero-add) at (h cid),
)
release_chunk_lem har c (some k) seq queue same plain t d a h =
    let pos : 0 < c.size = ground arith in
    let totals : (cid : ℕ)
        → IsRecordOf ((if k == cid then c.size else 0) + sum_by (share cid) queue)
            (lookup cid seq) =
      λ cid.
        let part : share cid c ≡ (if k == cid then c.size else 0) = ground arith in
        rw part at (h cid) in
    let (seq', e, d', a', h') =
      count_out-IsRecordOf k c.size seq (λ cid. sum_by (share cid) queue) pos d a totals in
    (seq', ground arith, d', a', h')

module _ (har : Har) (b : RewriteBuffer) (c : Chunk) (queue : List Chunk) (v : IsBalanced b)
    (e : b.chunk_queue ≡ c ∷ queue) where
  abbrev Popped : Type 0
  Popped =
      (b' : RewriteBuffer) × (rewrite_buffer_pop har b ≡ some (b', some (har_mark har c)))
      × IsBalanced b'
      × (b'.chunk_queue ≡ queue)
      × (b'.num + normal_one c ≡ b.num)

  tidy : All IsTidy (c ∷ queue)
  tidy = rw e at v.tidy

  num : b.num ≡ normal_one c + sum_by normal_one queue
  num = v.counted ∙ ap (sum_by normal_one) e

  size : b.size ≡ normal_size c + sum_by normal_size queue
  size = v.sized ∙ ap (sum_by normal_size) e

  totals :
      (cid : ℕ)
      → IsRecordOf (share cid c + sum_by (share cid) queue) (lookup cid b.container_record_seq)
  totals cid = rw e at (v.records cid)

  pop-signal : is_signal c ≡ true → Popped
  unfolding rewrite_buffer_pop har_mark
  pop-signal signal = (
    record b { chunk_queue = queue },
    ground arith,
    record {
      tidy = tidy.1;
      counted = ground (arith, num);
      sized = ground (arith, size);
      distinct = v.distinct;
      ascending = v.ascending;
      records = λ cid.
          let nothing : share cid c ≡ 0 = ground arith in rw (nothing, zero-add) at (totals cid);
    },
    refl,
    ground arith,
  )

  pop-normal : is_signal c ≡ false → Popped
  unfolding rewrite_buffer_pop
  pop-normal plain =
      let (seq, out, d, a, records) =
        release_chunk_lem har c c.id b.container_record_seq queue refl plain tidy.0 v.distinct
          v.ascending totals in
      (
        record {
          chunk_queue = queue;
          container_record_seq = seq;
          num = b.num - 1;
          size = b.size - c.size;
        },
        ground (arith, out),
        record {
          tidy = tidy.1;
          counted = ground (arith, num);
          sized = ground (arith, size);
          distinct = d;
          ascending = a;
          records = records;
        },
        refl,
        ground (arith, num),
      )

-- A pop from a balanced buffer whose queue is not empty fails no assertion: it takes the first chunk,
-- marked as the history-aware check wants it, and the counters and the container records are again
-- those of the pending chunks.
pub rewrite_buffer_pop-IsBalanced :
    (har : Har) (b : RewriteBuffer) (c : Chunk) (queue : List Chunk)
    → IsBalanced b
    → b.chunk_queue ≡ c ∷ queue
    → (b' : RewriteBuffer) × (rewrite_buffer_pop har b ≡ some (b', some (har_mark har c)))
      × IsBalanced b'
      × (b'.chunk_queue ≡ queue)
      × (b'.num + normal_one c ≡ b.num)
rewrite_buffer_pop-IsBalanced har b c queue v e = elim (Bool-cases (is_signal c)) [
  | inl signal ↦ pop-signal har b c queue v e signal
  | inr plain ↦ pop-normal har b c queue v e plain
]
