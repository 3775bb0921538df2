-- ===== src/Rewrite/Buffer/Balance.antt =====
-- The invariant of the rewrite buffer: its counters and records are those of its pending chunks.
use native.Mathlib.Nat.{add-zero, zero-add}
use destor_lt.Prelude.{
  ℕ, ◌+◌, ◌-◌, ◌<◌, ◌≡◌, ◌≢◌, refl, ap, ◌∙◌, Bool, true, false, Option, none, some, Option-cases,
  inl, inr, ℕ_discrete, ==-refl, arith, ◌==◌, if◌then◌else◌, lookup, insert, remove, Distinct,
  insert-Distinct, remove-Distinct, lookup-insert, lookup-remove, sum_by, All,
}
use destor_lt.Chunk.{Chunk, ContainerId, is_signal, eq_id}
use destor_lt.Rewrite.Records.{
  ContainerRecord, Records, int_bound, is_ascending, g_sequence_lookup-ascending,
  lookup-insert_sorted, insert_sorted-Distinct, insert_sorted-ascending, insert-ascending,
  remove-ascending,
}
use destor_lt.Rewrite.Buffer.{RewriteBuffer, count_in, fits_in, count_out, init_rewrite_buffer}

abbrev pub IsMarked : ContainerId → Bool → Type 0
IsMarked none duplicate = Unit
IsMarked (some cid) duplicate = duplicate ≡ true

-- An id of which an int holds the differences.
abbrev pub IsNear : ContainerId → Type 0
IsNear none = Unit
IsNear (some cid) = cid < int_bound

-- What a chunk of a file brings: a size, and the duplicate mark and an id below 2 ^ 31 if it has a
-- container.
abbrev pub IsTidy : Chunk → Type 0
IsTidy c =
    if is_signal c then Unit {0} else ((0 < c.size) × IsNear c.id) × IsMarked c.id c.flag.duplicate

-- What a pending chunk adds to the record of a container, to `size` and to `num`.
abbrev pub share : ℕ → Chunk → ℕ
share cid c = if is_signal c then 0 else (if eq_id c.id (some cid) then c.size else 0)

abbrev pub normal_size : Chunk → ℕ
normal_size c = if is_signal c then 0 else c.size

abbrev pub normal_one : Chunk → ℕ
normal_one c = if is_signal c then 0 else 1

abbrev pub record_size : Option ContainerRecord → ℕ
record_size none = 0
record_size (some r) = r.size

-- A record with a positive size for just the containers of pending chunks.
abbrev pub IsRecordOf : ℕ → Option ContainerRecord → Type 0
IsRecordOf total none = total ≡ 0
IsRecordOf total (some r) = (r.size ≡ total) × (0 < total)

pub record IsBalanced (b : RewriteBuffer) : Type 0 where
  pub tidy : All IsTidy b.chunk_queue
  pub counted : b.num ≡ sum_by normal_one b.chunk_queue
  pub sized : b.size ≡ sum_by normal_size b.chunk_queue
  pub distinct : Distinct b.container_record_seq
  pub ascending : is_ascending b.container_record_seq ≡ true
  pub records :
      (cid : ℕ) → IsRecordOf (sum_by (share cid) b.chunk_queue) (lookup cid b.container_record_seq)

pub init-IsBalanced : IsBalanced init_rewrite_buffer
unfolding lookup is_ascending
init-IsBalanced = record {
  tidy = tt;
  counted = refl;
  sized = refl;
  distinct = tt;
  ascending = refl;
  records = λ cid. refl;
}

abbrev bumped : ℕ → Option ContainerRecord → ContainerRecord
bumped size none = record { size = size; out_of_order = true }
bumped size (some r) = record r { size = r.size + size }

lookup-count_in :
    (cid j size : ℕ) (seq : Records)
    → is_ascending seq ≡ true
    → lookup j (count_in cid size seq)
      ≡ (if cid == j then some (bumped size (lookup cid seq)) else lookup j seq)
unfolding count_in
lookup-count_in cid j size seq a = elim (Option-cases (lookup cid seq)) [
  | inl new ↦
      rw (count_in, g_sequence_lookup-ascending cid seq a, new)
        (lookup-insert_sorted cid j (record { size = size; out_of_order = true }) seq new)
  | inr (r, old) ↦
      rw (count_in, g_sequence_lookup-ascending cid seq a, old)
        (lookup-insert cid j (record r { size = r.size + size }) seq)
]

pub count_in-Distinct :
    (cid size : ℕ) (seq : Records)
    → is_ascending seq ≡ true
    → Distinct seq
    → Distinct (count_in cid size seq) × (is_ascending (count_in cid size seq) ≡ true)
unfolding count_in
count_in-Distinct cid size seq a d = elim (Option-cases (lookup cid seq)) [
  | inl new ↦
      let first : ContainerRecord = record { size = size; out_of_order = true } in
      rw (count_in, g_sequence_lookup-ascending cid seq a, new)
        (insert_sorted-Distinct cid first seq new d, insert_sorted-ascending cid first seq new a)
  | inr (r, old) ↦
      let more : ContainerRecord = record r { size = r.size + size } in
      rw (count_in, g_sequence_lookup-ascending cid seq a, old)
        (insert-Distinct cid more seq d, insert-ascending cid r more seq old a)
]

-- A record within a total that is an int has room.
pub fits_in-total :
    (cid size total : ℕ) (seq : Records)
    → is_ascending seq ≡ true
    → IsRecordOf total (lookup cid seq)
    → total + size < int_bound
    → cid < int_bound
    → fits_in cid size seq ≡ true
unfolding fits_in
fits_in-total cid size total seq a h small near = elim (Option-cases (lookup cid seq)) [
  | inl new ↦ rw (fits_in, g_sequence_lookup-ascending cid seq a, new) (ground (arith, small, near))
  | inr (r, old) ↦
      let whole : (r.size ≡ total) × (0 < total) = rw old at h in
      rw (fits_in, g_sequence_lookup-ascending cid seq a, old) (ground (arith, small, near, whole))
]

pub count_in-IsRecordOf :
    (cid j size total : ℕ) (seq : Records)
    → is_ascending seq ≡ true
    → 0 < size
    → IsRecordOf total (lookup j seq)
    → IsRecordOf (total + (if cid == j then size else 0)) (lookup j (count_in cid size seq))
count_in-IsRecordOf cid j size total seq a pos h = elim (ℕ_discrete cid j) [
  | yes same ↦ rw (lookup-count_in cid j size seq a, same, ==-refl j) (on_it (lookup j seq) h)
  | no other ↦
      let test : (cid == j) ≡ false = ground arith in
      rw (lookup-count_in cid j size seq a, test, add-zero) h
]
  where
    on_it :
        (o : Option ContainerRecord)
        → IsRecordOf total o
        → ((bumped size o).size ≡ total + size) × (0 < total + size)
    on_it none e = (omega arith, omega arith)
    on_it (some r) e = (omega arith, omega arith)

-- What `count_out` leaves, from the totals with the chunk to those without it.
module _ (cid size : ℕ) (seq : Records) (rest : ℕ → ℕ) (pos : 0 < size) (d : Distinct seq)
    (a : is_ascending seq ≡ true)
    (h : (j : ℕ) → IsRecordOf ((if cid == j then size else 0) + rest j) (lookup j seq)) where
  abbrev pub Released : Type 0
  Released =
      (seq' : Records) × (count_out cid size seq ≡ some seq')
      × Distinct seq'
      × (is_ascending seq' ≡ true)
      × ((j : ℕ) → IsRecordOf (rest j) (lookup j seq'))

  at_cid : IsRecordOf (size + rest cid) (lookup cid seq)
  at_cid = rw (==-refl cid) at (h cid)

  at_other : (j : ℕ) → cid ≢ j → IsRecordOf (rest j) (lookup j seq)
  at_other j other = let test : (cid == j) ≡ false = ground arith in rw (test, zero-add) at (h j)

  release_last : (r : ContainerRecord) → lookup cid seq ≡ some r → r.size ≡ size → Released
  unfolding count_out
  release_last r e last = (
    remove cid seq,
    ground (arith, g_sequence_lookup-ascending cid seq a),
    remove-Distinct cid seq d,
    remove-ascending cid seq a,
    λ j. elim (ℕ_discrete cid j) [
      | yes same ↦
          let gone : lookup j (remove cid seq) ≡ none =
            lookup-remove cid j seq d ∙ (let t : (cid == j) ≡ true = ground arith in rw t) in
          let zero_left : rest j ≡ 0 =
            let whole : (r.size ≡ size + rest cid) × (0 < size + rest cid) = rw e at at_cid in
            let e' : rest cid ≡ rest j = ap rest same in omega arith in
          rw gone zero_left
      | no other ↦
          let kept : lookup j (remove cid seq) ≡ lookup j seq =
            lookup-remove cid j seq d ∙ (let t : (cid == j) ≡ false = ground arith in rw t) in
          rw kept (at_other j other)
    ],
  )

  release_part : (r : ContainerRecord) → lookup cid seq ≡ some r → r.size ≢ size → Released
  unfolding count_out
  release_part r e part =
      let less : ContainerRecord = record r { size = r.size - size } in
      (
        insert cid less seq,
        ground (arith, g_sequence_lookup-ascending cid seq a),
        insert-Distinct cid less seq d,
        insert-ascending cid r less seq e a,
        λ j. elim (ℕ_discrete cid j) [
          | yes same ↦
              let there : lookup j (insert cid less seq) ≡ some less =
                lookup-insert cid j less seq ∙ (let t : (cid == j) ≡ true = ground arith in rw t) in
              let whole : (r.size ≡ size + rest cid) × (0 < size + rest cid) = rw e at at_cid in
              let e' : rest cid ≡ rest j = ap rest same in rw there (omega arith)
          | no other ↦
              let kept : lookup j (insert cid less seq) ≡ lookup j seq =
                lookup-insert cid j less seq
                ∙ (let t : (cid == j) ≡ false = ground arith in rw t) in
              rw kept (at_other j other)
        ],
      )

  pub count_out-IsRecordOf : Released
  count_out-IsRecordOf = elim (Option-cases (lookup cid seq)) [
    | inl e ↦ absurd (let z : size + rest cid ≡ 0 = rw e at at_cid in omega arith)
    | inr (r, e) ↦ elim (ℕ_discrete r.size size) [
      | yes last ↦ release_last r e last
      | no part ↦ release_part r e part
    ]
  ]
