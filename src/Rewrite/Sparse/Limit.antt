-- ===== src/Rewrite/Sparse/Limit.antt =====
-- The sparse containers that har_rewrite.c records: which they are, and how many.
use mathlib.Core.List.Perm
use mathlib.Core.List.{perm_middle}
use destor_lt.Prelude.{
  ℕ, ◌+◌, ◌≡◌, ◌⊎◌, inl, inr, refl, sym, ap, ◌∙◌, subst, arith, true, false, Bool-cases, some, List,
  [], ◌∷◌, ◌++◌, Perm, append-nil, sum_by, length, HashOrder,
}
use destor_lt.Rewrite.Sparse.{
  Utilizations, Config, Sparse, insert_by_size, is_sparse_record, collect_one, collect, exceeds,
  trim, none_yet, close_har,
}
use destor_lt.Rewrite.Sparse.Trim.{
  size_of, sparse_of, IsDescending, insert_by_size-IsDescending, insert_by_size-Perm, sum_by-insert,
  Last, trim-kept,
}

-- What holds of the records that are collected from these.
record Collected (cfg : Config) (crs : List (ℕ × ℕ)) (s r : Sparse) : Type 0 where
  descending : IsDescending r.seq
  perm : Perm r.seq (sparse_of cfg crs ++ s.seq)
  total_size : r.total_size ≡ s.total_size + sum_by size_of crs
  sparse_size : r.sparse_size ≡ sum_by size_of r.seq

sparse_alone :
    (cfg : Config) (cr : ℕ × ℕ) → is_sparse_record cfg cr ≡ true → sparse_of cfg (cr ∷ []) ≡ cr ∷ []
unfolding sparse_of
sparse_alone cfg cr is = rw is refl

sparse_not :
    (cfg : Config) (cr : ℕ × ℕ) → is_sparse_record cfg cr ≡ false → sparse_of cfg (cr ∷ []) ≡ []
unfolding sparse_of
sparse_not cfg cr other = rw other refl

sparse_moves :
    (cfg : Config) (cr : ℕ × ℕ) (crs rest : List (ℕ × ℕ))
    → Perm
        (sparse_of cfg crs ++ (sparse_of cfg (cr ∷ []) ++ rest))
        (sparse_of cfg (cr ∷ crs) ++ rest)
unfolding sparse_of
sparse_moves cfg cr crs rest = elim (Bool-cases (is_sparse_record cfg cr)) [
  | inl is ↦ rw is (perm_middle (sparse_of cfg crs) rest)
  | inr other ↦ rw other (Perm.refl (sparse_of cfg crs ++ rest))
]

Collected-one :
    (cfg : Config) (inherited : List (ℕ × ℕ)) (cr : ℕ × ℕ) (s : Sparse)
    → IsDescending s.seq
    → s.sparse_size ≡ sum_by size_of s.seq
    → Collected cfg (cr ∷ []) s (collect_one cfg inherited cr s)
unfolding collect_one
Collected-one cfg inherited cr s d same = elim (Bool-cases (is_sparse_record cfg cr)) [
  | inl is ↦ rw is (record {
    descending = insert_by_size-IsDescending cr s.seq d;
    perm =
        subst (λ l. Perm (insert_by_size cr s.seq) (l ++ s.seq)) (sym (sparse_alone cfg cr is))
          (insert_by_size-Perm cr s.seq);
    total_size = omega arith;
    sparse_size = omega (arith, same, sum_by-insert cr s.seq);
  })
  | inr other ↦ rw other (record {
    descending = d;
    perm = subst (λ l. Perm s.seq (l ++ s.seq)) (sym (sparse_not cfg cr other)) (Perm.refl s.seq);
    total_size = omega arith;
    sparse_size = same;
  })
]

Collected-collect :
    (cfg : Config) (inherited crs : List (ℕ × ℕ)) (s : Sparse)
    → IsDescending s.seq
    → s.sparse_size ≡ sum_by size_of s.seq
    → Collected cfg crs s (collect cfg inherited crs s)
unfolding collect
Collected-collect cfg inherited [] s d same =
    unfold sparse_of in
    record { descending = d; perm = Perm.refl s.seq; total_size = omega arith; sparse_size = same }
Collected-collect cfg inherited (cr ∷ crs) s d same =
    let one = Collected-one cfg inherited cr s d same in
    let s₁ = collect_one cfg inherited cr s in
    let rest = Collected-collect cfg inherited crs s₁ one.descending one.sparse_size in
    record {
      descending = rest.descending;
      perm = Perm.trans rest.perm (
          Perm.trans (Perm.append_left (sparse_of cfg crs) one.perm)
            (sparse_moves cfg cr crs s.seq));
      total_size = omega (arith, one.total_size, rest.total_size);
      sparse_size = rest.sparse_size;
    }

closes :
    (order : HashOrder ℕ) (cfg : Config) (inherited : List (ℕ × ℕ)) (monitor : Utilizations)
    (seq : List (ℕ × ℕ))
    → trim cfg
        (collect cfg inherited (order.iterate monitor) none_yet).total_size
        (collect cfg inherited (order.iterate monitor) none_yet).sparse_size
        (collect cfg inherited (order.iterate monitor) none_yet).seq
      ≡ some seq
    → close_har order cfg inherited monitor
      ≡ some (
        seq,
        length monitor,
        (collect cfg inherited (order.iterate monitor) none_yet).sparse_container_num,
        (collect cfg inherited (order.iterate monitor) none_yet).inherited_sparse_num,
      )
unfolding close_har
closes order cfg inherited monitor seq run = rw (close_har, run) refl

-- The records of sparse containers at the end of a backup, the last one first: whatever was monitored and
-- inherited, no record is removed from an empty sequence. Those written and those trimmed are together
-- the records of all sparse containers; no trimmed one is smaller than one that is written. The sizes of
-- those written are within the limit of all monitored sizes, if the limit is below 1, and with the last
-- trimmed record they are not.
pub close_har-limit :
    (order : HashOrder ℕ) (cfg : Config) (inherited : List (ℕ × ℕ)) (monitor : Utilizations)
    → (written trimmed : List (ℕ × ℕ)) × (sparse_num inherited_num : ℕ) × (close_har order cfg
          inherited monitor
        ≡ some (written, length monitor, sparse_num, inherited_num))
      × Perm (trimmed ++ written) (sparse_of cfg (order.iterate monitor))
      × IsDescending (trimmed ++ written)
      × (exceeds cfg (sum_by size_of (order.iterate monitor)) (sum_by size_of written) ≡ false)
      × ((trimmed ≡ []) ⊎ Last cfg (sum_by size_of (order.iterate monitor)) written trimmed)
close_har-limit order cfg inherited monitor =
    let crs = order.iterate monitor in
    let s = collect cfg inherited crs none_yet in
    let c = Collected-collect cfg inherited crs none_yet tt refl in
    let total : s.total_size ≡ sum_by size_of crs = c.total_size ∙ omega arith in
    let (written, trimmed, run, split, within, last) =
      trim-kept cfg (sum_by size_of crs) s.sparse_size s.seq c.sparse_size in
    (
      written,
      trimmed,
      s.sparse_container_num,
      s.inherited_sparse_num,
      closes order cfg inherited monitor written
          (ap (λ n. trim cfg n s.sparse_size s.seq) total ∙ run),
      subst (λ l. Perm l (sparse_of cfg crs)) split
          (subst (Perm s.seq) (append-nil (sparse_of cfg crs)) c.perm),
      subst IsDescending split c.descending,
      within,
      last,
    )
