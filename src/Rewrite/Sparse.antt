-- ===== src/Rewrite/Sparse.antt =====
-- History-aware rewriting: how destor-master/src/har_rewrite.c monitors the containers of a backup and
-- records the sparse ones for the next.
pub mod Trim
pub mod Limit
mod Tests
use destor_lt.Prelude.{
  ℕ, suc, ◌+◌, ◌-◌, ◌*◌, ◌^◌, ◌≤◌, ◌<◌, Bool, true, false, ◌&&◌, Option, none, some, List, [], ◌∷◌,
  ltb, leb, if◌then◌else◌, length, lookup, insert, HashOrder, insert_all, ◌==◌,
}
use destor_lt.Chunk.{container_size, container_meta_size}

-- The ids of containers with the sizes of the chunks that refer to them.
abbrev pub Utilizations : Type 0
Utilizations = List (ℕ × ℕ)

abbrev size_in : ℕ → Utilizations → ℕ
size_in id m = elim (lookup id m) [ none ↦ 0 | some size ↦ size ]

-- The inherited sparse containers: from the records in the file .sparse of the backup before, where there
-- are both.
unfoldable pub init_har : ℕ → Option (List (ℕ × ℕ)) → List (ℕ × ℕ)
init_har id none = []
init_har id (some records) = if id == 0 then [] else insert_all records []

-- `none` is a size that is no int.
unfoldable pub har_monitor_update : ℕ → ℕ → Utilizations → Option Utilizations
har_monitor_update id size m =
    if ltb (size_in id m + size) (2 ^ 31) then some (insert id (size_in id m + size) m) else none

-- `rewrite_har_utilization_threshold` and `rewrite_har_rewrite_limit` as fractions.
pub record Config : Type 0 where
  pub threshold_num : ℕ
  pub threshold_den : ℕ
  pub limit_num : ℕ
  pub limit_den : ℕ

-- The records of `seq`, the last one first, which are ascending in size from the other end; a new one
-- comes behind those of its size. With them the sizes and the counters.
pub record Sparse : Type 0 where
  pub seq : List (ℕ × ℕ)
  pub total_size : ℕ
  pub sparse_size : ℕ
  pub sparse_container_num : ℕ
  pub inherited_sparse_num : ℕ

unfoldable pub insert_by_size : ℕ × ℕ → List (ℕ × ℕ) → List (ℕ × ℕ)
insert_by_size cr [] = cr ∷ []
insert_by_size cr (x ∷ xs) = if ltb cr.1 x.1 then x ∷ insert_by_size cr xs else cr ∷ x ∷ xs

abbrev pub is_sparse_record : Config → ℕ × ℕ → Bool
is_sparse_record cfg cr =
    ltb (cr.1 * cfg.threshold_den) (cfg.threshold_num * (container_size - container_meta_size))

unfoldable pub collect_one : Config → List (ℕ × ℕ) → ℕ × ℕ → Sparse → Sparse
collect_one cfg inherited cr s =
    if is_sparse_record cfg cr
    then record {
      seq = insert_by_size cr s.seq;
      total_size = s.total_size + cr.1;
      sparse_size = s.sparse_size + cr.1;
      sparse_container_num = s.sparse_container_num + 1;
      inherited_sparse_num = elim (lookup cr.0 inherited) [
        | none ↦ s.inherited_sparse_num
        | some size ↦ s.inherited_sparse_num + 1
      ];
    }
    else record s { total_size = s.total_size + cr.1 }

unfoldable pub collect : Config → List (ℕ × ℕ) → List (ℕ × ℕ) → Sparse → Sparse
collect cfg inherited [] s = s
collect cfg inherited (cr ∷ crs) s = collect cfg inherited crs (collect_one cfg inherited cr s)

abbrev pub exceeds : Config → ℕ → ℕ → Bool
exceeds cfg total sparse =
    ltb cfg.limit_num cfg.limit_den && ltb (cfg.limit_num * total) (sparse * cfg.limit_den)

-- The loop that trims the sequence; `none` is the removal of a record from an empty one. Where nothing
-- was monitored the quotient is no number, and the loop ends.
unfoldable pub trim : Config → ℕ → ℕ → List (ℕ × ℕ) → Option (List (ℕ × ℕ))
trim cfg total sparse [] = if exceeds cfg total sparse then none else some []
trim cfg total sparse (cr ∷ seq) =
    let further = trim cfg total (sparse - cr.1) seq in
    if exceeds cfg total sparse then further else some (cr ∷ seq)

abbrev pub none_yet : Sparse
none_yet = record {
  seq = [];
  total_size = 0;
  sparse_size = 0;
  sparse_container_num = 0;
  inherited_sparse_num = 0;
}

-- The records in the file .sparse, the last one first, and the job's `total_container_num`,
-- `sparse_container_num` and `inherited_sparse_num`. What is given to `update_manifest` is the monitor.
unfoldable pub close_har :
    HashOrder ℕ → Config → List (ℕ × ℕ) → Utilizations → Option (List (ℕ × ℕ) × ℕ × ℕ × ℕ)
close_har order cfg inherited monitor =
    let s = collect cfg inherited (order.iterate monitor) none_yet in
    elim (trim cfg s.total_size s.sparse_size s.seq) [
      | none ↦ none
      | some seq ↦ some (seq, length monitor, s.sparse_container_num, s.inherited_sparse_num)
    ]
