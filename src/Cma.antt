-- ===== src/Cma.antt =====
-- The container-marker algorithm of destor-master/src/cma.c: for each container the last backup
-- that referred to it.
pub mod Step
pub mod History
mod Tests
use destor_lt.Prelude.{
  ℕ, Option, none, some, List, [], ◌∷◌, leb, if◌then◌else◌, insert, insert_all, HashOrder, length,
}

-- The table `manifest`, from container ids to backup times; and the file, one record a line.
abbrev pub Manifest : Type 0
Manifest = List (ℕ × ℕ)

-- The manifest file, or `none` where there is none, and `destor.live_container_num`.
pub record State : Type 0 where
  pub file : Option (List (ℕ × ℕ))
  pub live_container_num : ℕ

-- The loop of `fscanf` and `g_hash_table_insert`.
abbrev pub read_manifest : Option (List (ℕ × ℕ)) → Manifest
read_manifest none = []
read_manifest (some records) = insert_all records []

-- The loop over the monitored ids: a record is made where there is none, and gets the time.
unfoldable pub mark : ℕ → List (ℕ × ℕ) → Manifest → Manifest
mark jcr_id [] manifest = manifest
mark jcr_id ((id, _) ∷ monitor) manifest = mark jcr_id monitor (insert id jcr_id manifest)

unfoldable pub update_manifest : HashOrder ℕ → ℕ → List (ℕ × ℕ) → State → State
unfolding mark
update_manifest order jcr_id monitor st =
    let manifest = mark jcr_id (order.iterate monitor) (read_manifest st.file) in
    record { file = some (order.iterate manifest); live_container_num = length manifest }

-- The table of the ids to reclaim, and the manifest that stays.
unfoldable pub split_records :
    ℕ → List (ℕ × ℕ) → List (ℕ × Unit {0}) → Manifest → List (ℕ × Unit {0}) × Manifest
split_records jobid [] invalid manifest = (invalid, manifest)
split_records jobid ((id, time) ∷ records) invalid manifest =
    split_records jobid records (if leb time jobid then insert id tt invalid else invalid)
      (if leb time jobid then manifest else insert id time manifest)

-- `none` is the exit where the manifest does not exist.
unfoldable pub trunc_manifest : HashOrder ℕ → ℕ → State → Option (State × List (ℕ × Unit {0}))
unfolding split_records
trunc_manifest order jobid st = elim st.file [
  | none ↦ none
  | some records ↦
      let (invalid, manifest) = split_records jobid records [] [] in
      some (
        record { file = some (order.iterate manifest); live_container_num = length manifest },
        invalid,
      )
]
