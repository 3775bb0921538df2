-- ===== src/Rewrite/Har.antt =====
-- History-aware rewriting: the check of destor-master/src/har_rewrite.c.
use destor_lt.Prelude.{ℕ, Bool, true, false, not, ◌&&◌, none, some, List, if◌then◌else◌, lookup}
use destor_lt.Chunk.{Chunk, ContainerId, is_file_signal}

-- `rewrite_enable_har`, and the sizes of the inherited sparse containers by id.
pub record Har : Type 0 where
  pub enabled : Bool
  pub inherited_sparse_containers : List (ℕ × ℕ)

abbrev pub is_sparse : List (ℕ × ℕ) → ContainerId → Bool
is_sparse containers none = false
is_sparse containers (some id) = elim (lookup id containers) [ none ↦ false | some _ ↦ true ]

-- TEMPORARY_ID is no key of the table.
unfoldable pub har_check : List (ℕ × ℕ) → Chunk → Chunk
har_check inherited_sparse_containers c =
    if not (is_file_signal c) && (c.flag.duplicate && is_sparse inherited_sparse_containers c.id)
    then record c { flag = record c.flag { sparse = true } }
    else c
