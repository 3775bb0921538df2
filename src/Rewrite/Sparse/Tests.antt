-- ===== src/Rewrite/Sparse/Tests.antt =====
-- Three containers of a backup, two of them sparse, of which the limit leaves one.
use destor_lt.Prelude.{
  ℕ, ◌≡◌, ◌⊎◌, refl, some, List, [], ◌∷◌, ◌++◌, Perm, sum_by, false, HashOrder, insert, lookup,
}
use destor_lt.Rewrite.Sparse.{
  Utilizations, Config, insert_by_size, collect_one, collect, trim, close_har, exceeds,
  har_monitor_update,
}
use destor_lt.Rewrite.Sparse.Limit.{close_har-limit}
use destor_lt.Rewrite.Sparse.Trim.{sparse_of, size_of, IsDescending, Last}

as_stored : HashOrder ℕ
as_stored = record {
  iterate = λ m. m;
  length-iterate = λ m. refl;
  lookup-iterate = λ k m d. refl;
  iterate-Distinct = λ m d. d;
}

abbrev cfg : Config
cfg = record { threshold_num = 1; threshold_den = 2; limit_num = 1; limit_den = 20 }

abbrev monitor : Utilizations
monitor = (3, 1000) ∷ (5, 3_000_000) ∷ (8, 200_000) ∷ []

closed : close_har as_stored cfg ((8, 7) ∷ []) monitor ≡ some ((3, 1000) ∷ [], 3, 2, 1)
unfolding close_har collect collect_one insert_by_size trim lookup as_stored
closed = refl

monitored : har_monitor_update 3 500 monitor ≡ some ((3, 1500) ∷ (5, 3_000_000) ∷ (8, 200_000) ∷ [])
unfolding har_monitor_update insert lookup
monitored = refl

close_har-limit_example :
    (written trimmed : List (ℕ × ℕ)) × (sparse_num inherited_num : ℕ) × (close_har as_stored cfg
        ((8, 7) ∷ [])
        monitor
      ≡ some (written, 3, sparse_num, inherited_num))
    × Perm (trimmed ++ written) (sparse_of cfg (as_stored.iterate monitor))
    × IsDescending (trimmed ++ written)
    × (exceeds cfg (sum_by size_of (as_stored.iterate monitor)) (sum_by size_of written) ≡ false)
    × ((trimmed ≡ []) ⊎ Last cfg (sum_by size_of (as_stored.iterate monitor)) written trimmed)
close_har-limit_example = close_har-limit as_stored cfg ((8, 7) ∷ []) monitor
