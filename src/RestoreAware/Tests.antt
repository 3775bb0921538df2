-- ===== src/RestoreAware/Tests.antt =====
-- Runs of the monitor of restore_aware.c, and its theorems at one run.
use destor_lt.Prelude.{ℕ, ◌≤◌, ◌≡◌, refl, true, some, List, [], ◌∷◌, arith, take, pos, ◌≢◌}
use destor_lt.Lru.{
  new_lru_cache, unlink_first, unlink_end, lru_cache_lookup, lru_cache_insert,
  lru_cache_lookup_without_update,
}
use destor_lt.RestoreAware.{
  Monitor, init_restore_aware, restore_aware_update, restore_aware_contains, restore_aware_get_cfl,
  monitor_run, container_record_check_id,
}
use destor_lt.RestoreAware.Recency.{monitor_run-recency, ccf_antitone}
use destor_lt.RestoreAware.Tracks.{recency, misses}

program : Unit {0}
unfolding new_lru_cache unlink_first unlink_end lru_cache_lookup lru_cache_insert init_restore_aware
    restore_aware_update monitor_run
program = tt

-- Container 1 is pushed out of a cache of two by 2 and 3, and read again.
abbrev calls : List (ℕ × ℕ)
calls = (1, 4_000_000) ∷ (2, 100) ∷ (1, 100) ∷ (3, 100) ∷ (2, 200_000) ∷ []

abbrev after_two : Monitor
after_two = record {
  total_size = 4_200_440;
  ocf = 2;
  ccf = 4;
  cache = record {
    elem_queue = 2 ∷ 3 ∷ [];
    max_size = pos 2;
    size = 2;
    hit_count = 1;
    miss_count = 4;
    hit_elem = container_record_check_id;
  };
}

run_two : monitor_run calls (init_restore_aware (pos 2)) ≡ some after_two
unfolding program
run_two = refl

cfl_two : (restore_aware_get_cfl after_two ≡ (2, 4)) × (restore_aware_contains after_two 3 ≡ true)
unfolding restore_aware_get_cfl restore_aware_contains lru_cache_lookup_without_update unlink_first
cfl_two = (refl, refl)

abbrev after_three : Monitor
after_three = record after_two {
  ccf = 3;
  cache = record after_two.cache {
    elem_queue = 2 ∷ 3 ∷ 1 ∷ [];
    max_size = pos 3;
    size = 3;
    hit_count = 2;
    miss_count = 3;
  };
}

run_three : monitor_run calls (init_restore_aware (pos 3)) ≡ some after_three
unfolding program
run_three = refl

monitor_run-recency_example :
    (m : Monitor) × (monitor_run calls (init_restore_aware (pos 2)) ≡ some m)
    × (m.cache.elem_queue ≡ take 2 (recency calls []))
    × (m.ccf ≡ misses 2 calls [])
monitor_run-recency_example = monitor_run-recency 1 calls

ccf_antitone_example : 3 ≤ 4
ccf_antitone_example = ccf_antitone 1 2 calls (omega arith) run_two run_three

nonempty : calls ≢ []
nonempty e = cc
