-- ===== src/Lru/Tests.antt =====
-- The LRU cache of utils/lru_cache.c at concrete elements.
use destor_lt.Prelude.{ℕ, true, none, some, [], ◌∷◌, pos, ◌==◌, ◌≡◌, refl}
use destor_lt.Lru.{
  LruCache, new_lru_cache, unlink_first, unlink_last, unlink_end, lru_cache_lookup,
  lru_cache_lookup_without_update, lru_cache_hits, lru_cache_insert, lru_cache_kicks,
  lru_cache_is_full,
}

program : Unit {0}
unfolding unlink_first unlink_last unlink_end new_lru_cache lru_cache_lookup
    lru_cache_lookup_without_update lru_cache_hits lru_cache_insert lru_cache_kicks
    lru_cache_is_full
program = tt

abbrev full_cache : LruCache ℕ ℕ
full_cache = record {
  elem_queue = 4 ∷ 7 ∷ [];
  max_size = pos 2;
  size = 2;
  hit_count = 0;
  miss_count = 0;
  hit_elem = λ e u. e == u;
}

evicts_last :
    lru_cache_insert full_cache 9 ≡ some (record full_cache { elem_queue = 9 ∷ 4 ∷ [] }, some 7)
unfolding program
evicts_last = refl

looks_up_front :
    lru_cache_lookup full_cache 7
    ≡ (record full_cache { elem_queue = 7 ∷ 4 ∷ []; hit_count = 1 }, some 7)
unfolding program
looks_up_front = refl

keeps_order : lru_cache_lookup_without_update full_cache 7 ≡ some 7
unfolding program
keeps_order = refl

kicks_last :
    lru_cache_kicks full_cache (λ e. e == 7)
    ≡ (record full_cache { elem_queue = 4 ∷ []; size = 1 }, some 7)
unfolding program
kicks_last = refl

hits_front : lru_cache_hits full_cache (λ e. e == 5) ≡ (full_cache, none)
unfolding program
hits_front = refl

zero_is_full : lru_cache_is_full (new_lru_cache {A = ℕ} {U = ℕ} (pos 0) (λ e u. e == u)) ≡ true
unfolding program
zero_is_full = refl
