-- ===== src/RestoreAware/Tracks.antt =====
-- One step of the simulated restore cache of restore_aware.c against the order of last use.
use destor_lt.Prelude.{
  ℕ, suc, ◌+◌, ◌-◌, ◌≤◌, ◌≡◌, sym, ap, ◌∙◌, ℕ_discrete, refl, true, false, none, some, List, [],
  ◌∷◌, arith, length, take, if◌then◌else◌, Bool-cases, inl, inr, length-take, take_of_length-le,
  pos, ◌≢◌,
}
use destor_lt.Lru.{unlink_first, unlink_end, lru_cache_lookup, lru_cache_insert}
use destor_lt.Lru.Recency.{
  contains, without, length-without, touch, unlink_first-id, unlink_end-take, take-take,
  take-touch_hit, take-touch_miss,
}
use destor_lt.RestoreAware.{Monitor, grow, container_record_check_id, restore_aware_update}

-- The ids of all calls, the last used first.
unfoldable pub recency : List (ℕ × ℕ) → List ℕ → List ℕ
recency [] l = l
recency ((id, _) ∷ calls) l = recency calls (touch id l)

-- The calls that find their id outside the first `n` of the ids used before.
unfoldable pub misses : ℕ → List (ℕ × ℕ) → List ℕ → ℕ
misses n [] l = 0
misses n ((id, _) ∷ calls) l =
    (if contains id (take n l) then 0 else 1) + misses n calls (touch id l)

-- The monitor of a cache of `suc n` containers after the ids `l`.
pub record Tracks (n : ℕ) (l : List ℕ) (m : Monitor) : Type 0 where
  pub queue : m.cache.elem_queue ≡ take (suc n) l
  pub counted : m.cache.size ≡ length m.cache.elem_queue
  pub maximum : m.cache.max_size ≡ pos (suc n)
  pub by_id : m.cache.hit_elem ≡ container_record_check_id

module _ (n id len : ℕ) (l : List ℕ) (m : Monitor) (t : Tracks n l m) where
  scan :
      unlink_first (λ e. m.cache.hit_elem e id) m.cache.elem_queue
      ≡ (if contains id (take (suc n) l) then some (id, without id (take (suc n) l)) else none)
  scan = rw (t.by_id, t.queue) (unlink_first-id id (take (suc n) l))

  evicted :
      length (take (suc n) l) ≡ suc n
      → (x : ℕ) × (unlink_end m.cache.elem_queue ≡ some (x, take n l))
  evicted full =
      let (x, e) = unlink_end-take n (take (suc n) l) full in
      (x, rw (t.queue, e) (rw take-take refl))

  abbrev Kept : ℕ → Type 0
  Kept reads =
      (m' : Monitor) × (restore_aware_update m id len ≡ some m')
      × Tracks n (touch id l) m'
      × (m'.ccf ≡ m.ccf + reads)

  hit : contains id (take (suc n) l) ≡ true → Kept 0
  unfolding restore_aware_update lru_cache_lookup
  hit h = (
    record (grow m len) {
      cache = record m.cache {
        elem_queue = id ∷ without id (take (suc n) l);
        hit_count = m.cache.hit_count + 1;
      };
    },
    ground (arith, scan, h),
    record {
      queue = ap (◌∷◌ id) (take-touch_hit n id l h);
      counted = omega (arith, t.counted, ap length t.queue, length-without id (take (suc n) l) h);
      maximum = t.maximum;
      by_id = t.by_id;
    },
    omega arith,
  )

  miss_full : contains id (take (suc n) l) ≡ false → length (take (suc n) l) ≡ suc n → Kept 1
  unfolding restore_aware_update lru_cache_lookup lru_cache_insert
  miss_full h full = (
    record (grow m len) {
      ccf = m.ccf + 1;
      cache = record m.cache {
        elem_queue = id ∷ take n l;
        size = m.cache.size - 1 + 1;
        miss_count = m.cache.miss_count + 1;
      };
    },
    ground (arith, scan, h, t.maximum, t.counted, ap length t.queue, evicted full),
    record {
      queue = ap (◌∷◌ id) (sym (take-touch_miss n id l h));
      counted = omega (arith, t.counted, ap length t.queue, length-take (suc n) l, length-take n l);
      maximum = t.maximum;
      by_id = t.by_id;
    },
    omega arith,
  )

  miss_room : contains id (take (suc n) l) ≡ false → length (take (suc n) l) ≢ suc n → Kept 1
  unfolding restore_aware_update lru_cache_lookup lru_cache_insert
  miss_room h room =
      let small : length l ≤ n = omega (arith, length-take (suc n) l) in
      let all : take (suc n) l ≡ take n l =
        take_of_length-le (suc n) l (omega arith) ∙ sym (take_of_length-le n l small) in
      (
        record (grow m len) {
          ccf = m.ccf + 1;
          cache = record m.cache {
            elem_queue = id ∷ take (suc n) l;
            size = m.cache.size + 1;
            miss_count = m.cache.miss_count + 1;
          };
        },
        ground (arith, scan, h, t.maximum, t.counted, t.queue, ap length t.queue, room),
        record {
          queue = ap (◌∷◌ id) (all ∙ sym (take-touch_miss n id l h));
          counted = omega (arith, t.counted, ap length t.queue);
          maximum = t.maximum;
          by_id = t.by_id;
        },
        omega arith,
      )

  pub update-Tracks : Kept (if contains id (take (suc n) l) then 0 else 1)
  update-Tracks = elim (Bool-cases (contains id (take (suc n) l))) [
    | inl h ↦ rw h (hit h)
    | inr h ↦ elim (ℕ_discrete (length (take (suc n) l)) (suc n)) [
      | yes full ↦ rw h (miss_full h full)
      | no room ↦ rw h (miss_room h room)
    ]
  ]
