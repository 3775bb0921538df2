-- ===== src/RestoreAware/Recency.antt =====
-- The containers that the monitor of restore_aware.c holds, and its count of container reads.
use destor_lt.Prelude.{
  ℕ, suc, ◌+◌, ◌-◌, ◌*◌, ◌≤◌, ◌<◌, ◌≡◌, refl, some, List, [], ◌∷◌, arith, take, inl, inr, pos, ◌≢◌,
  Option-cases, sum_by, ◌/◌,
}
use destor_lt.Chunk.{container_size, container_meta_entry}
use destor_lt.Lru.{new_lru_cache}
use destor_lt.Lru.Recency.{touch, contains-take_mono}
use destor_lt.RestoreAware.{Monitor, init_restore_aware, restore_aware_update, monitor_run}
use destor_lt.RestoreAware.Tracks.{recency, misses, Tracks, update-Tracks}

run-Tracks :
    (n : ℕ) (calls : List (ℕ × ℕ)) (l : List ℕ) (m : Monitor)
    → Tracks n l m
    → (m' : Monitor) × (monitor_run calls m ≡ some m')
      × Tracks n (recency calls l) m'
      × (m'.ccf ≡ m.ccf + misses (suc n) calls l)
unfolding monitor_run recency misses
run-Tracks n [] l m t = (m, refl, t, omega arith)
run-Tracks n ((id, len) ∷ calls) l m t =
    let (m₁, e, t₁, c₁) = update-Tracks n id len l m t in
    let (m₂, f, t₂, c₂) = run-Tracks n calls (touch id l) m₁ t₁ in
    (m₂, rw (e, monitor_run) f, t₂, omega arith)

init-Tracks : (n : ℕ) → Tracks n [] (init_restore_aware (pos (suc n)))
unfolding init_restore_aware new_lru_cache
init-Tracks n = record { queue = refl; counted = refl; maximum = refl; by_id = refl }

-- With a restore cache of `n + 1` containers no sequence of calls crashes; the monitor's cache then
-- holds the last `n + 1` containers used, in the order of their last use, and `ccf` is the number of
-- calls whose container was not among the last `n + 1` used before it.
pub monitor_run-recency :
    (n : ℕ) (calls : List (ℕ × ℕ))
    → (m : Monitor) × (monitor_run calls (init_restore_aware (pos (suc n))) ≡ some m)
      × (m.cache.elem_queue ≡ take (suc n) (recency calls []))
      × (m.ccf ≡ misses (suc n) calls [])
unfolding init_restore_aware
monitor_run-recency n calls =
    let (m, e, t, c) = run-Tracks n calls [] (init_restore_aware (pos (suc n))) (init-Tracks n) in
    (m, e, t.queue, omega arith)

misses_antitone :
    (m n : ℕ) (calls : List (ℕ × ℕ)) (l : List ℕ) → m ≤ n → misses n calls l ≤ misses m calls l
unfolding misses
misses_antitone m n [] l h = omega arith
misses_antitone m n ((id, len) ∷ calls) l h =
    ground (arith, misses_antitone m n calls (touch id l) h, contains-take_mono m n id l h)

-- A larger restore cache never makes the monitor count more container reads on the same calls.
pub ccf_antitone :
    (m n : ℕ) (calls : List (ℕ × ℕ)) {small large : Monitor}
    → m ≤ n
    → monitor_run calls (init_restore_aware (pos (suc m))) ≡ some small
    → monitor_run calls (init_restore_aware (pos (suc n))) ≡ some large
    → large.ccf ≤ small.ccf
ccf_antitone m n calls {small} {large} h p q =
    let (s, ps, _, cs) = monitor_run-recency m calls in
    let (r, pr, _, cr) = monitor_run-recency n calls in
    let same_s : s ≡ small = cc in
    let same_r : r ≡ large = cc in
    rw (← same_s, ← same_r, cs, cr) (misses_antitone (suc m) (suc n) calls [] (omega arith))

update-total :
    (m m' : Monitor) (id len : ℕ)
    → restore_aware_update m id len ≡ some m'
    → (m'.total_size ≡ m.total_size + (len + container_meta_entry))
      × (m'.ocf ≡ (m'.total_size + container_size - 1) / container_size)
unfolding restore_aware_update
update-total m m' id len e = ground arith

abbrev Totalled : List (ℕ × ℕ) → Monitor → Monitor → Type 0
Totalled calls m m' =
    (m'.total_size ≡ m.total_size + sum_by (λ c. c.1 + container_meta_entry) calls)
    × (calls ≢ []
        → (m'.total_size ≤ m'.ocf * container_size)
          × (m'.ocf * container_size < m'.total_size + container_size))

total-step :
    (calls : List (ℕ × ℕ)) (m m₁ m' : Monitor) (id len : ℕ)
    → restore_aware_update m id len ≡ some m₁
    → monitor_run calls m₁ ≡ some m'
    → (monitor_run calls m₁ ≡ some m' → Totalled calls m₁ m')
    → Totalled ((id, len) ∷ calls) m m'
unfolding monitor_run
total-step [] m m₁ m' id len step run ih = (
  ground (arith, update-total m m₁ id len step),
  λ _. ground (arith, update-total m m₁ id len step),
)
total-step (c ∷ calls) m m₁ m' id len step run ih =
    (omega (arith, (ih run).0, (update-total m m₁ id len step).0), λ _. (ih run).1 (λ p. cc))

run-Totalled :
    (calls : List (ℕ × ℕ)) (m : Monitor) {m' : Monitor}
    → monitor_run calls m ≡ some m'
    → Totalled calls m m'
unfolding monitor_run
run-Totalled [] m e = (ground arith, λ p. absurd (p refl))
run-Totalled ((id, len) ∷ calls) m {m'} e = elim (Option-cases (restore_aware_update m id len)) [
  | inl crash ↦ ground arith
  | inr (m₁, step) ↦ total-step calls m m₁ m' id len step (ground arith) (run-Totalled calls m₁)
]

-- After any successful calls, at least one, whatever the cache: `total_size` has grown by 28 bytes
-- and the chunk's size for each call, and `ocf` is the least number of containers that can hold it.
pub monitor_run-total :
    (calls : List (ℕ × ℕ)) (m : Monitor) {m' : Monitor}
    → calls ≢ []
    → monitor_run calls m ≡ some m'
    → (m'.total_size ≡ m.total_size + sum_by (λ c. c.1 + container_meta_entry) calls)
      × (m'.total_size ≤ m'.ocf * container_size)
      × (m'.ocf * container_size < m'.total_size + container_size)
monitor_run-total calls m nonempty e =
    let (total, ceiling) = run-Totalled calls m e in
    (total, (ceiling nonempty).0, (ceiling nonempty).1)
