-- ===== src/Lru/Bounds.antt =====
-- The size counter of the LRU cache (utils/lru_cache.c) and its bound.
use destor_lt.Prelude.{
  ℕ, suc, ◌≤◌, ◌<◌, ◌≡◌, refl, Bool, Option, none, some, List, [], ◌∷◌, ℤ, pos, negsuc, arith,
  length, Option-cases, List-cases, ◌≢◌, inl, inr,
}
use destor_lt.Lru.{
  LruCache, new_lru_cache, unlink_first, unlink_last, unlink_end, lru_cache_lookup, lru_cache_hits,
  lru_cache_insert, lru_cache_kicks,
}

abbrev pub IsWithin : ℕ → ℤ → Type 0
IsWithin s (pos n) = 0 < n → s ≤ n
IsWithin s (negsuc n) = Unit {0}

-- The counter is the length of the list, and a positive maximum bounds it.
pub record IsValid {ℓ κ} {A : Type ℓ} {U : Type κ} (c : LruCache A U) : Type (ℓ ⊔ κ) where
  pub counted : c.size ≡ length c.elem_queue
  pub within : IsWithin c.size c.max_size

module _ {ℓ} {A : Type ℓ} where
  abbrev Shorter : List A → Option (A × List A) → Type 0
  Shorter q none = Unit
  Shorter q (some (x, r)) = length q ≡ suc (length r)

  pub unlink_first-Shorter : (test : A → Bool) (q : List A) → Shorter q (unlink_first test q)
  unfolding unlink_first
  unlink_first-Shorter test [] = tt
  unlink_first-Shorter test (y ∷ q) = ground (arith, unlink_first-Shorter test q)

  pub unlink_last-Shorter : (test : A → Bool) (q : List A) → Shorter q (unlink_last test q)
  unfolding unlink_last
  unlink_last-Shorter test [] = tt
  unlink_last-Shorter test (y ∷ q) = ground (arith, unlink_last-Shorter test q)

  pub unlink_end-Shorter : (q : List A) → Shorter q (unlink_end q)
  unfolding unlink_end
  unlink_end-Shorter [] = tt
  unlink_end-Shorter (y ∷ q) = ground (arith, unlink_end-Shorter q)

  pub unlink_end-ne-none : (x : A) (q : List A) → unlink_end (x ∷ q) ≢ none
  unfolding unlink_end
  unlink_end-ne-none x q e = ground arith

module _ {ℓ κ} {A : Type ℓ} {U : Type κ} where
  -- A new cache is valid, whatever its maximum.
  pub new_lru_cache-IsValid : (size : ℤ) (hit : A → U → Bool) → IsValid (new_lru_cache size hit)
  unfolding new_lru_cache
  new_lru_cache-IsValid (pos n) hit = record { counted = refl; within = λ h. omega arith }
  new_lru_cache-IsValid (negsuc n) hit = record { counted = refl; within = tt }

  pub lru_cache_lookup-IsValid :
      (c : LruCache A U) (u : U) → IsValid c → IsValid (lru_cache_lookup c u).0
  unfolding lru_cache_lookup
  lru_cache_lookup-IsValid c u v =
      ground (arith, unlink_first-Shorter (λ (e : A). c.hit_elem e u) c.elem_queue)

  pub lru_cache_hits-IsValid :
      (c : LruCache A U) (hit : A → Bool) → IsValid c → IsValid (lru_cache_hits c hit).0
  unfolding lru_cache_hits
  lru_cache_hits-IsValid c hit v = ground (arith, unlink_first-Shorter hit c.elem_queue)

  pub lru_cache_kicks-IsValid :
      (c : LruCache A U) (func : A → Bool) → IsValid c → IsValid (lru_cache_kicks c func).0
  unfolding lru_cache_kicks
  lru_cache_kicks-IsValid c func v = ground (arith, unlink_last-Shorter func c.elem_queue)

  insert-ne-none : (c : LruCache A U) (x : A) → IsValid c → lru_cache_insert c x ≢ none
  unfolding lru_cache_insert
  insert-ne-none c x v e = elim (List-cases c.elem_queue) [
    | inl empty ↦ ground arith
    | inr (y, q, cons) ↦ ground (arith, unlink_end-ne-none y q)
  ]

  insert-keeps :
      (c d : LruCache A U) (x : A) (victim : Option A)
      → IsValid c
      → lru_cache_insert c x ≡ some (d, victim)
      → IsValid d
  unfolding lru_cache_insert
  insert-keeps c d x victim v e = ground (arith, unlink_end-Shorter c.elem_queue)

  -- On a valid cache an insertion never dereferences NULL, and keeps the cache valid: the counter
  -- stays the number of elements and never passes a positive maximum.
  pub lru_cache_insert-IsValid :
      (c : LruCache A U) (x : A)
      → IsValid c
      → (d : LruCache A U) × (victim : Option A) × (lru_cache_insert c x ≡ some (d, victim))
        × IsValid d
  lru_cache_insert-IsValid c x v = elim (Option-cases (lru_cache_insert c x)) [
    | inl e ↦ absurd (insert-ne-none c x v e)
    | inr ((d, victim), e) ↦ (d, victim, e, insert-keeps c d x victim v e)
  ]
