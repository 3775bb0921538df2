-- ===== src/Lru.antt =====
-- The LRU cache of destor-master/src/utils/lru_cache.c, most recently used element first. A GList
-- is a list; the callbacks `hit_elem`, `hit` and `func` are Boolean functions.
pub mod Bounds
pub mod Recency
mod Tests
use destor_lt.Prelude.{
  ℕ, ◌+◌, ◌-◌, Bool, true, false, Option, none, some, List, [], ◌∷◌, ℤ, pos, negsuc, ltb, leb, ◌==◌,
  ◌&&◌, if◌then◌else◌,
}

pub record LruCache {ℓ κ} (A : Type ℓ) (U : Type κ) : Type (ℓ ⊔ κ) where
  pub elem_queue : List A
  -- below zero: an infinite cache
  pub max_size : ℤ
  pub size : ℕ
  pub hit_count : ℕ
  pub miss_count : ℕ
  pub hit_elem : A → U → Bool

unfoldable pub new_lru_cache {ℓ κ} : {A : Type ℓ} {U : Type κ} → ℤ → (A → U → Bool) → LruCache A U
new_lru_cache size hit_elem = record {
  elem_queue = [];
  max_size = size;
  size = 0;
  hit_count = 0;
  miss_count = 0;
  hit_elem = hit_elem;
}

module _ {ℓ} {A : Type ℓ} where
  -- The scan from the front: the first element that passes, and the list with its link removed.
  unfoldable pub unlink_first : (A → Bool) → List A → Option (A × List A)
  unlink_first test [] = none
  unlink_first test (x ∷ q) =
      if test x
      then some (x, q)
      else (elim (unlink_first test q) [ none ↦ none | some (y, r) ↦ some (y, x ∷ r) ])

  -- The scan from the back.
  unfoldable pub unlink_last : (A → Bool) → List A → Option (A × List A)
  unlink_last test [] = none
  unlink_last test (x ∷ q) = elim (unlink_last test q) [
    | none ↦ if test x then some (x, q) else none
    | some (y, r) ↦ some (y, x ∷ r)
  ]

  -- `g_list_last` and the removal of its link; `none` is the NULL of an empty list.
  unfoldable pub unlink_end : List A → Option (A × List A)
  unlink_end [] = none
  unlink_end (x ∷ q) = elim (unlink_end q) [ none ↦ some (x, q) | some (y, r) ↦ some (y, x ∷ r) ]

abbrev pub is_positive : ℤ → Bool
is_positive (pos n) = ltb 0 n
is_positive (negsuc n) = false

abbrev pub is_at : ℕ → ℤ → Bool
is_at s (pos n) = s == n
is_at s (negsuc n) = false

module _ {ℓ κ} {A : Type ℓ} {U : Type κ} where
  unfoldable pub lru_cache_lookup : LruCache A U → U → LruCache A U × Option A
  lru_cache_lookup c user_data = elim (unlink_first (λ e. c.hit_elem e user_data) c.elem_queue) [
    | none ↦ (record c { miss_count = c.miss_count + 1 }, none)
    | some (e, q) ↦ (record c { elem_queue = e ∷ q; hit_count = c.hit_count + 1 }, some e)
  ]

  unfoldable pub lru_cache_lookup_without_update : LruCache A U → U → Option A
  lru_cache_lookup_without_update c user_data =
      elim (unlink_first (λ e. c.hit_elem e user_data) c.elem_queue) [
        | none ↦ none
        | some (e, _) ↦ some e
      ]

  unfoldable pub lru_cache_hits : LruCache A U → (A → Bool) → LruCache A U × Option A
  lru_cache_hits c hit = elim (unlink_first hit c.elem_queue) [
    | none ↦ (c, none)
    | some (e, q) ↦ (record c { elem_queue = e ∷ q }, some e)
  ]

  -- The new cache and the victim that was freed; `none` is the crash at `last->data` of a NULL
  -- `last`.
  unfoldable pub lru_cache_insert : LruCache A U → A → Option (LruCache A U × Option A)
  lru_cache_insert c elem =
      if is_positive c.max_size && is_at c.size c.max_size
      then (elim (unlink_end c.elem_queue) [
        | none ↦ none
        | some (victim, q) ↦
            some (record c { elem_queue = elem ∷ q; size = c.size - 1 + 1 }, some victim)
      ])
      else some (record c { elem_queue = elem ∷ c.elem_queue; size = c.size + 1 }, none)

  -- The new cache and the element that was freed.
  unfoldable pub lru_cache_kicks : LruCache A U → (A → Bool) → LruCache A U × Option A
  lru_cache_kicks c func = elim (unlink_last func c.elem_queue) [
    | none ↦ (c, none)
    | some (e, q) ↦ (record c { elem_queue = q; size = c.size - 1 }, some e)
  ]

  unfoldable pub lru_cache_is_full : LruCache A U → Bool
  lru_cache_is_full c = elim c.max_size [ pos n ↦ leb n c.size | negsuc n ↦ false ]
