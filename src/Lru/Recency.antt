-- ===== src/Lru/Recency.antt =====
-- What the scans of utils/lru_cache.c do to a list of ids, read against the list of all ids ever
-- used, most recent first.
use destor_lt.Prelude.{
  ℕ, zero, suc, ◌≤◌, ◌≡◌, refl, ap, Bool, true, false, none, some, List, [], ◌∷◌, arith, length,
  take, ◌==◌, if◌then◌else◌,
}
use destor_lt.Lru.{unlink_first, unlink_end}

unfoldable pub contains : ℕ → List ℕ → Bool
contains k [] = false
contains k (x ∷ l) = if x == k then true else contains k l

unfoldable pub without : ℕ → List ℕ → List ℕ
without k [] = []
without k (x ∷ l) = if x == k then l else x ∷ without k l

-- The list of ids after a use of `k`.
abbrev pub touch : ℕ → List ℕ → List ℕ
touch k l = k ∷ without k l

pub unlink_first-id :
    (k : ℕ) (q : List ℕ)
    → unlink_first (λ e. e == k) q ≡ (if contains k q then some (k, without k q) else none)
unfolding unlink_first contains without
unlink_first-id k [] = refl
unlink_first-id k (x ∷ q) = ground (arith, unlink_first-id k q)

pub unlink_end-take :
    (m : ℕ) (q : List ℕ) → length q ≡ suc m → (x : ℕ) × (unlink_end q ≡ some (x, take m q))
unfolding unlink_end
unlink_end-take m [] h = absurd (omega arith)
unlink_end-take zero (x ∷ []) h = (x, refl)
unlink_end-take zero (x ∷ y ∷ q) h = absurd (omega arith)
unlink_end-take (suc m) (x ∷ q) h =
    let (y, e) = unlink_end-take m q (omega arith) in (y, ground arith)

pub take-take : (m : ℕ) (l : List ℕ) → take m (take (suc m) l) ≡ take m l
take-take zero l = refl
take-take (suc m) [] = refl
take-take (suc m) (x ∷ l) = ap (◌∷◌ x) (take-take m l)

pub take-touch_hit :
    (m k : ℕ) (l : List ℕ)
    → contains k (take (suc m) l) ≡ true
    → without k (take (suc m) l) ≡ take m (without k l)
unfolding contains without
take-touch_hit m k [] h = ground arith
take-touch_hit zero k (x ∷ l) h = ground arith
take-touch_hit (suc m) k (x ∷ l) h = ground (arith, take-touch_hit m k l, take-take (suc m) l)

pub take-touch_miss :
    (m k : ℕ) (l : List ℕ) → contains k (take (suc m) l) ≡ false → take m (without k l) ≡ take m l
unfolding contains without
take-touch_miss zero k l h = refl
take-touch_miss (suc m) k [] h = refl
take-touch_miss (suc m) k (x ∷ l) h = ground (arith, take-touch_miss m k l)

-- An id among the first `m` is among the first `n`, if `m ≤ n`.
pub contains-take_mono :
    (m n k : ℕ) (l : List ℕ) → m ≤ n → contains k (take m l) ≡ true → contains k (take n l) ≡ true
unfolding contains
contains-take_mono zero n k l h c = ground arith
contains-take_mono (suc m) zero k l h c = absurd (omega arith)
contains-take_mono (suc m) (suc n) k [] h c = c
contains-take_mono (suc m) (suc n) k (x ∷ l) h c = ground (arith, contains-take_mono m n k l)

pub length-without :
    (k : ℕ) (q : List ℕ) → contains k q ≡ true → length q ≡ suc (length (without k q))
unfolding contains without
length-without k [] h = ground arith
length-without k (x ∷ q) h = ground (arith, length-without k q)
