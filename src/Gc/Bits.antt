-- ===== src/Gc/Bits.antt =====
-- The bits of `index_bit` in gc/gc_rtm.c, counted from 1.
use destor_lt.Prelude.{
  ℕ, suc, ◌/◌, ◌%◌, ◌<◌, ◌≡◌, refl, arith, true, ◌&&◌, some, ◌==◌, if◌then◌else◌,
}
use destor_lt.Gc.{Words, int32_bound, locate, put_bit, set_index_bit, get_index_bit}

-- The words and the bits follow each other from bit 1 on.
pub locate-at : (n : ℕ) → suc n < int32_bound → locate (suc n) ≡ some (n / 32, n % 32)
unfolding locate
locate-at n h = ground (arith, h)

pub get_index_bit-at :
    (n : ℕ) (words : Words)
    → suc n < int32_bound
    → get_index_bit (suc n) words ≡ some (words (n / 32) (n % 32))
unfolding get_index_bit
get_index_bit-at n words h = rw (get_index_bit, locate-at n h) refl

same_place : (m n : ℕ) → ((m / 32 == n / 32) && (m % 32 == n % 32)) ≡ (n == m)
same_place m n = ground arith

-- Setting a bit from 1 to 2^31 - 1, the int32_t above 0, stays inside the array; it sets that bit and changes no other.
pub get-set_index_bit :
    (n : ℕ) (words : Words)
    → suc n < int32_bound
    → (words' : Words) × (set_index_bit (suc n) words ≡ some words')
      × ((m : ℕ)
          → suc m < int32_bound
          → get_index_bit (suc m) words'
            ≡ (if n == m then some true else get_index_bit (suc m) words))
unfolding set_index_bit
get-set_index_bit n words h = (
  put_bit (n / 32) (n % 32) words,
  rw (set_index_bit, locate-at n h) refl,
  λ m k.
      rw
        (
          get_index_bit-at m words k,
          get_index_bit-at m (put_bit (n / 32) (n % 32) words) k,
          same_place m n,
        )
        (ground arith),
)
