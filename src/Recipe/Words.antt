-- ===== src/Recipe/Words.antt =====
-- Signed integers as the words that hold them, of some number of bytes.
use destor_lt.Prelude.{
  ℕ, ◌+◌, ◌-◌, ◌^◌, ◌<◌, ◌≡◌, ap, arith, Bool, true, false, ltb, ◌==◌, if◌then◌else◌, ℤ, pos,
  negsuc,
}

unfoldable pub to_word : ℕ → ℤ → ℕ
to_word w (pos n) = n
to_word w (negsuc n) = 256 ^ w - (n + 1)

unfoldable pub of_word : ℕ → ℕ → ℤ
of_word w v = if ltb (v + v) (256 ^ w) then pos v else negsuc (256 ^ w - (v + 1))

abbrev pub eq_int : ℤ → ℤ → Bool
eq_int (pos m) (pos n) = m == n
eq_int (pos m) (negsuc n) = false
eq_int (negsuc m) (pos n) = false
eq_int (negsuc m) (negsuc n) = m == n

-- An integer that a word of this many bytes holds.
abbrev pub IsWord : ℕ → ℤ → Type 0
IsWord w (pos n) = n + n < 256 ^ w
IsWord w (negsuc n) = n + n + 1 < 256 ^ w

pub of_word-to_word : (w : ℕ) (z : ℤ) → IsWord w z → of_word w (to_word w z) ≡ z
unfolding of_word to_word
of_word-to_word w (pos n) h = ground arith
of_word-to_word w (negsuc n) h =
    let back : 256 ^ w - (256 ^ w - (n + 1) + 1) ≡ n = omega arith in ground (arith, ap negsuc back)

pub to_word_small : (w : ℕ) (z : ℤ) → IsWord w z → to_word w z < 256 ^ w
unfolding to_word
to_word_small w (pos n) h = omega arith
to_word_small w (negsuc n) h = omega arith

pub eq_int_refl : (a : ℤ) → eq_int a a ≡ true
eq_int_refl (pos m) = ground arith
eq_int_refl (negsuc m) = ground arith

pub eq_int_sound : (a b : ℤ) → eq_int a b ≡ true → a ≡ b
eq_int_sound (pos m) (pos n) h = ap pos (ground (arith, h))
eq_int_sound (pos m) (negsuc n) h = ground (arith, h)
eq_int_sound (negsuc m) (pos n) h = ground (arith, h)
eq_int_sound (negsuc m) (negsuc n) h = ap negsuc (ground (arith, h))
