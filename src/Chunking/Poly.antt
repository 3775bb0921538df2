-- ===== src/Chunking/Poly.antt =====
-- Polynomials over two elements as 64-bit words, for the rolling fingerprint of
-- destor-master/src/chunking/rabin_chunking.c.
use Prim.Native.Nat.{bit_or, bit_xor}
use destor_lt.Prelude.{ℕ, zero, suc, ◌+◌, ◌-◌, ◌*◌, ◌/◌, ◌%◌, ◌^◌, ltb, ◌==◌, if◌then◌else◌}

-- A shift to the left drops the bits above 63.
abbrev pub shl : ℕ → ℕ → ℕ
shl x k = (x * 2 ^ k) % 2 ^ 64

abbrev pub shr : ℕ → ℕ → ℕ
shr x k = x / 2 ^ k

abbrev bit : ℕ → ℕ → ℕ
bit x i = (x / 2 ^ i) % 2

-- The table `bytemsb`: the number of binary digits of a byte.
unfoldable pub bytemsb : ℕ → ℕ
bytemsb v =
    if v == 0
    then 0
    else if ltb v 2
    then 1
    else if ltb v 4
    then 2
    else if ltb v 8
    then 3
    else if ltb v 16
    then 4
    else if ltb v 32
    then 5
    else if ltb v 64
    then 6
    else if ltb v 128
    then 7
    else 8

-- On 32 bits; the tests of masks are tests of the shifted value.
unfoldable pub fls32 : ℕ → ℕ
fls32 v =
    if shr v 16 == 0
    then (if shr v 8 == 0 then bytemsb v else 8 + bytemsb (shr v 8))
    else if shr v 24 == 0
    then 16 + bytemsb (shr v 16)
    else 24 + bytemsb (shr v 24)

unfoldable pub fls64 : ℕ → ℕ
fls64 v = if shr v 32 == 0 then fls32 v else 32 + fls32 (shr v 32)

-- The loop from `i - 1` down to 0 over the high word.
unfoldable pub reduce_high : ℕ → ℕ → ℕ → ℕ → ℕ
reduce_high zero d nh nl = nl
reduce_high (suc i) d nh nl =
    reduce_high i d (if bit nh i == 0 then nh else bit_xor nh (shr d (63 - i)))
      (if bit nh i == 0 then nl else bit_xor nl (shl d (i + 1)))

-- The loop over the low word, from bit `k + n - 1` down to bit `k`.
unfoldable pub reduce_low : ℕ → ℕ → ℕ → ℕ → ℕ
reduce_low zero k d nl = nl
reduce_low (suc n) k d nl =
    reduce_low n k d (if bit nl (k + n) == 0 then nl else bit_xor nl (shr d (63 - (k + n))))

unfoldable pub polymod : ℕ → ℕ → ℕ → ℕ
polymod nh nl d =
    let k = fls64 d - 1 in
    let d' = shl d (63 - k) in
    let nh' = if bit nh 63 == 0 then nh else bit_xor nh d' in
    reduce_low (64 - k) k d' (if nh == 0 then nl else reduce_high 63 d' nh' nl)

-- The loop over the bits of `x`, `n` of them left; the high and the low word of the product.
unfoldable pub mult_loop : ℕ → ℕ → ℕ → ℕ → ℕ → ℕ × ℕ
mult_loop zero x y ph pl = (ph, pl)
mult_loop (suc n) x y ph pl =
    let i = 63 - n in
    mult_loop n x y (if bit x i == 0 then ph else bit_xor ph (shr y (64 - i)))
      (if bit x i == 0 then pl else bit_xor pl (shl y i))

unfoldable pub polymult : ℕ → ℕ → ℕ × ℕ
polymult x y = mult_loop 63 x y 0 (if bit x 0 == 0 then 0 else y)

unfoldable pub polymmult : ℕ → ℕ → ℕ → ℕ
polymmult x y d = let (h, l) = polymult x y in polymod h l d

-- FINGERPRINT_PT, and `shift` and `T` as `calcT` sets them for it.
abbrev pub fingerprint_pt : ℕ
fingerprint_pt = 0xbfe6_b8a5_bf37_8d83

unfoldable pub shift : ℕ → ℕ
shift poly = fls64 poly - 1 - 8

unfoldable pub calc_t : ℕ → ℕ → ℕ
calc_t poly j =
    let xshift = fls64 poly - 1 in
    bit_or (polymmult j (polymod 0 (shl 1 xshift) poly) poly) (shl j xshift)

unfoldable pub append8 : ℕ → ℕ → ℕ → ℕ
append8 poly p m = bit_xor (bit_or (shl p 8) m) (calc_t poly (shr p (shift poly)))

-- `sizeshift` after `n` rounds of the loop of `window_init`.
unfoldable pub size_shift : ℕ → ℕ → ℕ → ℕ
size_shift poly zero s = s
size_shift poly (suc n) s = size_shift poly n (append8 poly s 0)

-- The size of the window, and the table `U` as `window_init` sets it.
abbrev pub window_size : ℕ
window_size = 48

unfoldable pub window_u : ℕ → ℕ → ℕ
window_u poly i = polymmult i (size_shift poly (window_size - 1) 1) poly
