-- ===== src/Storage/Serial.antt =====
-- The number formats of destor-master/src/utils/serial.c on a little-endian host.
use mathlib.Core.List.{reverse, reverse_aux, reverse-reverse}
use mathlib.Core.Path.{ap₂}
use native.Mathlib.Nat.{pow-suc}
use destor_lt.Prelude.{
  ℕ, zero, suc, ◌+◌, ◌*◌, ◌/◌, ◌%◌, ◌^◌, ◌<◌, ◌≡◌, refl, ◌∙◌, List, [], ◌∷◌, ◌++◌, arith, length,
  take, drop, ap, take-append, drop-append,
}

-- The bytes of a number in the host's memory: what `ser_bytes(&x, w)` writes.
unfoldable pub host_bytes : ℕ → ℕ → List ℕ
host_bytes zero v = []
host_bytes (suc w) v = v % 256 ∷ host_bytes w (v / 256)

unfoldable pub host_value : List ℕ → ℕ
host_value [] = 0
host_value (b ∷ bs) = b + 256 * host_value bs

-- `serial_int32` by `htonl`, and `serial_int64` by its loop `rv[i] = pv[7 - i]`: the host's bytes
-- in the other order.
unfoldable pub serial_int : ℕ → ℕ → List ℕ
serial_int w v = reverse (host_bytes w v)

-- The value read and the input behind it.
unfoldable pub unserial_int : ℕ → List ℕ → ℕ × List ℕ
unserial_int w input = (host_value (reverse (take w input)), drop w input)

unfoldable pub unser_bytes : ℕ → List ℕ → ℕ × List ℕ
unser_bytes w input = (host_value (take w input), drop w input)

pub length-host_bytes : (w v : ℕ) → length (host_bytes w v) ≡ w
unfolding host_bytes
length-host_bytes zero v = refl
length-host_bytes (suc w) v = ap suc (length-host_bytes w (v / 256))

length-reverse_aux : (bs cs : List ℕ) → length (reverse_aux bs cs) ≡ length bs + length cs
length-reverse_aux [] cs = omega arith
length-reverse_aux (b ∷ bs) cs = omega (arith, length-reverse_aux bs (b ∷ cs))

length-reverse : (bs : List ℕ) → length (reverse bs) ≡ length bs
length-reverse bs = omega (arith, length-reverse_aux bs [])

pub length-serial_int : (w v : ℕ) → length (serial_int w v) ≡ w
unfolding serial_int
length-serial_int w v = length-reverse (host_bytes w v) ∙ length-host_bytes w v

pub host_value-host_bytes : (w v : ℕ) → v < 256 ^ w → host_value (host_bytes w v) ≡ v
unfolding host_bytes host_value
host_value-host_bytes zero v h = omega arith
host_value-host_bytes (suc w) v h =
    let bound : v < 256 ^ w * 256 = rw (← pow-suc) h in
    omega (arith, host_value-host_bytes w (v / 256) (omega arith))

-- Reading what was written, in front of any further input.
pub unserial_int-serial_int :
    (w v : ℕ) (rest : List ℕ) → v < 256 ^ w → unserial_int w (serial_int w v ++ rest) ≡ (v, rest)
unfolding unserial_int serial_int
unserial_int-serial_int w v rest h =
    let len = length-serial_int w v in
    ap₂ (λ (a : ℕ) (b : List ℕ). (a, b))
      (ap (λ bs. host_value (reverse bs)) (take-append w (serial_int w v) rest len)
        ∙ ap host_value (reverse-reverse (host_bytes w v))
        ∙ host_value-host_bytes w v h)
      (drop-append w (serial_int w v) rest len)

pub unser_bytes-host_bytes :
    (w v : ℕ) (rest : List ℕ) → v < 256 ^ w → unser_bytes w (host_bytes w v ++ rest) ≡ (v, rest)
unfolding unser_bytes
unser_bytes-host_bytes w v rest h =
    let len = length-host_bytes w v in
    ap₂ (λ (a : ℕ) (b : List ℕ). (a, b))
      (ap host_value (take-append w (host_bytes w v) rest len) ∙ host_value-host_bytes w v h)
      (drop-append w (host_bytes w v) rest len)
