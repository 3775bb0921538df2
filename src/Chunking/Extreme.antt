-- ===== src/Chunking/Extreme.antt =====
-- Asymmetric extremum chunking: destor-master/src/chunking/ae_chunking.c.
use destor_lt.Prelude.{
  ◌≡◌, ◌<◌, refl, arith, none, replicate, length-replicate, ℕ, zero, suc, ◌+◌, ◌-◌, ◌*◌, ◌/◌, ◌||◌,
  List, [], ◌∷◌, leb, ◌==◌, if◌then◌else◌, length, take,
}
use destor_lt.Chunking.{State, cut}

-- `ae_init`: the quotient by `e - 1` for `e = 2.718281828`, without rounding before it is truncated.
unfoldable pub ae_window : ℕ → ℕ
ae_window chunk_avg_size = chunk_avg_size * 1_000_000_000 / 1_718_281_828

-- The number that the first eight bytes make, the first one highest.
unfoldable pub value : ℕ → List ℕ → ℕ
value acc [] = acc
value acc (b ∷ bs) = value (acc * 256 + b) bs

-- The loop from position `curr` to `p + n - 8`, over the bytes from there on; `max` is the position of
-- the extreme value `best`.
unfoldable pub ae_loop : ℕ → ℕ → ℕ → ℕ → ℕ → ℕ → List ℕ → ℕ
ae_loop window chunk_max_size n curr max best [] = n
ae_loop window chunk_max_size n curr max best (b ∷ rest) =
    let here = value 0 (take 8 (b ∷ rest)) in
    let smaller = leb here best in
    let further =
      ae_loop window chunk_max_size n (curr + 1) (if smaller then curr else max)
        (if smaller then here else best) rest in
    if leb curr (n - 8)
    then if smaller
      then further
      else if (curr == max + window) || (curr == chunk_max_size)
      then curr
      else further
    else n

unfoldable pub ae_chunk_data : ℕ → ℕ → List ℕ → ℕ
ae_chunk_data chunk_avg_size chunk_max_size [] = 0
ae_chunk_data chunk_avg_size chunk_max_size (b ∷ p) =
    let n = length (b ∷ p) in
    let window = ae_window chunk_avg_size in
    if leb n (window + 8)
    then n
    else ae_loop window chunk_max_size n 1 0 (value 0 (take 8 (b ∷ p))) p

abbrev pub zeros_of : ℕ → List ℕ
zeros_of n = replicate n 0

value-zeros_of : (k n : ℕ) → value 0 (take k (zeros_of n)) ≡ 0
unfolding value
value-zeros_of zero n = refl
value-zeros_of (suc k) zero = refl
value-zeros_of (suc k) (suc n) = value-zeros_of k n

ae_loop-zeros_of :
    (window chunk_max_size n curr max k : ℕ)
    → ae_loop window chunk_max_size n curr max 0 (zeros_of k) ≡ n
unfolding ae_loop
ae_loop-zeros_of window chunk_max_size n curr max zero = refl
ae_loop-zeros_of window chunk_max_size n curr max (suc k) =
    rw (value-zeros_of 8 (suc k))
      (ground (arith, ae_loop-zeros_of window chunk_max_size n (curr + 1) curr k))

ae_chunk_data-zeros_of :
    (avg chunk_max_size n : ℕ) → ae_chunk_data avg chunk_max_size (zeros_of n) ≡ n
unfolding ae_chunk_data
ae_chunk_data-zeros_of avg chunk_max_size zero = refl
ae_chunk_data-zeros_of avg chunk_max_size (suc n) = rw (value-zeros_of 8 (suc n)) (
    ground (
      arith,
      length-replicate {A = ℕ} (suc n) 0,
      ae_loop-zeros_of (ae_window avg) chunk_max_size (suc n) 1 0 n,
    ))

-- Asymmetric extremum chunking takes bytes that are all zero for one chunk however many there are, so
-- that with more of them left than the maximum the phase compares a chunk past the end of `zeros`.
pub cut-zeros_of :
    (chunk_avg_size chunk_max_size n : ℕ) (st : State)
    → chunk_max_size < n
    → cut
        (record {
          chunk_max_size = chunk_max_size;
          chunking = ae_chunk_data chunk_avg_size chunk_max_size;
        })
        (zeros_of n)
        st
      ≡ none
unfolding cut
cut-zeros_of chunk_avg_size chunk_max_size n st h =
    ground (arith, h, ae_chunk_data-zeros_of chunk_avg_size chunk_max_size n)
