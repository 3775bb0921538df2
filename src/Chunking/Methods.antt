-- ===== src/Chunking/Methods.antt =====
-- The start of the phase in chunk_phase.c: the method that it picks, and what the method does.
use native.Mathlib.Nat.{pow-succ'}
use destor_lt.Prelude.{
  ℕ, zero, suc, ◌+◌, ◌-◌, ◌*◌, ◌/◌, ◌^◌, ◌<◌, ◌≤◌, ◌≡◌, ◌≢◌, inl, inr, refl, ap, ◌∙◌, Bool, true,
  false, ◌&&◌, Bool-cases, Option, none, some, List, arith, leb, ◌==◌, if◌then◌else◌, subst,
}
use destor_lt.Chunk.{container_size, container_meta_size}
use destor_lt.Chunking.{Config, IsChunking, fixed_chunk_data}
use destor_lt.Chunking.Rabin.{
  new_window, is_mark, rabin_loop, rabin_chunk_data, normalized_rabin_chunk_data, normalized_break,
  tttd_loop, tttd_chunk_data,
}
use destor_lt.Chunking.Scan.{
  scan-IsChunking, fixed_chunk_data-IsChunking, rabin_loop-IsLoop, tttd_loop-IsLoop,
}
use destor_lt.Chunking.Extreme.{ae_chunk_data}

-- `chunk_algorithm`.
pub data Algorithm : Type 0 where
  chunk_fixed : Algorithm
  chunk_rabin : Algorithm
  chunk_normalized_rabin : Algorithm
  chunk_file : Algorithm
  chunk_ae : Algorithm
  chunk_tttd : Algorithm

-- The settings of `struct destor`.
pub record Settings : Type 0 where
  pub chunk_algorithm : Algorithm
  pub chunk_max_size : ℕ
  pub chunk_min_size : ℕ
  pub chunk_avg_size : ℕ

-- The two loops that make the average size a power of two, on fuel: the number of shifts that make it
-- 0, and 1 shifted by one less.
unfoldable pub count_shifts : ℕ → ℕ → ℕ
count_shifts zero avg = 0
count_shifts (suc fuel) avg =
    let rest = count_shifts fuel (avg / 2) in if avg == 0 then 0 else rest + 1

unfoldable pub round_avg : ℕ → ℕ
round_avg avg = 2 ^ (count_shifts (suc avg) avg - 1)

abbrev pub max_payload : ℕ
max_payload = container_size - container_meta_size

-- The assertions of the content-defined methods.
abbrev pub fits : ℕ → Settings → Bool
fits avg s =
    leb s.chunk_min_size avg && (leb avg s.chunk_max_size && leb s.chunk_max_size max_payload)

abbrev pub rounded : (ℕ → ℕ → ℕ → List ℕ → ℕ) → Settings → Option Config
rounded method s =
    let avg = round_avg s.chunk_avg_size in
    if s.chunk_avg_size == 0
    then none
    else if fits avg s
    then some (record {
      chunk_max_size = s.chunk_max_size;
      chunking = method s.chunk_min_size avg s.chunk_max_size;
    })
    else none

-- `none` is a failed assertion, or for an average size of 0 the shift by -1.
unfoldable pub start_chunk_phase : Settings → Option Config
start_chunk_phase s = elim s.chunk_algorithm [
  | chunk_rabin ↦ rounded rabin_chunk_data s
  | chunk_normalized_rabin ↦ rounded normalized_rabin_chunk_data s
  | chunk_tttd ↦ rounded tttd_chunk_data s
  | chunk_fixed ↦
      if leb s.chunk_avg_size max_payload
      then some (record {
        chunk_max_size = s.chunk_avg_size;
        chunking = fixed_chunk_data s.chunk_avg_size;
      })
      else none
  | chunk_file ↦
      some (record { chunk_max_size = max_payload; chunking = fixed_chunk_data max_payload })
  | chunk_ae ↦
      if leb s.chunk_avg_size s.chunk_max_size && leb s.chunk_max_size max_payload
      then some (record {
        chunk_max_size = s.chunk_max_size;
        chunking = ae_chunk_data s.chunk_avg_size s.chunk_max_size;
      })
      else none
]

-- What is known of a phase if it starts.
abbrev AllStarts : Option Config → Type 0
AllStarts none = Unit
AllStarts (some cfg) = IsChunking cfg × (0 < cfg.chunk_max_size)

when_starts :
    (test : Bool) (cfg : Config)
    → (test ≡ true → IsChunking cfg × (0 < cfg.chunk_max_size))
    → AllStarts (if test then some cfg else none)
when_starts true cfg h = h refl
when_starts false cfg h = tt

rounded_starts :
    (s : Settings) (method : ℕ → ℕ → ℕ → List ℕ → ℕ)
    → 0 < s.chunk_min_size
    → ((low avg top : ℕ)
        → 0 < low
        → low ≤ top
        → IsChunking (record { chunk_max_size = top; chunking = method low avg top }))
    → AllStarts (rounded method s)
rounded_starts s method some_min good =
    let avg = round_avg s.chunk_avg_size in
    elim (Bool-cases (s.chunk_avg_size == 0)) [
      | inl empty ↦ rw empty tt
      | inr some_avg ↦ rw some_avg (
          when_starts (fits avg s)
            (record {
              chunk_max_size = s.chunk_max_size;
              chunking = method s.chunk_min_size avg s.chunk_max_size;
            })
            (λ test.
              let ordered : s.chunk_min_size ≤ s.chunk_max_size = ground (arith, test) in
              (
                good s.chunk_min_size avg s.chunk_max_size some_min ordered,
                omega (arith, ordered),
              )))
    ]

starts_by :
    (s : Settings) (algorithm : Algorithm)
    → s.chunk_algorithm ≡ algorithm
    → algorithm ≢ chunk_ae
    → 0 < s.chunk_min_size
    → 0 < s.chunk_avg_size
    → AllStarts (start_chunk_phase s)
unfolding start_chunk_phase rabin_chunk_data normalized_rabin_chunk_data tttd_chunk_data
starts_by s chunk_rabin is other some_min some_avg = rw is (
    rounded_starts s rabin_chunk_data some_min (λ low avg top some_low ordered.
      scan-IsChunking low top
        (λ end rest. rabin_loop (λ i fp. is_mark (avg - 1) fp) end low new_window rest)
        (rabin_loop-IsLoop low (λ i fp. is_mark (avg - 1) fp)) some_low ordered))
starts_by s chunk_normalized_rabin is other some_min some_avg = rw is (
    rounded_starts s normalized_rabin_chunk_data some_min (λ low avg top some_low ordered.
      scan-IsChunking low top
        (λ end rest. rabin_loop (normalized_break avg) end low new_window rest)
        (rabin_loop-IsLoop low (normalized_break avg)) some_low ordered))
starts_by s chunk_tttd is other some_min some_avg = rw is (
    rounded_starts s tttd_chunk_data some_min (λ low avg top some_low ordered.
      scan-IsChunking low top (λ end rest. tttd_loop avg end low 0 new_window rest)
        (tttd_loop-IsLoop low avg) some_low ordered))
starts_by s chunk_fixed is other some_min some_avg = rw is (
    when_starts (leb s.chunk_avg_size max_payload)
      (record { chunk_max_size = s.chunk_avg_size; chunking = fixed_chunk_data s.chunk_avg_size })
      (λ test. (fixed_chunk_data-IsChunking s.chunk_avg_size some_avg, some_avg)))
starts_by s chunk_file is other some_min some_avg =
    rw is (fixed_chunk_data-IsChunking max_payload (omega arith), omega arith)
starts_by s chunk_ae is other some_min some_avg = absurd (other refl)

-- With a positive minimum and average size, if the phase starts with a method other than AE then the
-- method, with the maximum set for it, cuts off at least one and no more than the maximum of the bytes
-- left, and its cut depends on no byte behind the maximum.
pub start_chunk_phase-IsChunking :
    (s : Settings) (cfg : Config)
    → s.chunk_algorithm ≢ chunk_ae
    → 0 < s.chunk_min_size
    → 0 < s.chunk_avg_size
    → start_chunk_phase s ≡ some cfg
    → IsChunking cfg × (0 < cfg.chunk_max_size)
start_chunk_phase-IsChunking s cfg other some_min some_avg started =
    subst AllStarts started (starts_by s s.chunk_algorithm refl other some_min some_avg)

count_shifts_zero : (fuel : ℕ) → count_shifts fuel 0 ≡ 0
unfolding count_shifts
count_shifts_zero zero = refl
count_shifts_zero (suc fuel) = refl

halved_power :
    (k avg : ℕ)
    → 2 ^ k ≤ avg / 2
    → avg / 2 < 2 ^ suc k
    → (2 ^ suc k ≤ avg) × (avg < 2 ^ suc (suc k))
halved_power k avg low high =
    let below : 2 ^ suc k ≡ 2 * 2 ^ k = pow-succ' 2 k in
    let above : 2 ^ suc (suc k) ≡ 2 * 2 ^ suc k = pow-succ' 2 (suc k) in
    (omega (arith, below, low), omega (arith, above, high))

count_shifts_lem :
    (fuel avg : ℕ)
    → 0 < avg
    → avg ≤ fuel
    → (k : ℕ) × (count_shifts fuel avg ≡ suc k) × (2 ^ k ≤ avg) × (avg < 2 ^ suc k)
unfolding count_shifts
count_shifts_lem zero avg some_avg h = absurd (omega arith)
count_shifts_lem (suc fuel) avg some_avg h = elim (Bool-cases (leb 2 avg)) [
  | inl test ↦
      let (k, count, low, high) =
        count_shifts_lem fuel (avg / 2) (ground (arith, test)) (omega arith) in
      let (low', high') = halved_power k avg low high in (suc k, ground (arith, count), low', high')
  | inr test ↦ (0, ground (arith, count_shifts_zero fuel, test), some_avg, ground (arith, test))
]

-- For a positive size within 64 bits, the two loops end and leave the largest power of two that is no
-- larger.
pub round_avg-power :
    (avg : ℕ) → 0 < avg → (k : ℕ) × (round_avg avg ≡ 2 ^ k) × (2 ^ k ≤ avg) × (avg < 2 ^ suc k)
unfolding round_avg
round_avg-power avg some_avg =
    let (k, count, low, high) = count_shifts_lem (suc avg) avg some_avg (omega arith) in
    (k, ap (λ n. 2 ^ (n - 1)) count ∙ ap (λ n. 2 ^ n) (omega arith), low, high)
