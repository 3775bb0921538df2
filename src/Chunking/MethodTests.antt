-- ===== src/Chunking/MethodTests.antt =====
-- The methods of rabin_chunking.c and ae_chunking.c on small settings and buffers.
use destor_lt.Prelude.{
  ℕ, zero, suc, ◌+◌, ◌%◌, ◌<◌, ◌≡◌, ◌≢◌, subst, refl, some, none, List, [], ◌∷◌, arith,
}
use destor_lt.Chunking.{Config, State, cut, IsChunking}
use destor_lt.Chunking.Poly.{
  bytemsb, fls32, fls64, reduce_high, reduce_low, polymod, mult_loop, polymult, polymmult, shift,
  calc_t, append8, size_shift, window_u,
}
use destor_lt.Chunking.Rabin.{rabin_chunk_data, tttd_chunk_data, rabin_loop, slide}
use destor_lt.Chunking.Extreme.{ae_chunk_data, zeros_of, cut-zeros_of}
use destor_lt.Chunking.Methods.{
  Algorithm, chunk_tttd, chunk_ae, Settings, start_chunk_phase, count_shifts, round_avg,
  start_chunk_phase-IsChunking,
}

abbrev fresh : State
fresh = record { out = []; zero_chunk_num = 0; zero_chunk_size = 0 }

abbrev IsTttd : Algorithm → Type 0
IsTttd chunk_tttd = Unit
IsTttd other = ⊥

cut-zeros_of_example :
    cut (record { chunk_max_size = 4; chunking = ae_chunk_data 2 4 }) (zeros_of 6) fresh ≡ none
cut-zeros_of_example = cut-zeros_of 2 4 6 fresh (omega arith)

abbrev tttd : Settings
tttd = record {
  chunk_algorithm = chunk_tttd;
  chunk_max_size = 64;
  chunk_min_size = 8;
  chunk_avg_size = 20;
}

abbrev tttd_config : Config
tttd_config = record { chunk_max_size = 64; chunking = tttd_chunk_data 8 16 64 }

tttd_starts : start_chunk_phase tttd ≡ some tttd_config
unfolding start_chunk_phase round_avg count_shifts
tttd_starts = refl

chunk_tttd≢chunk_ae : chunk_tttd ≢ chunk_ae
chunk_tttd≢chunk_ae same = subst IsTttd same tt

start_chunk_phase-IsChunking_example : IsChunking tttd_config × (0 < 64)
start_chunk_phase-IsChunking_example =
    start_chunk_phase-IsChunking tttd tttd_config chunk_tttd≢chunk_ae (omega arith) (omega arith)
      tttd_starts

-- Bytes that count up.
abbrev up_to : ℕ → ℕ → List ℕ
up_to i zero = []
up_to i (suc n) = (i % 256) ∷ up_to (i + 1) n

program : Unit {0}
unfolding bytemsb fls32 fls64 reduce_high reduce_low polymod mult_loop polymult polymmult shift
    calc_t append8 size_shift window_u rabin_chunk_data rabin_loop slide
program = tt

rabin_breaks : rabin_chunk_data 4 256 160 (up_to 34 70) ≡ 24
unfolding program
rabin_breaks = refl

-- Here the window is full before the break.
rabin_breaks_late : rabin_chunk_data 4 256 160 (up_to 1 70) ≡ 56
unfolding program
rabin_breaks_late = refl
