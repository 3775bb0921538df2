-- ===== src/Chunking/Rabin.antt =====
-- The methods of destor-master/src/chunking/rabin_chunking.c.
use Prim.Native.Nat.{bit_and, bit_xor}
use destor_lt.Prelude.{
  ℕ, ◌+◌, ◌-◌, ◌*◌, ◌/◌, ◌^◌, Bool, List, [], ◌∷◌, ltb, leb, ◌==◌, if◌then◌else◌, length, drop,
}
use destor_lt.Chunking.Poly.{fingerprint_pt, append8, window_size, window_u}

-- The rolling fingerprint; `next` is `bufPos + 1`.
pub record Window : Type 0 where
  pub fp : ℕ
  pub next : ℕ
  pub buf : ℕ → ℕ

abbrev pub new_window : Window
new_window = record { fp = 0; next = 0; buf = λ i. 0 }

-- The macro SLIDE.
unfoldable pub slide : ℕ → Window → Window
slide m w =
    let pos = if leb window_size w.next then 0 else w.next in
    record {
      fp = append8 fingerprint_pt (bit_xor w.fp (window_u fingerprint_pt (w.buf pos))) m;
      next = pos + 1;
      buf = λ i. if i == pos then m else w.buf i;
    }

abbrev pub breakmark_value : ℕ
breakmark_value = 0x78

abbrev pub is_mark : ℕ → ℕ → Bool
is_mark mask fp = bit_and fp mask == breakmark_value

-- The loop from position `i` up to `end`, over the bytes from position `i - 1` on, of which there are
-- enough. `breaks` is the test for a break at a position.
unfoldable pub rabin_loop : (ℕ → ℕ → Bool) → ℕ → ℕ → Window → List ℕ → ℕ
rabin_loop breaks end i w [] = i
rabin_loop breaks end i w (b ∷ rest) =
    let w' = slide b w in
    let further = rabin_loop breaks end (i + 1) w' rest in
    if ltb i end then (if breaks i w'.fp then i else further) else i

-- The start of each method: a short buffer is one chunk, and otherwise `loop` gets the last position
-- and the bytes from position `chunk_min_size - 1` on.
abbrev pub scan : ℕ → ℕ → (ℕ → List ℕ → ℕ) → List ℕ → ℕ
scan chunk_min_size chunk_max_size loop p =
    if leb (length p) chunk_min_size
    then length p
    else loop (if ltb chunk_max_size (length p) then chunk_max_size else length p)
        (drop (chunk_min_size - 1) p)

unfoldable pub rabin_chunk_data : ℕ → ℕ → ℕ → List ℕ → ℕ
rabin_chunk_data chunk_min_size chunk_avg_size chunk_max_size =
    scan chunk_min_size chunk_max_size (λ end rest.
      rabin_loop (λ i fp. is_mark (chunk_avg_size - 1) fp) end chunk_min_size new_window rest)

-- `chunk_avg_size / 2 - 1`, which is -1 for a size of 1, as a mask of 64 bits.
abbrev pub half_mask : ℕ → ℕ
half_mask chunk_avg_size = if chunk_avg_size / 2 == 0 then 2 ^ 64 - 1 else chunk_avg_size / 2 - 1

-- Before the average size a break is harder to find than behind it.
abbrev pub normalized_break : ℕ → ℕ → ℕ → Bool
normalized_break chunk_avg_size i fp =
    if ltb i chunk_avg_size
    then is_mark (chunk_avg_size * 2 - 1) fp
    else is_mark (half_mask chunk_avg_size) fp

unfoldable pub normalized_rabin_chunk_data : ℕ → ℕ → ℕ → List ℕ → ℕ
normalized_rabin_chunk_data chunk_min_size chunk_avg_size chunk_max_size =
    scan chunk_min_size chunk_max_size
      (λ end rest. rabin_loop (normalized_break chunk_avg_size) end chunk_min_size new_window rest)

-- The loop of TTTD, with the last position `m` of a backup break, 0 for none.
unfoldable pub tttd_loop : ℕ → ℕ → ℕ → ℕ → Window → List ℕ → ℕ
tttd_loop chunk_avg_size end i m w [] = if m == 0 then i else m
tttd_loop chunk_avg_size end i m w (b ∷ rest) =
    let w' = slide b w in
    let backup = is_mark (half_mask chunk_avg_size) w'.fp in
    let further = tttd_loop chunk_avg_size end (i + 1) (if backup then i else m) w' rest in
    if ltb i end
    then (if backup then (if is_mark (chunk_avg_size - 1) w'.fp then i else further) else further)
    else (if m == 0 then i else m)

unfoldable pub tttd_chunk_data : ℕ → ℕ → ℕ → List ℕ → ℕ
tttd_chunk_data chunk_min_size chunk_avg_size chunk_max_size =
    scan chunk_min_size chunk_max_size
      (λ end rest. tttd_loop chunk_avg_size end chunk_min_size 0 new_window rest)
