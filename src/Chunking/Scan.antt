-- ===== src/Chunking/Scan.antt =====
-- The content-defined methods of rabin_chunking.c cut as chunk_phase.c asks.
use destor_lt.Prelude.{
  ℕ, zero, suc, ◌+◌, ◌-◌, ◌<◌, ◌≤◌, ◌≡◌, ◌⊎◌, inl, inr, refl, sym, ap, ◌∙◌, Bool, Bool-cases, List,
  [], ◌∷◌, ◌++◌, arith, ltb, leb, length, length-append, drop, append-nil,
}
use destor_lt.Chunking.{IsChunking, fixed_chunk_data}
use destor_lt.Chunking.Cuts.{drop-append_le}
use destor_lt.Chunking.Rabin.{Window, new_window, slide, rabin_loop, scan, tttd_loop}

-- What a loop of a content-defined method does: it stops between the minimum and the end, and looks at
-- no byte behind the end.
pub record IsLoop (chunk_min_size : ℕ) (loop : ℕ → List ℕ → ℕ) : Type 0 where
  inside :
      (end : ℕ) (rest : List ℕ)
      → chunk_min_size ≤ end
      → (chunk_min_size ≤ loop end rest) × (loop end rest ≤ end)
  ahead :
      (end : ℕ) (rest more : List ℕ)
      → end ≤ chunk_min_size + length rest
      → loop end (rest ++ more) ≡ loop end rest

rabin_loop_inside :
    (breaks : ℕ → ℕ → Bool) (end i : ℕ) (w : Window) (rest : List ℕ)
    → i ≤ end
    → (i ≤ rabin_loop breaks end i w rest) × (rabin_loop breaks end i w rest ≤ end)
unfolding rabin_loop
rabin_loop_inside breaks end i w [] h = (omega arith, h)
rabin_loop_inside breaks end i w (b ∷ rest) h =
    ground (arith, rabin_loop_inside breaks end (i + 1) (slide b w) rest)

rabin_loop_ahead :
    (breaks : ℕ → ℕ → Bool) (end i : ℕ) (w : Window) (rest more : List ℕ)
    → end ≤ i + length rest
    → rabin_loop breaks end i w (rest ++ more) ≡ rabin_loop breaks end i w rest
unfolding rabin_loop
rabin_loop_ahead breaks end i w [] [] h = refl
rabin_loop_ahead breaks end i w [] (b ∷ more) h = ground arith
rabin_loop_ahead breaks end i w (b ∷ rest) more h =
    ground (arith, rabin_loop_ahead breaks end (i + 1) (slide b w) rest more)

pub rabin_loop-IsLoop :
    (chunk_min_size : ℕ) (breaks : ℕ → ℕ → Bool)
    → IsLoop chunk_min_size (λ end rest. rabin_loop breaks end chunk_min_size new_window rest)
rabin_loop-IsLoop chunk_min_size breaks = record {
  inside = λ end rest. rabin_loop_inside breaks end chunk_min_size new_window rest;
  ahead = λ end rest more. rabin_loop_ahead breaks end chunk_min_size new_window rest more;
}

tttd_loop_inside :
    (avg low end i m : ℕ) (w : Window) (rest : List ℕ)
    → low ≤ i
    → i ≤ end
    → (m ≡ 0) ⊎ ((low ≤ m) × (m ≤ end))
    → (low ≤ tttd_loop avg end i m w rest) × (tttd_loop avg end i m w rest ≤ end)
unfolding tttd_loop
tttd_loop_inside avg low end i m w [] above h b = ground arith
tttd_loop_inside avg low end i m w (b ∷ rest) above h back = ground (
  arith,
  tttd_loop_inside avg low end (i + 1) i (slide b w) rest,
  tttd_loop_inside avg low end (i + 1) m (slide b w) rest,
)

tttd_loop_ahead :
    (avg end i m : ℕ) (w : Window) (rest more : List ℕ)
    → end ≤ i + length rest
    → tttd_loop avg end i m w (rest ++ more) ≡ tttd_loop avg end i m w rest
unfolding tttd_loop
tttd_loop_ahead avg end i m w [] [] h = refl
tttd_loop_ahead avg end i m w [] (b ∷ more) h = ground arith
tttd_loop_ahead avg end i m w (b ∷ rest) more h = ground (
  arith,
  tttd_loop_ahead avg end (i + 1) i (slide b w) rest more,
  tttd_loop_ahead avg end (i + 1) m (slide b w) rest more,
)

pub tttd_loop-IsLoop :
    (chunk_min_size avg : ℕ)
    → IsLoop chunk_min_size (λ end rest. tttd_loop avg end chunk_min_size 0 new_window rest)
tttd_loop-IsLoop chunk_min_size avg = record {
  inside = λ end rest h.
      tttd_loop_inside avg chunk_min_size end chunk_min_size 0 new_window rest (omega arith) h
        (inl refl);
  ahead = λ end rest more. tttd_loop_ahead avg end chunk_min_size 0 new_window rest more;
}

length-drop_lem : (n : ℕ) (xs : List ℕ) → n ≤ length xs → n + length (drop n xs) ≡ length xs
length-drop_lem zero xs h = omega arith
length-drop_lem (suc n) [] h = absurd (omega arith)
length-drop_lem (suc n) (x ∷ xs) h = omega (arith, length-drop_lem n xs (omega arith))

module _ {low : ℕ} {top : ℕ} {loop : ℕ → List ℕ → ℕ} (is_loop : IsLoop low loop)
    (some_low : 0 < low) (ordered : low ≤ top) where
  scan_positive : (buf : List ℕ) → 0 < length buf → 0 < scan low top loop buf
  scan_positive buf h = ground (
    arith,
    (is_loop.inside top (drop (low - 1) buf) ordered).0,
    is_loop.inside (length buf) (drop (low - 1) buf),
  )

  scan_within : (buf : List ℕ) → scan low top loop buf ≤ length buf
  scan_within buf = ground (
    arith,
    (is_loop.inside top (drop (low - 1) buf) ordered).1,
    is_loop.inside (length buf) (drop (low - 1) buf),
  )

  scan_bounded : (buf : List ℕ) → scan low top loop buf ≤ top
  scan_bounded buf = ground (
    arith,
    (is_loop.inside top (drop (low - 1) buf) ordered).1,
    is_loop.inside (length buf) (drop (low - 1) buf),
  )

  scan_long :
      (buf : List ℕ)
      → low < length buf
      → top ≤ length buf
      → scan low top loop buf ≡ loop top (drop (low - 1) buf)
  scan_long buf longer enough = elim (Bool-cases (ltb top (length buf))) [
    | inl far ↦ ground (arith, far)
    | inr near ↦
        let same : length buf ≡ top = ground (arith, near) in
        ground (arith, near, ap (λ n. loop n (drop (low - 1) buf)) same)
  ]

  -- A buffer as long as both bounds is cut whole.
  scan_tight :
      (buf more : List ℕ)
      → length buf ≤ low
      → top ≤ length buf
      → scan low top loop (buf ++ more) ≡ scan low top loop buf
  scan_tight buf [] short enough = ap (scan low top loop) (append-nil buf)
  scan_tight buf (b ∷ more) short enough = ground (
    arith,
    length-append buf (b ∷ more),
    scan_long (buf ++ b ∷ more),
    is_loop.inside top (drop (low - 1) (buf ++ b ∷ more)) ordered,
  )

  scan_local :
      (buf more : List ℕ)
      → top ≤ length buf
      → scan low top loop (buf ++ more) ≡ scan low top loop buf
  scan_local buf more enough = elim (Bool-cases (leb (length buf) low)) [
    | inl test ↦ scan_tight buf more (ground (arith, test)) enough
    | inr test ↦
        let long : low < length buf = ground (arith, test) in
        let grows = length-append buf more in
        let split = drop-append_le (low - 1) buf more (omega arith) in
        let rest = length-drop_lem (low - 1) buf (omega arith) in
        scan_long (buf ++ more) (omega (arith, grows)) (omega (arith, grows))
        ∙ ap (loop top) split
        ∙ is_loop.ahead top (drop (low - 1) buf) more (omega (arith, rest))
        ∙ sym (scan_long buf long enough)
  ]

pub scan-IsChunking :
    (low top : ℕ) (loop : ℕ → List ℕ → ℕ)
    → IsLoop low loop
    → 0 < low
    → low ≤ top
    → IsChunking (record { chunk_max_size = top; chunking = scan low top loop })
scan-IsChunking low top loop is_loop some_low ordered = record {
  positive = scan_positive is_loop some_low ordered;
  within = scan_within is_loop some_low ordered;
  bounded = scan_bounded is_loop some_low ordered;
  local = scan_local is_loop some_low ordered;
}

pub fixed_chunk_data-IsChunking :
    (size : ℕ)
    → 0 < size
    → IsChunking (record { chunk_max_size = size; chunking = fixed_chunk_data size })
unfolding fixed_chunk_data
fixed_chunk_data-IsChunking size some_size = record {
  positive = λ buf h. ground arith;
  within = λ buf. ground arith;
  bounded = λ buf. ground arith;
  local = λ buf more h. ground (arith, length-append buf more);
}
