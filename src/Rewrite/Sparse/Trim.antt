-- ===== src/Rewrite/Sparse/Trim.antt =====
-- The sorted insertion and the trimming of sparse containers in har_rewrite.c.
use mathlib.Core.List.Perm
use destor_lt.Prelude.{
  ℕ, ◌+◌, ◌-◌, ◌≤◌, ◌≡◌, ◌⊎◌, inl, inr, refl, sym, ap, ◌∙◌, arith, true, false, Bool-cases, some,
  List, [], ◌∷◌, ◌++◌, Perm, All, sum_by, ltb, if◌then◌else◌,
}
use destor_lt.Rewrite.Sparse.{Config, insert_by_size, is_sparse_record, exceeds, trim}

abbrev pub size_of : ℕ × ℕ → ℕ
size_of cr = cr.1

-- The records of the sparse containers.
unfoldable pub sparse_of : Config → List (ℕ × ℕ) → List (ℕ × ℕ)
sparse_of cfg [] = []
sparse_of cfg (cr ∷ crs) =
    if is_sparse_record cfg cr then cr ∷ sparse_of cfg crs else sparse_of cfg crs

abbrev pub IsDescending : List (ℕ × ℕ) → Type 0
IsDescending [] = Unit
IsDescending (x ∷ xs) = All (λ y. size_of y ≤ size_of x) xs × IsDescending xs

All-insert :
    (m : ℕ) (cr : ℕ × ℕ) (xs : List (ℕ × ℕ))
    → size_of cr ≤ m
    → All (λ y. size_of y ≤ m) xs
    → All (λ y. size_of y ≤ m) (insert_by_size cr xs)
unfolding insert_by_size
All-insert m cr [] h all = (h, tt)
All-insert m cr (x ∷ xs) h (first, all) = elim (Bool-cases (ltb cr.1 x.1)) [
  | inl less ↦ rw less (first, All-insert m cr xs h all)
  | inr more ↦ rw more (h, (first, all))
]

All-weaken :
    (a b : ℕ) (xs : List (ℕ × ℕ))
    → a ≤ b
    → All (λ y. size_of y ≤ a) xs
    → All (λ y. size_of y ≤ b) xs
All-weaken a b [] h all = tt
All-weaken a b (x ∷ xs) h (first, all) = (omega arith, All-weaken a b xs h all)

pub insert_by_size-IsDescending :
    (cr : ℕ × ℕ) (xs : List (ℕ × ℕ)) → IsDescending xs → IsDescending (insert_by_size cr xs)
unfolding insert_by_size
insert_by_size-IsDescending cr [] d = (tt, tt)
insert_by_size-IsDescending cr (x ∷ xs) (below, d) = elim (Bool-cases (ltb cr.1 x.1)) [
  | inl less ↦
      let h : cr.1 ≤ x.1 = ground (arith, less) in
      rw less (All-insert x.1 cr xs h below, insert_by_size-IsDescending cr xs d)
  | inr more ↦
      let h : x.1 ≤ cr.1 = ground (arith, more) in
      rw more ((h, All-weaken x.1 cr.1 xs h below), (below, d))
]

pub insert_by_size-Perm : (cr : ℕ × ℕ) (xs : List (ℕ × ℕ)) → Perm (insert_by_size cr xs) (cr ∷ xs)
unfolding insert_by_size
insert_by_size-Perm cr [] = Perm.refl (cr ∷ [])
insert_by_size-Perm cr (x ∷ xs) = elim (Bool-cases (ltb cr.1 x.1)) [
  | inl less ↦ rw less (Perm.trans (Perm.cons x (insert_by_size-Perm cr xs)) (Perm.swap cr x xs))
  | inr more ↦ rw more (Perm.refl (cr ∷ x ∷ xs))
]

pub sum_by-insert :
    (cr : ℕ × ℕ) (xs : List (ℕ × ℕ))
    → sum_by size_of (insert_by_size cr xs) ≡ cr.1 + sum_by size_of xs
unfolding insert_by_size
sum_by-insert cr [] = refl
sum_by-insert cr (x ∷ xs) = ground (arith, sum_by-insert cr xs)

-- The limit is exceeded with the record that was trimmed last.
abbrev pub Last : Config → ℕ → List (ℕ × ℕ) → List (ℕ × ℕ) → Type 0
Last cfg total kept trimmed =
    (ds : List (ℕ × ℕ)) × (d : ℕ × ℕ) × (trimmed ≡ ds ++ d ∷ [])
    × (exceeds cfg total (sum_by size_of (d ∷ kept)) ≡ true)

Last-trimmed :
    (cfg : Config) (total sparse : ℕ) (cr : ℕ × ℕ) (seq kept trimmed : List (ℕ × ℕ))
    → sparse ≡ sum_by size_of (cr ∷ seq)
    → exceeds cfg total sparse ≡ true
    → seq ≡ trimmed ++ kept
    → (trimmed ≡ []) ⊎ Last cfg total kept trimmed
    → Last cfg total kept (cr ∷ trimmed)
Last-trimmed cfg total sparse cr seq kept trimmed same over split last = elim last [
  | inl nothing ↦
      let all : seq ≡ kept = split ∙ ap (λ l. l ++ kept) nothing in
      let sum : sparse ≡ sum_by size_of (cr ∷ kept) =
        same ∙ ap (λ l. sum_by size_of (cr ∷ l)) all in
      ([], cr, ap (◌∷◌ cr) nothing, ap (exceeds cfg total) (sym sum) ∙ over)
  | inr (ds, d, e, o) ↦ (cr ∷ ds, d, ap (◌∷◌ cr) e, o)
]

pub trim-kept :
    (cfg : Config) (total sparse : ℕ) (seq : List (ℕ × ℕ))
    → sparse ≡ sum_by size_of seq
    → (kept trimmed : List (ℕ × ℕ)) × (trim cfg total sparse seq ≡ some kept)
      × (seq ≡ trimmed ++ kept)
      × (exceeds cfg total (sum_by size_of kept) ≡ false)
      × ((trimmed ≡ []) ⊎ Last cfg total kept trimmed)
unfolding trim
trim-kept cfg total sparse [] same =
    let within : exceeds cfg total 0 ≡ false = ground arith in
    ([], [], rw (same, within) refl, refl, within, inl refl)
trim-kept cfg total sparse (cr ∷ seq) same = elim (Bool-cases (exceeds cfg total sparse)) [
  | inr within ↦ (cr ∷ seq, [], rw (trim, within) refl, refl, rw⁻¹ same within, inl refl)
  | inl over ↦
      let (kept, trimmed, run, split, within, last) =
        trim-kept cfg total (sparse - cr.1) seq (omega (arith, same)) in
      (
        kept,
        cr ∷ trimmed,
        rw (trim, over) run,
        ap (◌∷◌ cr) split,
        within,
        inr (Last-trimmed cfg total sparse cr seq kept trimmed same over split last),
      )
]
