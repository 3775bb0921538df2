-- ===== src/Gc/Attribute.antt =====
-- What the garbage collection reads from the marks (gc/gc_rtm.c).
use destor_lt.Prelude.{
  ℕ, zero, suc, ◌+◌, ◌-◌, ◌≡◌, refl, ◌∙◌, ap, arith, Bool, true, false, some, List, [], ◌∷◌, ◌++◌,
  ◌==◌, if◌then◌else◌,
}
use destor_lt.Gc.{
  IdShift, Words, Marks, get_shift_by_id, get_next_shift_by_id, get_index_bit, skip_bits,
  check_index_bit_equal_one, get_attribute,
}
use destor_lt.Gc.Shifts.{known}

-- All of `n` bits from `i` on have a value.
abbrev pub AllBits : Bool → ℕ → ℕ → Words → Type 0
AllBits value zero i words = Unit
AllBits value (suc n) i words = (get_index_bit i words ≡ some value) × AllBits value n (i + 1) words

skip_all :
    (value : Bool) (n i : ℕ) (words : Words)
    → AllBits value n i words
    → skip_bits value n i words ≡ some (i + n)
unfolding skip_bits
skip_all value zero i words a = ground arith
skip_all true (suc n) i words a =
    rw (skip_bits, a.0) (skip_all true n (i + 1) words a.1 ∙ ground arith)
skip_all false (suc n) i words a =
    rw (skip_bits, a.0) (skip_all false n (i + 1) words a.1 ∙ ground arith)

-- Of at least one bit the code says 2 where all are set and 0 where none is.
pub check_index_bit-uniform :
    (n start : ℕ) (words : Words) (value : Bool)
    → AllBits value (suc n) start words
    → check_index_bit_equal_one start (start + suc n) words ≡ some (if value then 2 else 0)
unfolding check_index_bit_equal_one skip_bits
check_index_bit-uniform n start words true a =
    let steps : start + suc n - start ≡ suc n = omega arith in
    let found = skip_all true (suc n) start words a in
    let at_end : (start + suc n == start + suc n) ≡ true = ground arith in
    rw (check_index_bit_equal_one, steps, found, at_end) refl
check_index_bit-uniform n start words false a =
    let steps : start + suc n - start ≡ suc n = omega arith in
    let stops : skip_bits true (suc n) start words ≡ some start = rw (skip_bits, a.0) refl in
    let not_end : (start == start + suc n) ≡ false = ground arith in
    let at_start : (start == start) ≡ true = ground arith in
    let more : start + suc n - (start + 1) ≡ n = omega arith in
    let found = skip_all false n (start + 1) words a.1 in
    let at_end : (start + 1 + n == start + suc n) ≡ true = ground arith in
    rw (check_index_bit_equal_one, steps, stops, not_end, at_start, more, found, at_end) refl

-- Between a bit and itself the code says 2.
check_none : (start : ℕ) (words : Words) → check_index_bit_equal_one start start words ≡ some 2
unfolding check_index_bit_equal_one skip_bits
check_none start words =
    let no_steps : start - start ≡ 0 = omega arith in
    let at_end : (start == start) ≡ true = ground arith in
    rw (check_index_bit_equal_one, no_steps, skip_bits, at_end) refl

-- A container that is in the list for the first time between `before` and `u` is found there.
next_in :
    (before : List IdShift) (t u : IdShift) (l : List IdShift)
    → known t.container_id before ≡ false
    → get_next_shift_by_id t.container_id (before ++ t ∷ u ∷ l) ≡ some u.chunk_shift
unfolding get_next_shift_by_id known
next_in [] t u l new = ground arith
next_in (s ∷ []) t u l new = ground (arith, next_in [] t u l refl)
next_in (s ∷ r ∷ before) t u l new = ground (arith, next_in (r ∷ before) t u l)

shift_in :
    (before : List IdShift) (t : IdShift) (l : List IdShift)
    → known t.container_id before ≡ false
    → get_shift_by_id t.container_id (before ++ t ∷ l) ≡ t.chunk_shift
unfolding get_shift_by_id known
shift_in [] t l new = ground arith
shift_in (s ∷ before) t l new = ground (arith, shift_in before t l)

-- A container of one chunk with another behind it in the list counts as wholly referred to, whether its
-- chunk is marked or not: the code takes the container's last bit for the bit behind its last.
pub get_attribute-single :
    (m : Marks) (before : List IdShift) (t u : IdShift) (l : List IdShift)
    → m.ishead ≡ before ++ t ∷ u ∷ l
    → known t.container_id before ≡ false
    → u.chunk_shift ≡ t.chunk_shift + 1
    → get_attribute t.container_id m ≡ some 2
unfolding get_attribute
get_attribute-single m before t u l e new s =
    let next : get_next_shift_by_id t.container_id m.ishead ≡ some u.chunk_shift =
      ap (get_next_shift_by_id t.container_id) e ∙ next_in before t u l new in
    let shift : get_shift_by_id t.container_id m.ishead ≡ t.chunk_shift =
      ap (get_shift_by_id t.container_id) e ∙ shift_in before t (u ∷ l) new in
    let back : u.chunk_shift - 1 ≡ t.chunk_shift = omega (arith, s) in
    rw (get_attribute, next, shift, back) (check_none t.chunk_shift m.index_bit)
