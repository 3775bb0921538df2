-- ===== src/Recipe/Kept.antt =====
-- Reading the pointers of a recipe, which ignores the flags of its segments.
use destor_lt.Prelude.{
  ℕ, zero, suc, ◌+◌, ◌-◌, ◌≤◌, ◌≡◌, refl, sym, ap, ◌∙◌, subst, arith, Option, some, List, [], ◌∷◌,
  ◌++◌, length, take, drop, All, Bool-cases, inl, inr, true, false, if◌then◌else◌, ltb,
}
use destor_lt.Recipe.{ChunkPointer, pointer_bytes}
use destor_lt.Recipe.Pointers.{
  IsPointer, pointers_bytes, length-pointers_bytes, read_pointer-pointer_bytes,
}
use destor_lt.Recipe.Read.{Reader, int_max, is_flag, read_n, Restore, read_next_n_chunk_pointers}

-- The pointers among the items of a recipe.
unfoldable pub kept : List ChunkPointer → List ChunkPointer
kept [] = []
kept (p ∷ ps) = if is_flag p.id then kept ps else p ∷ kept ps

abbrev Reads : Option (List ChunkPointer × Reader) → ℕ → List ChunkPointer → Type 0
Reads result num ps =
    (off : ℕ) × (rest : List ChunkPointer) × (result
      ≡ some (take num ps, record { off = off; rest = pointers_bytes rest }))
    × (kept rest ≡ drop num ps)
    × All IsPointer rest

kept_flag :
    (p : ChunkPointer) (ps : List ChunkPointer) → is_flag p.id ≡ true → kept (p ∷ ps) ≡ kept ps
unfolding kept
kept_flag p ps flag = rw flag refl

kept_plain :
    (p : ChunkPointer) (ps : List ChunkPointer) → is_flag p.id ≡ false → kept (p ∷ ps) ≡ p ∷ kept ps
unfolding kept
kept_plain p ps plain = rw plain refl

module _ (p : ChunkPointer) (ps : List ChunkPointer) (fuel num off : ℕ) (fits : IsPointer p) where
  abbrev here : Reader
  here = record { off = off; rest = pointer_bytes p ++ pointers_bytes ps }

  abbrev behind : Reader
  behind = record { off = off + 32; rest = pointers_bytes ps }

  read_ignored :
      is_flag p.id ≡ true → read_n (suc fuel) (suc num) here ≡ read_n fuel (suc num) behind
  unfolding read_n
  read_ignored flag =
      rw (read_n, read_pointer-pointer_bytes p off (pointers_bytes ps) fits, flag) refl

  read_kept :
      (cps : List ChunkPointer) (r : Reader)
      → is_flag p.id ≡ false
      → read_n fuel num behind ≡ some (cps, r)
      → read_n (suc fuel) (suc num) here ≡ some (p ∷ cps, r)
  unfolding read_n
  read_kept cps r plain others =
      rw (read_n, read_pointer-pointer_bytes p off (pointers_bytes ps) fits, plain, others) refl

  Reads-ignored :
      is_flag p.id ≡ true
      → Reads (read_n fuel (suc num) behind) (suc num) (kept ps)
      → Reads (read_n (suc fuel) (suc num) here) (suc num) (kept (p ∷ ps))
  Reads-ignored flag (off', rest, run, left, fits') =
      subst (Reads (read_n (suc fuel) (suc num) here) (suc num)) (sym (kept_flag p ps flag))
        (off', rest, read_ignored flag ∙ run, left, fits')

  Reads-kept :
      is_flag p.id ≡ false
      → Reads (read_n fuel num behind) num (kept ps)
      → Reads (read_n (suc fuel) (suc num) here) (suc num) (kept (p ∷ ps))
  Reads-kept plain (off', rest, run, left, fits') =
      subst (Reads (read_n (suc fuel) (suc num) here) (suc num)) (sym (kept_plain p ps plain)) (
        off',
        rest,
        read_kept (take num (kept ps)) (record { off = off'; rest = pointers_bytes rest }) plain
            run,
        left,
        fits',
      )

read_n-kept :
    (items : List ChunkPointer) (fuel num off : ℕ)
    → All IsPointer items
    → num ≤ length (kept items)
    → length items ≤ fuel
    → Reads (read_n fuel num (record { off = off; rest = pointers_bytes items })) num (kept items)
unfolding pointers_bytes
read_n-kept items fuel zero off fits few enough = (off, items, unfold read_n in refl, refl, fits)
read_n-kept [] fuel (suc num) off fits few enough = absurd (unfold kept in omega (arith, few))
read_n-kept (p ∷ ps) zero (suc num) off fits few enough = absurd (omega arith)
read_n-kept (p ∷ ps) (suc fuel) (suc num) off (fit, fits) few enough =
    elim (Bool-cases (is_flag p.id)) [
      | inl flag ↦ Reads-ignored p ps fuel num off fit flag (
          read_n-kept ps fuel (suc num) (off + 32) fits
            (omega (arith, few, ap length (kept_flag p ps flag))) (omega arith))
      | inr plain ↦ Reads-kept p ps fuel num off fit plain (
          read_n-kept ps fuel num (off + 32) fits
            (omega (arith, few, ap length (kept_plain p ps plain))) (omega arith))
    ]

-- A restore that still has to read these pointers, and whose counter holds their number.
abbrev pub Left : Restore → List ChunkPointer → Type 0
Left b ps =
    (items : List ChunkPointer) × (b.recipe.rest ≡ pointers_bytes items)
    × (kept items ≡ ps)
    × All IsPointer items
    × (b.number_of_chunks ≡ b.read_chunk_num + length ps)
    × (b.number_of_chunks ≤ int_max)

read_num :
    (num : ℕ) (b : Restore) (items : List ChunkPointer)
    → b.recipe.rest ≡ pointers_bytes items
    → All IsPointer items
    → num ≤ length (kept items)
    → Reads (read_n (suc (length b.recipe.rest)) num b.recipe) num (kept items)
read_num num b items bytes fits few =
    let enough : length items ≤ suc (length b.recipe.rest) =
      omega (arith, ap length bytes, length-pointers_bytes items) in
    subst
      (λ l.
        Reads (read_n (suc (length b.recipe.rest)) num (record { off = b.recipe.off; rest = l }))
          num (kept items))
      (sym bytes) (read_n-kept items (suc (length b.recipe.rest)) num b.recipe.off fits few enough)

abbrev moved : Restore → ℕ → Reader → Restore
moved b num r = record b { read_chunk_num = b.read_chunk_num + num; recipe = r }

call_reads :
    (n num : ℕ) (b : Restore) (cps : List ChunkPointer) (r : Reader)
    → (if ltb n (b.number_of_chunks - b.read_chunk_num)
        then n
        else b.number_of_chunks - b.read_chunk_num)
      ≡ num
    → b.read_chunk_num + num ≤ int_max
    → read_n (suc (length b.recipe.rest)) num b.recipe ≡ some (cps, r)
    → read_next_n_chunk_pointers n b
      ≡ some (cps, record b { read_chunk_num = b.read_chunk_num + num; recipe = r })
unfolding read_next_n_chunk_pointers
call_reads n num b cps r wanted small run =
    let asked =
      if ltb n (b.number_of_chunks - b.read_chunk_num)
      then n
      else b.number_of_chunks - b.read_chunk_num in
    let all : read_n (suc (length b.recipe.rest)) asked b.recipe ≡ some (cps, r) = rw wanted run in
    let fits : ltb int_max (b.read_chunk_num + asked) ≡ false =
      ap (λ m. ltb int_max (b.read_chunk_num + m)) wanted ∙ ground (arith, small) in
    rw (read_next_n_chunk_pointers, all, fits) (ap (λ m. some (cps, moved b m r)) wanted)

drop_some : (n : ℕ) (ps : List ChunkPointer) → n ≤ length ps → n + length (drop n ps) ≡ length ps
drop_some zero ps h = omega arith
drop_some (suc n) [] h = absurd (omega arith)
drop_some (suc n) (p ∷ ps) h = omega (arith, drop_some n ps (omega arith))

-- A call of the reader gives the next pointers, as many as it is asked for and are left.
pub read_next_n-Left :
    (n : ℕ) (b : Restore) (ps : List ChunkPointer)
    → Left b ps
    → n ≤ length ps
    → (b' : Restore) × (read_next_n_chunk_pointers n b ≡ some (take n ps, b')) × Left b' (drop n ps)
read_next_n-Left n b ps (items, bytes, all, fits, count, small) few =
    let (off, rest, run, left, fits') =
      subst (λ l. Reads (read_n (suc (length b.recipe.rest)) n b.recipe) n l) all
        (read_num n b items bytes fits (omega (arith, few, ap length all))) in
    let r : Reader = record { off = off; rest = pointers_bytes rest } in
    let wanted : (if ltb n (b.number_of_chunks - b.read_chunk_num)
          then n
          else b.number_of_chunks - b.read_chunk_num)
        ≡ n =
      ground (arith, count, few) in
    (
      record b { read_chunk_num = b.read_chunk_num + n; recipe = r },
      call_reads n n b (take n ps) r wanted (omega (arith, count, few, small)) run,
      (rest, refl, left, fits', omega (arith, count, drop_some n ps few), small),
    )
