-- ===== src/Gc/References.antt =====
-- The marks that a backup leaves for the garbage collection (gc/gc_rtm.c and index/index.c): one bit for
-- each chunk of each container that it refers to.
use destor_lt.Prelude.{
  ℕ, zero, suc, ◌+◌, ◌-◌, ◌<◌, ◌≡◌, refl, subst, ◌∙◌, arith, true, false, ◌&&◌, some, ◌==◌,
  if◌then◌else◌, Bool-cases, inl, inr, lookup,
}
use destor_lt.Storage.Container.{ContainerMeta, MetaEntry}
use destor_lt.Gc.{
  Words, Marks, get_shift_by_id, get_index_bit, set_index_bit, int32_bound, mark_position,
  mark_reference,
}
use destor_lt.Gc.Bits.{get-set_index_bit}
use destor_lt.Gc.Shifts.{known, shift_bounds, shift_injective}
use destor_lt.Gc.Marked.{IsMarks, WithContainer, add_container-WithContainer, Referred}

-- The bits counted from 1, whatever the names of their numbers.
bit_at :
    (n : ℕ) (words words' : Words)
    → ((m : ℕ)
        → suc m < int32_bound
        → get_index_bit (suc m) words'
          ≡ (if n == m then some true else get_index_bit (suc m) words))
    → (y : ℕ) → 0 < y
    → y < int32_bound
    → get_index_bit y words' ≡ (if suc n == y then some true else get_index_bit y words)
bit_at n words words' bits zero pos_y small = absurd (omega (arith, pos_y))
bit_at n words words' bits (suc m) pos_y small = bits m (omega (arith, small)) ∙ ground arith

set_bit :
    (x : ℕ) (words : Words)
    → 0 < x
    → x < int32_bound
    → (words' : Words) × (set_index_bit x words ≡ some words')
      × ((y : ℕ)
          → 0 < y
          → y < int32_bound
          → get_index_bit y words' ≡ (if x == y then some true else get_index_bit y words))
set_bit zero words pos_x small = absurd (omega (arith, pos_x))
set_bit (suc n) words pos_x small =
    let (words', e, bits) = get-set_index_bit n words (omega (arith, small)) in
    (words', e, λ y pos_y small_y. bit_at n words words' bits y pos_y small_y)

module _ (num : ℕ → ℕ) (id p : ℕ) (m m₁ : Marks) (k : IsMarks num m) (w : WithContainer num id m m₁)
    (in_it : p < num id) (words : Words) where
  abbrev Bits : Type 0
  Bits =
      (y : ℕ)
      → 0 < y
      → y < int32_bound
      → get_index_bit y words ≡ (
          if p + get_shift_by_id id m₁.ishead == y then some true else get_index_bit y m₁.index_bit)

  place_bounds :
      (j q : ℕ)
      → known j m₁.ishead ≡ true
      → q < num j
      → (0 < q + get_shift_by_id j m₁.ishead) × (q + get_shift_by_id j m₁.ishead < m₁.globle_shift)
  place_bounds j q there h =
      let (low, high) = shift_bounds num 1 m₁.globle_shift j m₁.ishead w.marks.laid there in
      (omega (arith, low), omega (arith, high, h))

  other_bit :
      (j q : ℕ)
      → Bits
      → known j m₁.ishead ≡ true
      → q < num j
      → ((id == j) && (p == q)) ≡ false
      → get_index_bit (q + get_shift_by_id j m₁.ishead) words
        ≡ get_index_bit (q + get_shift_by_id j m₁.ishead) m₁.index_bit
  other_bit j q bits there h other =
      let (low, high) = place_bounds j q there h in
      let small = w.marks.small in
      bits (q + get_shift_by_id j m₁.ishead) low (omega (arith, high, small))
      ∙ (elim (Bool-cases (p + get_shift_by_id id m₁.ishead == q + get_shift_by_id j m₁.ishead)) [
        | inl same ↦
            let (same_id, same_place) =
              shift_injective num 1 m₁.globle_shift id j p q m₁.ishead w.marks.laid w.has_it there
                in_it h (ground (arith, same)) in
            absurd (ground (arith, other, same_id, same_place))
        | inr apart ↦ rw (apart) refl
      ])

  new_bit :
      (q : ℕ)
      → known id m.ishead ≡ false
      → q < num id
      → get_index_bit (q + get_shift_by_id id m₁.ishead) m₁.index_bit ≡ some false
  new_bit q fresh h =
      let (low, high) = place_bounds id q w.has_it h in
      let small = w.marks.small in
      let y : ℕ = q + get_shift_by_id id m₁.ishead in
      let is_y : suc (y - 1) ≡ y = omega (arith, low) in
      let clear =
        k.clear (y - 1) (omega (arith, w.new_shift fresh, is_y))
          (omega (arith, is_y, high, small)) in
      rw (w.same_bits) (subst (λ (x : ℕ). get_index_bit x m.index_bit ≡ some false) is_y clear)

  bits-Referred : Bits → Referred num id p m (record m₁ { index_bit = words })
  bits-Referred bits =
      let (low, high) = place_bounds id p w.has_it in_it in
      let small = w.marks.small in
      record {
        marks = record {
          laid = w.marks.laid;
          hashed = w.marks.hashed;
          clear = λ n h b.
              bits (suc n) (omega arith) b ∙ (ground (arith, w.marks.clear n h b, high, h));
          small = w.marks.small;
        };
        it =
            bits (p + get_shift_by_id id m₁.ishead) low (omega (arith, high, small)) ∙ ground arith;
        others = λ j q there h other.
            other_bit j q bits (w.knows j ∙ rw (there) refl) h other
            ∙ rw (w.same_bits, w.same_shift j there) refl;
        new = λ q fresh h other.
            other_bit id q bits w.has_it h (ground (arith, other)) ∙ new_bit q fresh h;
      }

-- In a state of the marks, referring to a chunk of a container, by a fingerprint that has a position in
-- its metadata, marks that chunk, keeps the marks of every other chunk of the containers referred to
-- before, and, where the container is new, leaves its other chunks unmarked; the next reference finds
-- such a state again. The numbers of chunks must fit into the 31 bits of a shift.
pub mark_reference-Referred :
    (num : ℕ → ℕ) (id fp p : ℕ) (cm : ContainerMeta) (me : MetaEntry) (m : Marks)
    → IsMarks num m
    → cm.chunk_num ≡ num id
    → m.globle_shift + num id < int32_bound
    → lookup fp cm.map ≡ some me
    → me.position ≡ some p
    → p < num id
    → (m' : Marks) × (mark_reference id fp cm m ≡ some m') × Referred num id p m m'
unfolding mark_reference mark_position
mark_reference-Referred num id fp p cm me m k n fits there at in_it =
    let (m₁, e, w) = add_container-WithContainer num id cm m k n fits in
    let (low, high) = place_bounds num id p m m₁ k w in_it m.index_bit id p w.has_it in_it in
    let small = w.marks.small in
    let (words, f, bits) =
      set_bit (p + get_shift_by_id id m₁.ishead) m₁.index_bit low (omega (arith, high, small)) in
    (
      record m₁ { index_bit = words },
      rw (mark_reference, e, mark_position, there, at, f) refl,
      bits-Referred num id p m m₁ k w in_it words bits,
    )
