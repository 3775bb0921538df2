-- ===== src/Gc/Marked.antt =====
-- The marks of the chunks that a backup refers to (gc/gc_rtm.c), and a container that is added to them.
use destor_lt.Prelude.{
  ℕ, suc, ◌+◌, ◌≤◌, ◌<◌, ◌≡◌, refl, subst, sym, ◌∙◌, arith, Bool, true, false, ◌&&◌, ◌||◌, Option,
  some, List, ◌∷◌, ◌==◌, Bool-cases, inl, inr,
}
use destor_lt.Storage.Container.{ContainerMeta}
use destor_lt.Gc.{
  IdShift, Marks, init_id_shift, id_shift_add_end, get_shift_by_id, get_index_bit, contains,
  int32_bound, add_container,
}
use destor_lt.Gc.Bits.{get_index_bit-at}
use destor_lt.Gc.Shifts.{Laid, known, add_end-Laid, add_end-known, add_end-shift, add_end-new}

-- Whether the chunk at a position of a container is marked.
abbrev pub marked : ℕ → ℕ → Marks → Option Bool
marked id p m = get_index_bit (p + get_shift_by_id id m.ishead) m.index_bit

-- `num` are the numbers of chunks of the containers. The shifts are laid out from 1, the hash table has
-- the ids of the list, and no bit behind the last container is set.
pub record IsMarks (num : ℕ → ℕ) (m : Marks) : Type 0 where
  pub laid : Laid num 1 m.ishead m.globle_shift
  pub hashed : (id : ℕ) → contains id m.id_shift_hash ≡ known id m.ishead
  pub clear :
      (n : ℕ)
      → m.globle_shift ≤ suc n
      → suc n < int32_bound
      → get_index_bit (suc n) m.index_bit ≡ some false
  pub small : m.globle_shift < int32_bound

pub init_id_shift-IsMarks : (num : ℕ → ℕ) → IsMarks num init_id_shift
unfolding init_id_shift contains known
init_id_shift-IsMarks num = record {
  laid = refl;
  hashed = λ id. refl;
  clear = λ n h k. get_index_bit-at n (λ w b. false) (omega (arith, k));
  small = omega arith;
}

-- What adding a container does.
pub record WithContainer (num : ℕ → ℕ) (id : ℕ) (m m' : Marks) : Type 0 where
  pub marks : IsMarks num m'
  pub has_it : known id m'.ishead ≡ true
  pub knows : (j : ℕ) → known j m'.ishead ≡ (known j m.ishead || (id == j))
  pub same_shift :
      (j : ℕ) → known j m.ishead ≡ true → get_shift_by_id j m'.ishead ≡ get_shift_by_id j m.ishead
  pub same_bits : m'.index_bit ≡ m.index_bit
  pub new_shift : known id m.ishead ≡ false → get_shift_by_id id m'.ishead ≡ m.globle_shift

known_again :
    (id j : ℕ) (l : List IdShift) → known id l ≡ true → known j l ≡ (known j l || (id == j))
known_again id j l k = elim (Bool-cases (id == j)) [
  | inl it ↦
      let same : id ≡ j = ground (arith, it) in
      let there : known j l ≡ true = subst (λ (x : ℕ). known x l ≡ true) same k in rw (there) refl
  | inr other ↦ ground (arith, other)
]

pub add_container-WithContainer :
    (num : ℕ → ℕ) (id : ℕ) (cm : ContainerMeta) (m : Marks)
    → IsMarks num m
    → cm.chunk_num ≡ num id
    → m.globle_shift + num id < int32_bound
    → (m' : Marks) × (add_container id cm m ≡ some m') × WithContainer num id m m'
unfolding add_container contains
add_container-WithContainer num id cm m k n fits = elim (Bool-cases (contains id m.id_shift_hash)) [
  | inl there ↦ (
    m,
    rw (there) refl,
    record {
      marks = k;
      has_it = sym (k.hashed id) ∙ there;
      knows = λ j. known_again id j m.ishead (sym (k.hashed id) ∙ there);
      same_shift = λ j h. refl;
      same_bits = refl;
      new_shift = λ h. absurd (ground (arith, k.hashed id, there, h));
    },
  )
  | inr absent ↦
      let new : known id m.ishead ≡ false = sym (k.hashed id) ∙ absent in
      let s : IdShift = record {
        container_id = id;
        chunk_shift = m.globle_shift;
        chunk_num = some cm.chunk_num;
      } in
      (
        record m {
          id_shift_hash = id ∷ m.id_shift_hash;
          ishead = id_shift_add_end s m.ishead;
          globle_shift = m.globle_shift + cm.chunk_num;
        },
        ground (arith, absent, n, fits),
        record {
          marks = record {
            laid =
                subst (λ (x : ℕ). Laid num 1 (id_shift_add_end s m.ishead) (m.globle_shift + x))
                  (sym n) (add_end-Laid num 1 m.globle_shift s m.ishead k.laid refl);
            hashed = λ j. ground (arith, k.hashed j, add_end-known s m.ishead j);
            clear = λ i h b. k.clear i (omega (arith, h)) b;
            small = omega (arith, fits, n);
          };
          has_it = ground (arith, add_end-known s m.ishead id);
          knows = add_end-known s m.ishead;
          same_shift = add_end-shift s m.ishead;
          same_bits = refl;
          new_shift = λ h. add_end-new s m.ishead h;
        },
      )
]

-- A chunk that is marked, and the rest as it was; a container that was not known before has no other
-- chunk marked.
pub record Referred (num : ℕ → ℕ) (id p : ℕ) (m m' : Marks) : Type 0 where
  pub marks : IsMarks num m'
  pub it : marked id p m' ≡ some true
  pub others :
      (j q : ℕ)
      → known j m.ishead ≡ true
      → q < num j
      → ((id == j) && (p == q)) ≡ false
      → marked j q m' ≡ marked j q m
  pub new :
      (q : ℕ)
      → known id m.ishead ≡ false
      → q < num id
      → (p == q) ≡ false
      → marked id q m' ≡ some false
