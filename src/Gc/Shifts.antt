-- ===== src/Gc/Shifts.antt =====
-- The marks that a backup leaves for the garbage collection (gc/gc_rtm.c): one bit for each chunk of
-- each container that it refers to.
use destor_lt.Prelude.{
  ℕ, ◌+◌, ◌≤◌, ◌<◌, ◌≡◌, sym, ◌∙◌, ap, arith, Bool, true, false, ◌||◌, List, [], ◌∷◌, ◌==◌,
  if◌then◌else◌, Bool-cases, inl, inr,
}
use destor_lt.Gc.{IdShift, id_shift_add_end, get_shift_by_id}

-- The shifts follow each other from `at` to `end`, by the numbers of chunks of the containers.
abbrev pub Laid : (ℕ → ℕ) → ℕ → List IdShift → ℕ → Type 0
Laid num at [] end = at ≡ end
Laid num at (s ∷ l) end = (s.chunk_shift ≡ at) × Laid num (at + num s.container_id) l end

unfoldable pub known : ℕ → List IdShift → Bool
known id [] = false
known id (s ∷ l) = if s.container_id == id then true else known id l

Laid-le : (num : ℕ → ℕ) (at end : ℕ) (l : List IdShift) → Laid num at l end → at ≤ end
Laid-le num at end [] h = omega (arith, h)
Laid-le num at end (s ∷ l) h = omega (arith, Laid-le num (at + num s.container_id) end l h.1)

pub shift_bounds :
    (num : ℕ → ℕ) (at end id : ℕ) (l : List IdShift)
    → Laid num at l end
    → known id l ≡ true
    → (at ≤ get_shift_by_id id l) × (get_shift_by_id id l + num id ≤ end)
unfolding known get_shift_by_id
shift_bounds num at end id [] h k = absurd (ground (arith, k))
shift_bounds num at end id (s ∷ l) h k = elim (Bool-cases (s.container_id == id)) [
  | inl it ↦
      let same : s.container_id ≡ id = ground (arith, it) in
      let size : num s.container_id ≡ num id = ap num same in
      let fits = Laid-le num (at + num s.container_id) end l h.1 in
      rw (it) (omega (arith, h.0), omega (arith, h.0, size, fits))
  | inr other ↦
      let (low, high) =
        shift_bounds num (at + num s.container_id) end id l h.1 (ground (arith, k, other)) in
      rw (other) (omega (arith, low), high)
]

-- Two chunks of known containers have the same bit only if they are the same.
pub shift_injective :
    (num : ℕ → ℕ) (at end i j p q : ℕ) (l : List IdShift)
    → Laid num at l end
    → known i l ≡ true
    → known j l ≡ true
    → p < num i
    → q < num j
    → p + get_shift_by_id i l ≡ q + get_shift_by_id j l
    → (i ≡ j) × (p ≡ q)
unfolding known get_shift_by_id
shift_injective num at end i j p q [] h ki kj lp lq e = absurd (ground (arith, ki))
shift_injective num at end i j p q (s ∷ l) h ki kj lp lq e =
    elim (Bool-cases (s.container_id == i)) [
      | inl it ↦ elim (Bool-cases (s.container_id == j)) [
        | inl its ↦ (ground (arith, it, its), ground (arith, e, it, its))
        | inr other ↦
            let size : num s.container_id ≡ num i =
              let same : s.container_id ≡ i = ground (arith, it) in ap num same in
            let (low, _) =
              shift_bounds num (at + num s.container_id) end j l h.1 (ground (arith, kj, other)) in
            absurd (ground (arith, e, it, other, low, size, lp, h.0))
      ]
      | inr other ↦ elim (Bool-cases (s.container_id == j)) [
        | inl its ↦
            let size : num s.container_id ≡ num j =
              let same : s.container_id ≡ j = ground (arith, its) in ap num same in
            let (low, _) =
              shift_bounds num (at + num s.container_id) end i l h.1 (ground (arith, ki, other)) in
            absurd (ground (arith, e, its, other, low, size, lq, h.0))
        | inr others ↦
            shift_injective num (at + num s.container_id) end i j p q l h.1
              (ground (arith, ki, other)) (ground (arith, kj, others)) lp lq
              (ground (arith, e, other, others))
      ]
    ]

pub add_end-Laid :
    (num : ℕ → ℕ) (at end : ℕ) (s : IdShift) (l : List IdShift)
    → Laid num at l end
    → s.chunk_shift ≡ end
    → Laid num at (id_shift_add_end s l) (end + num s.container_id)
unfolding id_shift_add_end
add_end-Laid num at end s [] h e = (e ∙ sym h, ap (λ x. x + num s.container_id) h)
add_end-Laid num at end s (t ∷ l) h e =
    (h.0, add_end-Laid num (at + num t.container_id) end s l h.1 e)

pub add_end-known :
    (s : IdShift) (l : List IdShift) (id : ℕ)
    → known id (id_shift_add_end s l) ≡ (known id l || (s.container_id == id))
unfolding id_shift_add_end known
add_end-known s [] id = ground arith
add_end-known s (t ∷ l) id = ground (arith, add_end-known s l id)

pub add_end-shift :
    (s : IdShift) (l : List IdShift) (id : ℕ)
    → known id l ≡ true
    → get_shift_by_id id (id_shift_add_end s l) ≡ get_shift_by_id id l
unfolding id_shift_add_end known get_shift_by_id
add_end-shift s [] id k = absurd (ground (arith, k))
add_end-shift s (t ∷ l) id k = ground (arith, add_end-shift s l id, k)

pub add_end-new :
    (s : IdShift) (l : List IdShift)
    → known s.container_id l ≡ false
    → get_shift_by_id s.container_id (id_shift_add_end s l) ≡ s.chunk_shift
unfolding id_shift_add_end known get_shift_by_id
add_end-new s [] k = ground arith
add_end-new s (t ∷ l) k = ground (arith, add_end-new s l, k)
