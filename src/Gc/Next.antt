-- ===== src/Gc/Next.antt =====
-- The end of a container's bits (gc/gc_rtm.c).
use destor_lt.Prelude.{ℕ, ◌≡◌, refl, ◌∙◌, arith, false, none, List, [], ◌∷◌, ◌==◌}
use destor_lt.Gc.{IdShift, id_shift_add_end, get_next_shift_by_id}
use destor_lt.Gc.Shifts.{known}

next_cons :
    (id : ℕ) (t s u : IdShift) (l : List IdShift)
    → (t.container_id == id) ≡ false
    → get_next_shift_by_id id (t ∷ id_shift_add_end s (u ∷ l))
      ≡ get_next_shift_by_id id (id_shift_add_end s (u ∷ l))
unfolding get_next_shift_by_id id_shift_add_end
next_cons id t s u l h = ground (arith, h)

-- A container that is added to the list and was not in it is its last, and for the end of its bits the
-- code reads the number of its chunks, a field that was never set.
get_next_shift-last :
    (s : IdShift) (l : List IdShift)
    → known s.container_id l ≡ false
    → get_next_shift_by_id s.container_id (id_shift_add_end s l) ≡ none
unfolding get_next_shift_by_id id_shift_add_end known
get_next_shift-last s [] h = refl
get_next_shift-last s (t ∷ []) h = ground (arith, h)
get_next_shift-last s (t ∷ u ∷ l) h =
    next_cons s.container_id t s u l (ground (arith, h))
    ∙ get_next_shift-last s (u ∷ l) (ground (arith, h))
