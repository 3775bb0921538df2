-- ===== src/Cma/Tests.antt =====
-- The manifest of cma.c along one history.
use destor_lt.Prelude.{
  ℕ, ◌≡◌, refl, none, some, List, [], ◌∷◌, arith, lookup, insert, insert_all, HashOrder,
}
use destor_lt.Cma.{State, update_manifest, trunc_manifest}
use destor_lt.Cma.Step.{Event, backup, run, last_time, recorded, IsTables, reclaim}
use destor_lt.Cma.History.{fresh, run-last_time, trunc-last_time, kept_not_reclaimed}

program : Unit {0}
unfolding run update_manifest trunc_manifest lookup insert insert_all
program = tt

abbrev in_order : HashOrder ℕ
in_order = record {
  iterate = λ m. m;
  length-iterate = λ m. refl;
  lookup-iterate = λ k m d. refl;
  iterate-Distinct = λ m d. d;
}

abbrev first : List (ℕ × ℕ)
first = (1, 100) ∷ (2, 200) ∷ []

abbrev second : List (ℕ × ℕ)
second = (2, 150) ∷ (3, 50) ∷ []

abbrev later : List Event
later = backup 1 second ∷ []

abbrev after_two : State
after_two = record { file = some ((1, 0) ∷ (2, 1) ∷ (3, 1) ∷ []); live_container_num = 3 }

abbrev after_delete : State
after_delete = record { file = some ((2, 1) ∷ (3, 1) ∷ []); live_container_num = 2 }

abbrev reclaimed : List (ℕ × Unit {0})
reclaimed = (1, tt) ∷ []

two_backups : run in_order (backup 0 first ∷ later) fresh ≡ some after_two
unfolding program
two_backups = refl

delete_first : trunc_manifest in_order 0 after_two ≡ some (after_delete, reclaimed)
unfolding program
delete_first = refl

no_manifest : trunc_manifest in_order 0 fresh ≡ none
unfolding program
no_manifest = refl

tables : IsTables (backup 0 first ∷ later)
unfolding lookup
tables = ground arith

run-last_time_example :
    (st : State) × (run in_order (backup 0 first ∷ later) fresh ≡ some st)
    × (recorded 2 st ≡ last_time 2 (backup 0 first ∷ later) none)
run-last_time_example = run-last_time in_order 2 0 first later tables

trunc-last_time_example :
    (st st' : State) × (invalid : List (ℕ × Unit {0})) × (run in_order
        (backup 0 first ∷ later)
        fresh
      ≡ some st)
    × (trunc_manifest in_order 0 st ≡ some (st', invalid))
    × (lookup 1 invalid ≡ reclaim 0 (last_time 1 (backup 0 first ∷ later) none))
trunc-last_time_example = trunc-last_time in_order 1 0 0 first later tables

found : lookup 2 second ≡ some 150
unfolding lookup
found = refl

kept_not_reclaimed_example : lookup 2 reclaimed ≡ none
kept_not_reclaimed_example =
    kept_not_reclaimed in_order 2 1 0 150 second (backup 0 first ∷ []) [] tables tt found
      (omega arith) two_backups delete_first
