-- ===== src/Cma/History.antt =====
-- The manifest of cma.c after any sequence of backups and deletions, against the history itself.
use destor_lt.Prelude.{
  ℕ, ◌≤◌, ◌<◌, ◌≡◌, refl, ap, ◌∙◌, false, Option, none, some, List, [], ◌∷◌, arith, leb, lookup,
  HashOrder, Option-cases, length, ◌++◌, inl, inr,
}
use destor_lt.Cma.{State, update_manifest, split_records, trunc_manifest}
use destor_lt.Cma.Step.{
  Event, backup, delete, run, time_after, last_time, recorded, IsTables, reclaim, run-recorded,
  recorded-trunc,
}

trunc_total :
    (order : HashOrder ℕ) (jobid : ℕ) (st : State) (records : List (ℕ × ℕ))
    → st.file ≡ some records
    → (st' : State) × (invalid : List (ℕ × Unit {0})) × (trunc_manifest order jobid st
        ≡ some (st', invalid))
unfolding trunc_manifest
trunc_total order jobid st records file =
    let (invalid, m) = split_records jobid records [] [] in
    (
      record { file = some (order.iterate m); live_container_num = length m },
      invalid,
      rw (file, trunc_manifest) refl,
    )

run-total :
    (order : HashOrder ℕ) (events : List Event) (st : State) (records : List (ℕ × ℕ))
    → st.file ≡ some records
    → (st' : State) × (run order events st ≡ some st')
      × ((last : List (ℕ × ℕ)) × (st'.file ≡ some last))
unfolding run update_manifest trunc_manifest
run-total order [] st records file = (st, refl, (records, file))
run-total order (backup id monitor ∷ events) st records file =
    run-total order events (update_manifest order id monitor st) _ refl
run-total order (delete jobid ∷ events) st records file =
    let m = (split_records jobid records [] []).1 in
    let st₁ : State = record { file = some (order.iterate m); live_container_num = length m } in
    let (st', e, last) = run-total order events st₁ _ refl in
    (st', rw (file, run, trunc_manifest) e, last)

-- Before the first backup there is no manifest.
abbrev pub fresh : State
fresh = record { file = none; live_container_num = 0 }

-- A history that begins with a backup never exits, and leaves for each container the record of the
-- last backup that referred to it, unless a later deletion reached that time.
pub run-last_time :
    (order : HashOrder ℕ) (cid id : ℕ) (monitor : List (ℕ × ℕ)) (events : List Event)
    → IsTables (backup id monitor ∷ events)
    → (st : State) × (run order (backup id monitor ∷ events) fresh ≡ some st)
      × (recorded cid st ≡ last_time cid (backup id monitor ∷ events) none)
unfolding run update_manifest lookup
run-last_time order cid id monitor events d =
    let (st, e, _) = run-total order events (update_manifest order id monitor fresh) _ refl in
    (st, e, (run-recorded order cid (backup id monitor ∷ events) fresh st d tt e).0)

-- After a history that begins with a backup the next deletion succeeds, and reclaims exactly the
-- containers whose last referring backup is among the deleted ones.
pub trunc-last_time :
    (order : HashOrder ℕ) (cid id jobid : ℕ) (monitor : List (ℕ × ℕ)) (events : List Event)
    → IsTables (backup id monitor ∷ events)
    → (st st' : State) × (invalid : List (ℕ × Unit {0})) × (run order
          (backup id monitor ∷ events)
          fresh
        ≡ some st)
      × (trunc_manifest order jobid st ≡ some (st', invalid))
      × (lookup cid invalid ≡ reclaim jobid (last_time cid (backup id monitor ∷ events) none))
unfolding run update_manifest lookup
trunc-last_time order cid id jobid monitor events d =
    let history = backup id monitor ∷ events in
    let (st, e, (records, file)) =
      run-total order events (update_manifest order id monitor fresh) _ refl in
    let (time, clean) = run-recorded order cid history fresh st d tt e in
    let (st', invalid, step) = trunc_total order jobid st records file in
    (
      st,
      st',
      invalid,
      e,
      step,
      (recorded-trunc order cid jobid st.file st st' invalid refl clean step).1
          ∙ ap (reclaim jobid) time,
    )

-- The backups of a history have ids from `n` on, and its deletions stop below `n`.
abbrev pub IsLater : ℕ → List Event → Type 0
IsLater n [] = Unit
IsLater n (backup id monitor ∷ events) = (n ≤ id) × IsLater n events
IsLater n (delete jobid ∷ events) = (jobid < n) × IsLater n events

last_time-keeps :
    (n cid t : ℕ) (events : List Event)
    → n ≤ t
    → IsLater n events
    → (t' : ℕ) × (last_time cid events (some t) ≡ some t') × (n ≤ t')
unfolding last_time time_after
last_time-keeps n cid t [] h l = (t, refl, h)
last_time-keeps n cid t (backup id monitor ∷ events) h l =
    elim (Option-cases (lookup cid monitor)) [
      | inl out ↦ rw (out, last_time, time_after) (last_time-keeps n cid t events h l.1)
      | inr (s, in_it) ↦ rw (in_it, last_time, time_after) (last_time-keeps n cid id events l.0 l.1)
    ]
last_time-keeps n cid t (delete jobid ∷ events) h l =
    let kept : leb t jobid ≡ false = ground arith in
    rw (kept, last_time, time_after) (last_time-keeps n cid t events h l.1)

last_time-append :
    (cid : ℕ) (xs ys : List Event) (t : Option ℕ)
    → last_time cid (xs ++ ys) t ≡ last_time cid ys (last_time cid xs t)
unfolding last_time
last_time-append cid [] ys t = refl
last_time-append cid (e ∷ xs) ys t = last_time-append cid xs ys (time_after cid e t)

last_time-backup :
    (cid id size : ℕ) (monitor : List (ℕ × ℕ)) (events : List Event) (t : Option ℕ)
    → lookup cid monitor ≡ some size
    → last_time cid (backup id monitor ∷ events) t ≡ last_time cid events (some id)
unfolding last_time time_after
last_time-backup cid id size monitor events t refers = ap (last_time cid events) (ground arith)

-- A container that a kept backup refers to is never reclaimed: if later backups have no smaller ids,
-- and neither the deletions since nor the one at hand reach the backup's own id, then the table of
-- ids to reclaim does not hold the container, whatever came before the backup.
pub kept_not_reclaimed :
    (order : HashOrder ℕ) (cid id jobid size : ℕ) (monitor : List (ℕ × ℕ))
    (before after : List Event) {st st' : State} {invalid : List (ℕ × Unit {0})}
    → IsTables (before ++ backup id monitor ∷ after)
    → IsLater id after
    → lookup cid monitor ≡ some size
    → jobid < id
    → run order (before ++ backup id monitor ∷ after) fresh ≡ some st
    → trunc_manifest order jobid st ≡ some (st', invalid)
    → lookup cid invalid ≡ none
unfolding lookup
kept_not_reclaimed order cid id jobid size monitor before after {st} {st'} {invalid} d later refers
      early e step =
    let (time, clean) =
      run-recorded order cid (before ++ backup id monitor ∷ after) fresh st d tt e in
    let (t, kept, high) = last_time-keeps id cid id after (omega arith) later in
    let at : recorded cid st ≡ some t =
      time
      ∙ last_time-append cid before (backup id monitor ∷ after) none
      ∙ last_time-backup cid id size monitor after _ refers
      ∙ kept in
    let old : leb t jobid ≡ false = ground arith in
    (recorded-trunc order cid jobid st.file st st' invalid refl clean step).1 ∙ rw (at, old) refl
