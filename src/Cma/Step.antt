-- ===== src/Cma/Step.antt =====
-- What one backup and one deletion do to a container's record in the manifest of cma.c.
use destor_lt.Prelude.{
  ℕ, ◌≡◌, refl, ◌∙◌, Option, none, some, List, [], ◌∷◌, arith, leb, if◌then◌else◌, lookup, insert,
  HashOrder, Distinct, lookup-insert, lookup-insert_all, insert-Distinct, insert_all-Distinct,
  Option-cases, inl, inr,
}
use destor_lt.Cma.{
  Manifest, State, read_manifest, mark, update_manifest, split_records, trunc_manifest,
}

-- A backup with its id and the containers that it refers to, or the deletion of all backups up to
-- an id.
pub data Event : Type 0 where
  backup : ℕ → List (ℕ × ℕ) → Event
  delete : ℕ → Event

-- The reclaimed ids are left to the caller.
unfoldable pub run : HashOrder ℕ → List Event → State → Option State
run order [] st = some st
run order (backup id monitor ∷ events) st = run order events (update_manifest order id monitor st)
run order (delete jobid ∷ events) st = elim (trunc_manifest order jobid st) [
  | none ↦ none
  | some (st', _) ↦ run order events st'
]

-- The time that a container's record should have after an event, from the time before it.
unfoldable pub time_after : ℕ → Event → Option ℕ → Option ℕ
time_after cid (backup id monitor) t = elim (lookup cid monitor) [ none ↦ t | some _ ↦ some id ]
time_after cid (delete jobid) none = none
time_after cid (delete jobid) (some t) = if leb t jobid then none else some t

unfoldable pub last_time : ℕ → List Event → Option ℕ → Option ℕ
last_time cid [] t = t
last_time cid (e ∷ events) t = last_time cid events (time_after cid e t)

-- A file that the code wrote has each id once; so has a missing one.
abbrev pub IsClean : State → Type 0
IsClean st = elim st.file [ none ↦ Unit {0} | some records ↦ Distinct records ]

lookup-mark :
    (cid id : ℕ) (monitor : List (ℕ × ℕ)) (m : Manifest)
    → lookup cid (mark id monitor m)
      ≡ (elim (lookup cid monitor) [ none ↦ lookup cid m | some _ ↦ some id ])
unfolding mark lookup
lookup-mark cid id [] m = refl
lookup-mark cid id ((j, s) ∷ monitor) m =
    ground (arith, lookup-mark cid id monitor (insert j id m), lookup-insert j cid id m)

mark-Distinct :
    (id : ℕ) (monitor : List (ℕ × ℕ)) (m : Manifest) → Distinct m → Distinct (mark id monitor m)
unfolding mark
mark-Distinct id [] m d = d
mark-Distinct id ((j, s) ∷ monitor) m d =
    mark-Distinct id monitor (insert j id m) (insert-Distinct j id m d)

module _ (jobid cid : ℕ) where
  -- Of distinct records, those that are too old go to the one table and the others to the other.
  lookup-split :
      (records : List (ℕ × ℕ)) (invalid : List (ℕ × Unit {0})) (m : Manifest)
      → Distinct records
      → (lookup cid (split_records jobid records invalid m).0 ≡ (elim (lookup cid records) [
        | none ↦ lookup cid invalid
        | some t ↦ if leb t jobid then some tt else lookup cid invalid
      ]))
        × (lookup cid (split_records jobid records invalid m).1 ≡ (elim (lookup cid records) [
          | none ↦ lookup cid m
          | some t ↦ if leb t jobid then lookup cid m else some t
        ]))
  unfolding split_records lookup
  lookup-split [] invalid m d = (refl, refl)
  lookup-split ((j, t) ∷ records) invalid m d = ground (
    arith,
    lookup-split records (if leb t jobid then insert j tt invalid else invalid)
        (if leb t jobid then m else insert j t m) d.1,
    lookup-insert j cid tt invalid,
    lookup-insert j cid t m,
  )

pub split-Distinct :
    (jobid : ℕ) (records : List (ℕ × ℕ)) (invalid : List (ℕ × Unit {0})) (m : Manifest)
    → Distinct m
    → Distinct (split_records jobid records invalid m).1
unfolding split_records
split-Distinct jobid [] invalid m d = d
split-Distinct jobid ((j, t) ∷ records) invalid m d =
    split-Distinct jobid records _ _ (ground (arith, insert-Distinct j t m d))

-- The record of a container in the manifest file.
abbrev pub recorded : ℕ → State → Option ℕ
recorded cid st = lookup cid (read_manifest st.file)

read_manifest-Distinct : (file : Option (List (ℕ × ℕ))) → Distinct (read_manifest file)
read_manifest-Distinct none = tt
read_manifest-Distinct (some records) = insert_all-Distinct records [] tt

-- The monitors of a history are tables: no id twice.
abbrev pub IsTables : List Event → Type 0
IsTables [] = Unit
IsTables (backup id monitor ∷ events) = Distinct monitor × IsTables events
IsTables (delete jobid ∷ events) = IsTables events

-- Whether a deletion should reclaim a container, from its time.
abbrev pub reclaim : ℕ → Option ℕ → Option (Unit {0})
reclaim jobid none = none
reclaim jobid (some t) = if leb t jobid then some tt else none

module _ (order : HashOrder ℕ) (cid : ℕ) where
  reread :
      (m : Manifest)
      → Distinct m
      → lookup cid (read_manifest (some (order.iterate m))) ≡ lookup cid m
  unfolding lookup
  reread m d = ground (
    arith,
    lookup-insert_all cid (order.iterate m) [] (order.iterate-Distinct m d),
    order.lookup-iterate cid m d,
  )

  recorded-update :
      (id : ℕ) (monitor : List (ℕ × ℕ)) (st : State)
      → Distinct monitor
      → recorded cid (update_manifest order id monitor st)
        ≡ time_after cid (backup id monitor) (recorded cid st)
  unfolding update_manifest time_after
  recorded-update id monitor st d =
      let m = mark id (order.iterate monitor) (read_manifest st.file) in
      reread m (mark-Distinct id (order.iterate monitor) _ (read_manifest-Distinct st.file))
      ∙ lookup-mark cid id (order.iterate monitor) (read_manifest st.file)
      ∙ rw (order.lookup-iterate cid monitor d) refl

  recorded-records :
      (records : List (ℕ × ℕ))
      → Distinct records
      → lookup cid (read_manifest (some records)) ≡ lookup cid records
  unfolding lookup
  recorded-records records d = ground (arith, lookup-insert_all cid records [] d)

  split-records :
      (jobid : ℕ) (records : List (ℕ × ℕ))
      → Distinct records
      → let (invalid, m) = split_records jobid records [] [] in
        (lookup cid (read_manifest (some (order.iterate m)))
          ≡ time_after cid (delete jobid) (lookup cid records))
        × (lookup cid invalid ≡ reclaim jobid (lookup cid records))
  unfolding time_after lookup
  split-records jobid records d =
      let again =
        reread (split_records jobid records [] []).1 (split-Distinct jobid records [] [] tt) in
      ground (arith, again, lookup-split jobid cid records [] [] d)

  pub recorded-trunc :
      (jobid : ℕ) (file : Option (List (ℕ × ℕ))) (st st' : State) (invalid : List (ℕ × Unit {0}))
      → st.file ≡ file
      → IsClean (record st { file = file })
      → trunc_manifest order jobid (record st { file = file }) ≡ some (st', invalid)
      → (recorded cid st' ≡ time_after cid (delete jobid) (recorded cid st))
        × (lookup cid invalid ≡ reclaim jobid (recorded cid st))
  unfolding trunc_manifest
  recorded-trunc jobid none st st' invalid same clean e = absurd (ground arith)
  recorded-trunc jobid (some records) st st' invalid same clean e =
      let m = (split_records jobid records [] []).1 in
      let facts = split-records jobid records clean in
      let file' : st'.file ≡ some (order.iterate m) = ground arith in
      let invalid' : invalid ≡ (split_records jobid records [] []).0 = ground arith in
      (
        rw (file', same, recorded-records records clean) facts.0,
        rw (invalid', same, recorded-records records clean) facts.1,
      )

  trunc-IsClean :
      (jobid : ℕ) (st st' : State) (invalid : List (ℕ × Unit {0}))
      → trunc_manifest order jobid st ≡ some (st', invalid)
      → (records : List (ℕ × ℕ)) × (st'.file ≡ some records) × Distinct records
  unfolding trunc_manifest
  trunc-IsClean jobid st st' invalid e = elim (Option-cases st.file) [
    | inl missing ↦ absurd (ground arith)
    | inr (records, present) ↦ (
      order.iterate (split_records jobid records [] []).1,
      ground arith,
      order.iterate-Distinct _ (split-Distinct jobid records [] [] tt),
    )
  ]

IsClean-of_file :
    (st : State) (records : List (ℕ × ℕ)) → st.file ≡ some records → Distinct records → IsClean st
IsClean-of_file st records e d = rw e d

module _ (order : HashOrder ℕ) (cid : ℕ) where
  update-IsClean :
      (id : ℕ) (monitor : List (ℕ × ℕ)) (st : State) → IsClean (update_manifest order id monitor st)
  unfolding update_manifest
  update-IsClean id monitor st =
      order.iterate-Distinct _
        (mark-Distinct id (order.iterate monitor) _ (read_manifest-Distinct st.file))

  pub run-recorded :
      (events : List Event) (st st' : State)
      → IsTables events
      → IsClean st
      → run order events st ≡ some st'
      → (recorded cid st' ≡ last_time cid events (recorded cid st)) × IsClean st'
  unfolding run last_time
  run-recorded [] st st' d clean e = let same : st ≡ st' = ground arith in rw (← same) (refl, clean)
  run-recorded (backup id monitor ∷ events) st st' d clean e =
      rw (← recorded-update order cid id monitor st d.0) (
        run-recorded events (update_manifest order id monitor st) st' d.1
          (update-IsClean id monitor st) e)
  run-recorded (delete jobid ∷ events) st st' d clean e =
      elim (Option-cases (trunc_manifest order jobid st)) [
        | inl failed ↦ absurd (ground arith)
        | inr ((st₁, invalid), step) ↦
            let (records, file, distinct) = trunc-IsClean order cid jobid st st₁ invalid step in
            let (time, _) = recorded-trunc order cid jobid st.file st st₁ invalid refl clean step in
            let rest : run order events st₁ ≡ some st' = ground arith in
            rw (← time)
              (run-recorded events st₁ st' d (IsClean-of_file st₁ records file distinct) rest)
      ]
