-- ===== src/Rewrite/Cap/Tests.antt =====
-- Capping at a concrete stream, with insertion sort for `g_sequence_sort`.
use destor_lt.Prelude.{
  ℕ, ◌<◌, ◌≡◌, refl, Bool, true, false, none, some, inl, inr, Bool-cases, List, [], ◌∷◌, map, arith,
  All, length, ◌+◌, ltb, ◌==◌, if◌then◌else◌, lookup, insert, remove, Distinct,
}
use destor_lt.Chunk.{Chunk, no_flags, temporary_id}
use destor_lt.Rewrite.Records.{
  ContainerRecord, Records, int_bound, is_ascending, g_sequence_lookup, insert_sorted,
  insert_sorted-ascending,
}
use destor_lt.Rewrite.Buffer.Moves.{IsSmall}
use destor_lt.Rewrite.Har.{har_check}
use destor_lt.Rewrite.Buffer.{
  RewriteBuffer, count_in, fits_in, count_chunk, rewrite_buffer_push, count_out, release_chunk,
  rewrite_buffer_pop,
}
use destor_lt.Rewrite.Buffer.Balance.{IsTidy}
use destor_lt.Rewrite.Drain.{drain, unmarked}
use destor_lt.Rewrite.Cap.{
  Config, State, Sorting, add_top, cap_segment_get_top, judge, judge_last, settle_buffer, cap_step,
  cap_loop, cap_rewrite,
}
use destor_lt.Rewrite.Cap.Top.{IsDescending, Sorts}
use destor_lt.Rewrite.Cap.Stream.{cap_rewrite-stream}

module _ (before : ℕ → ContainerRecord → ℕ → ContainerRecord → Bool) where
  unfoldable insert_by : ℕ → ContainerRecord → Records → Records
  insert_by k v [] = (k, v) ∷ []
  insert_by k v ((j, w) ∷ m) =
      if before k v j w then (k, v) ∷ (j, w) ∷ m else (j, w) ∷ insert_by k v m

  unfoldable sort_by : Records → Records
  sort_by [] = []
  sort_by ((k, v) ∷ m) = insert_by k v (sort_by m)

  lookup-insert_by :
      (k j : ℕ) (v : ContainerRecord) (m : Records)
      → lookup k m ≡ none
      → lookup j (insert_by k v m) ≡ (if k == j then some v else lookup j m)
  unfolding lookup insert_by
  lookup-insert_by k j v [] h = refl
  lookup-insert_by k j v ((i, w) ∷ m) h = ground (arith, lookup-insert_by k j v m)

  insert_by-Distinct :
      (k : ℕ) (v : ContainerRecord) (m : Records)
      → lookup k m ≡ none
      → Distinct m
      → Distinct (insert_by k v m)
  unfolding lookup insert_by
  insert_by-Distinct k v [] h d = (refl, tt)
  insert_by-Distinct k v ((j, w) ∷ m) h d =
      ground (arith, insert_by-Distinct k v m, lookup-insert_by k j v m)

  lookup-sort_by : (k : ℕ) (m : Records) → Distinct m → lookup k (sort_by m) ≡ lookup k m
  unfolding lookup sort_by
  lookup-sort_by k [] d = refl
  lookup-sort_by k ((j, v) ∷ m) d =
      ground
        (arith, lookup-sort_by k m d.1, lookup-sort_by j m d.1, lookup-insert_by j k v (sort_by m))

  sort_by-Distinct : (m : Records) → Distinct m → Distinct (sort_by m)
  unfolding sort_by
  sort_by-Distinct [] d = tt
  sort_by-Distinct ((k, v) ∷ m) d =
      insert_by-Distinct k v (sort_by m) (ground (arith, lookup-sort_by k m d.1))
        (sort_by-Distinct m d.1)

  length-insert_by :
      (k : ℕ) (v : ContainerRecord) (m : Records) → length (insert_by k v m) ≡ length m + 1
  unfolding insert_by
  length-insert_by k v [] = refl
  length-insert_by k v ((j, w) ∷ m) = ground (arith, length-insert_by k v m)

  length-sort_by : (m : Records) → length (sort_by m) ≡ length m
  unfolding sort_by
  length-sort_by [] = refl
  length-sort_by ((k, v) ∷ m) = ground (arith, length-sort_by m, length-insert_by k v (sort_by m))

  abbrev sorting : Sorting
  sorting = record {
    sort = sort_by;
    lookup-sort = lookup-sort_by;
    sort-Distinct = sort_by-Distinct;
    length-sort = length-sort_by;
  }

abbrev longer : ℕ → ContainerRecord → ℕ → ContainerRecord → Bool
longer k v j w = ltb w.size v.size

abbrev lower : ℕ → ContainerRecord → ℕ → ContainerRecord → Bool
lower k v j w = ltb k j

insert_by-IsDescending :
    (k : ℕ) (v : ContainerRecord) (m : Records)
    → lookup k m ≡ none
    → IsDescending m
    → IsDescending (insert_by longer k v m)
unfolding insert_by lookup
insert_by-IsDescending k v [] h d = (λ j s e. absurd (ground arith), tt)
insert_by-IsDescending k v ((j, w) ∷ m) h d = elim (Bool-cases (ltb w.size v.size)) [
  | inl longest ↦ rw (longest, insert_by) (λ i s e. ground (arith, d.0 i s), d)
  | inr other ↦
      rw (other, insert_by)
        (
          λ i s e. ground (arith, d.0 i s, lookup-insert_by longer k i v m),
          insert_by-IsDescending k v m (ground arith) d.1,
        )
]

sort_by-IsDescending : (m : Records) → Distinct m → IsDescending (sort_by longer m)
unfolding sort_by
sort_by-IsDescending [] d = tt
sort_by-IsDescending ((k, v) ∷ m) d =
    insert_by-IsDescending k v (sort_by longer m) (ground (arith, lookup-sort_by longer k m d.1))
      (sort_by-IsDescending m d.1)

-- By id, insertion sort is a run of sorted insertions.
insert_by-lower :
    (k : ℕ) (v : ContainerRecord) (m : Records) → insert_by lower k v m ≡ insert_sorted k v m
unfolding insert_by insert_sorted
insert_by-lower k v [] = refl
insert_by-lower k v ((j, w) ∷ m) = ground (arith, insert_by-lower k v m)

sort_by-ascending : (m : Records) → Distinct m → is_ascending (sort_by lower m) ≡ true
unfolding sort_by is_ascending
sort_by-ascending [] d = refl
sort_by-ascending ((k, v) ∷ m) d =
    let new : lookup k (sort_by lower m) ≡ none = ground (arith, lookup-sort_by lower k m d.1) in
    rw (insert_by-lower k v (sort_by lower m))
      (insert_sorted-ascending k v (sort_by lower m) new (sort_by-ascending m d.1))

abbrev cfg : Config
cfg = record {
  limit = 3;
  rewrite_capping_level = 1;
  har = record { enabled = false; inherited_sparse_containers = [] };
  by_length = sorting longer;
  by_id = sorting lower;
}

program : Unit {0}
unfolding insert_by sort_by lookup insert remove insert_sorted is_ascending g_sequence_lookup
    fits_in har_check count_in count_chunk rewrite_buffer_push count_out release_chunk
    rewrite_buffer_pop drain add_top cap_segment_get_top judge judge_last settle_buffer cap_step
    cap_loop cap_rewrite
program = tt

abbrev unique : Chunk
unique = record { size = 10; flag = no_flags; id = temporary_id; fp = 1; bytes = [] }

abbrev duplicate : ℕ → Chunk
duplicate cid = record {
  size = 20;
  flag = record no_flags { duplicate = true };
  id = some cid;
  fp = 2;
  bytes = [];
}

abbrev marked : Chunk → Chunk
marked c = record c { flag = record c.flag { out_of_order = true } }

abbrev stream : List Chunk
stream = duplicate 5 ∷ duplicate 6 ∷ duplicate 6 ∷ unique ∷ []

-- The last unique chunk is marked: the last loop does not ask for a duplicate.
caps :
    cap_rewrite cfg stream
    ≡ some (marked (duplicate 5) ∷ duplicate 6 ∷ duplicate 6 ∷ marked unique ∷ [])
unfolding program
caps = refl

duplicate-IsTidy : (cid : ℕ) → cid < int_bound → IsTidy (duplicate cid)
duplicate-IsTidy cid near = ((omega arith, near), refl)

stream-IsTidy : All IsTidy stream
stream-IsTidy = (
  duplicate-IsTidy 5 (omega arith),
  (
    duplicate-IsTidy 6 (omega arith),
    (duplicate-IsTidy 6 (omega arith), (((omega arith, tt), tt), tt)),
  ),
)

stream-IsSmall : All (IsSmall 20) stream
stream-IsSmall = (omega arith, (omega arith, (omega arith, (omega arith, tt))))

sorts : Sorts cfg
sorts = record { descending = sort_by-IsDescending; ascending = sort_by-ascending }

abbrev pending : RewriteBuffer
pending = record {
  chunk_queue = duplicate 5 ∷ duplicate 6 ∷ duplicate 6 ∷ [];
  container_record_seq =
      (5, record { size = 20; out_of_order = true })
      ∷ (6, record { size = 40; out_of_order = true })
      ∷ [];
  num = 3;
  size = 60;
}

abbrev full_state : State
full_state = record { buffer = pending; out = [] }

cap_rewrite-stream_example :
    (out : List Chunk) × (cap_rewrite cfg stream ≡ some out)
    × (map unmarked out ≡ map unmarked stream)
cap_rewrite-stream_example =
    cap_rewrite-stream cfg sorts 20 (omega arith) (omega arith) stream stream-IsTidy stream-IsSmall
