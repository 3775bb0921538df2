-- ===== src/Rewrite/Records.antt =====
-- `container_record_seq` of rewrite_phase.c: container records by container id, which is the key of an
-- entry. `g_sequence_lookup` is a binary search. Ids are compared as numbers, which the int that the code
-- compares by is exact for below 2 ^ 31.
use destor_lt.Prelude.{
  ℕ, ◌<◌, ◌≡◌, refl, Bool, true, ◌&&◌, Option, none, some, List, [], ◌∷◌, ltb, ◌==◌, if◌then◌else◌,
  arith, lookup, insert, remove, Distinct,
}

pub record ContainerRecord : Type 0 where
  pub size : ℕ
  pub out_of_order : Bool

abbrev pub Records : Type 0
Records = List (ℕ × ContainerRecord)

-- The bound that an int and an int32_t stay below; past it they have no defined value.
abbrev pub int_bound : ℕ
int_bound = 2_147_483_648

abbrev pub starts_above : ℕ → Records → Bool
starts_above j [] = true
starts_above j ((k, r) ∷ m) = ltb j k

unfoldable pub is_ascending : Records → Bool
is_ascending [] = true
is_ascending ((k, r) ∷ m) = starts_above k m && is_ascending m

-- `g_sequence_lookup` by `g_record_cmp_by_id`. It finds what a sorted sequence has; in another its
-- result says nothing, which is read as NULL.
unfoldable pub g_sequence_lookup : ℕ → Records → Option ContainerRecord
g_sequence_lookup k seq = if is_ascending seq then lookup k seq else none

pub g_sequence_lookup-ascending :
    (k : ℕ) (seq : Records) → is_ascending seq ≡ true → g_sequence_lookup k seq ≡ lookup k seq
unfolding g_sequence_lookup
g_sequence_lookup-ascending k seq a = rw a refl

-- `g_sequence_insert_sorted` by `g_record_cmp_by_id`.
unfoldable pub insert_sorted : ℕ → ContainerRecord → Records → Records
insert_sorted k v [] = (k, v) ∷ []
insert_sorted k v ((j, w) ∷ m) =
    if ltb k j then (k, v) ∷ (j, w) ∷ m else (j, w) ∷ insert_sorted k v m

pub lookup-insert_sorted :
    (k j : ℕ) (v : ContainerRecord) (m : Records)
    → lookup k m ≡ none
    → lookup j (insert_sorted k v m) ≡ (if k == j then some v else lookup j m)
unfolding lookup insert_sorted
lookup-insert_sorted k j v [] h = refl
lookup-insert_sorted k j v ((i, w) ∷ m) h = ground (arith, lookup-insert_sorted k j v m)

pub insert_sorted-Distinct :
    (k : ℕ) (v : ContainerRecord) (m : Records)
    → lookup k m ≡ none
    → Distinct m
    → Distinct (insert_sorted k v m)
unfolding lookup insert_sorted
insert_sorted-Distinct k v [] h d = (refl, tt)
insert_sorted-Distinct k v ((j, w) ∷ m) h d =
    ground (arith, insert_sorted-Distinct k v m, lookup-insert_sorted k j v m)

starts_above-insert_sorted :
    (i k : ℕ) (v : ContainerRecord) (m : Records)
    → i < k
    → starts_above i m ≡ true
    → starts_above i (insert_sorted k v m) ≡ true
unfolding insert_sorted
starts_above-insert_sorted i k v [] h a = ground arith
starts_above-insert_sorted i k v ((j, w) ∷ m) h a = ground arith

pub insert_sorted-ascending :
    (k : ℕ) (v : ContainerRecord) (m : Records)
    → lookup k m ≡ none
    → is_ascending m ≡ true
    → is_ascending (insert_sorted k v m) ≡ true
unfolding lookup insert_sorted is_ascending
insert_sorted-ascending k v [] h a = refl
insert_sorted-ascending k v ((j, w) ∷ m) h a =
    ground (arith, insert_sorted-ascending k v m, starts_above-insert_sorted j k v m)

starts_above-insert :
    (i k : ℕ) (r v : ContainerRecord) (m : Records)
    → lookup k m ≡ some r
    → starts_above i (insert k v m) ≡ starts_above i m
unfolding lookup insert
starts_above-insert i k r v [] h = absurd (ground (arith, h))
starts_above-insert i k r v ((j, w) ∷ m) h = ground arith

-- A new record in the place of an old one.
pub insert-ascending :
    (k : ℕ) (r v : ContainerRecord) (m : Records)
    → lookup k m ≡ some r
    → is_ascending m ≡ true
    → is_ascending (insert k v m) ≡ true
unfolding lookup insert is_ascending
insert-ascending k r v [] h a = refl
insert-ascending k r v ((j, w) ∷ m) h a =
    ground (arith, insert-ascending k r v m, starts_above-insert j k r v m)

starts_above_trans :
    (i j : ℕ) (m : Records) → i < j → starts_above j m ≡ true → starts_above i m ≡ true
starts_above_trans i j [] h a = refl
starts_above_trans i j ((k, r) ∷ m) h a = ground arith

starts_above-remove :
    (i k : ℕ) (m : Records)
    → is_ascending m ≡ true
    → starts_above i m ≡ true
    → starts_above i (remove k m) ≡ true
unfolding remove is_ascending
starts_above-remove i k [] a h = refl
starts_above-remove i k ((j, w) ∷ m) a h = ground (arith, starts_above_trans i j m)

pub remove-ascending :
    (k : ℕ) (m : Records) → is_ascending m ≡ true → is_ascending (remove k m) ≡ true
unfolding remove is_ascending
remove-ascending k [] a = refl
remove-ascending k ((j, w) ∷ m) a = ground (arith, remove-ascending k m, starts_above-remove j k m)
