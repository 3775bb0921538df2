-- ===== src/Prelude/Assoc.antt =====
-- Association lists keyed by numbers: the reading of the program's GHashTables. `insert` replaces
-- the value of a key that is there, as `g_hash_table_insert` does.
use Prim.Native.Nat.{ℕ, suc}
use mathlib.Core.Path.{◌≡◌, refl}
use mathlib.Core.List.{List, [], ◌∷◌}
use mathlib.Core.Option.{Option, none, some}
use native.Mathlib.Omega.{arith}
use destor_lt.Prelude.Lists.{length}
use destor_lt.Prelude.Decide.{◌==◌, if◌then◌else◌}

module _ {ℓ} {V : Type ℓ} where
  unfoldable pub lookup : ℕ → List (ℕ × V) → Option V
  lookup k [] = none
  lookup k ((j, v) ∷ m) = if j == k then some v else lookup k m

  unfoldable pub insert : ℕ → V → List (ℕ × V) → List (ℕ × V)
  insert key value [] = (key, value) ∷ []
  insert key value ((k, v) ∷ rest) =
      if k == key then (key, value) ∷ rest else (k, v) ∷ insert key value rest

  unfoldable pub remove : ℕ → List (ℕ × V) → List (ℕ × V)
  remove k [] = []
  remove k ((j, w) ∷ m) = if j == k then m else (j, w) ∷ remove k m

  pub lookup-insert :
      (k j : ℕ) (v : V) (m : List (ℕ × V))
      → lookup j (insert k v m) ≡ (if k == j then some v else lookup j m)
  unfolding lookup insert
  lookup-insert key j value [] = refl
  lookup-insert key j value ((k, v) ∷ rest) = ground (arith, lookup-insert key j value rest)

  -- Every key of the table is new to what follows it.
  abbrev pub Distinct : List (ℕ × V) → Type ℓ
  Distinct [] = Unit
  Distinct ((k, v) ∷ m) = (lookup k m ≡ none) × Distinct m

  pub insert-Distinct : (k : ℕ) (v : V) (m : List (ℕ × V)) → Distinct m → Distinct (insert k v m)
  unfolding lookup insert
  insert-Distinct k v [] d = (refl, tt)
  insert-Distinct k v ((j, w) ∷ m) d =
      ground (arith, insert-Distinct k v m d.1, lookup-insert k j v m)

  pub lookup-remove :
      (k j : ℕ) (m : List (ℕ × V))
      → Distinct m
      → lookup j (remove k m) ≡ (if k == j then none else lookup j m)
  unfolding lookup remove
  lookup-remove k j [] d = ground arith
  lookup-remove k j ((i, w) ∷ m) d = ground (arith, lookup-remove k j m d.1)

  pub remove-Distinct : (k : ℕ) (m : List (ℕ × V)) → Distinct m → Distinct (remove k m)
  unfolding lookup remove
  remove-Distinct k [] d = tt
  remove-Distinct k ((j, w) ∷ m) d =
      ground (arith, remove-Distinct k m d.1, lookup-remove k j m d.1)

  -- The insertions of a list of entries, the first one first.
  unfoldable pub insert_all : List (ℕ × V) → List (ℕ × V) → List (ℕ × V)
  insert_all [] m = m
  insert_all ((k, v) ∷ es) m = insert_all es (insert k v m)

  -- Inserting distinct entries leaves each to be found.
  pub lookup-insert_all :
      (k : ℕ) (es m : List (ℕ × V))
      → Distinct es
      → lookup k (insert_all es m) ≡ (elim (lookup k es) [ none ↦ lookup k m | some v ↦ some v ])
  unfolding insert_all lookup
  lookup-insert_all k [] m d = refl
  lookup-insert_all k ((j, v) ∷ es) m d =
      ground (arith, lookup-insert_all k es (insert j v m) d.1, lookup-insert j k v m)

  pub insert_all-Distinct : (es m : List (ℕ × V)) → Distinct m → Distinct (insert_all es m)
  unfolding insert_all
  insert_all-Distinct [] m d = d
  insert_all-Distinct ((k, v) ∷ es) m d =
      insert_all-Distinct es (insert k v m) (insert-Distinct k v m d)

  pub length-insert_absent :
      (k : ℕ) (v : V) (m : List (ℕ × V))
      → lookup k m ≡ none
      → length (insert k v m) ≡ suc (length m)
  unfolding insert lookup
  length-insert_absent k v [] h = refl
  length-insert_absent k v ((j, w) ∷ m) h = ground (arith, length-insert_absent k v m)

-- A GHashTable is walked in an order that GLib leaves open: each entry once.
pub record HashOrder {ℓ} (V : Type ℓ) : Type ℓ where
  pub iterate : List (ℕ × V) → List (ℕ × V)
  pub length-iterate : (m : List (ℕ × V)) → length (iterate m) ≡ length m
  pub lookup-iterate : (k : ℕ) (m : List (ℕ × V)) → Distinct m → lookup k (iterate m) ≡ lookup k m
  pub iterate-Distinct : (m : List (ℕ × V)) → Distinct m → Distinct (iterate m)
