-- ===== src/Assembly.antt =====
-- The forward assembly area of a restore: destor-master/src/assembly_restore.c.

pub mod Finish
pub mod Rounds
pub mod Order
mod Tests
use destor_lt.Prelude.{
  ℕ, zero, suc, ◌+◌, ◌-◌, ◌*◌, Bool, true, false, ◌||◌, Option, none, some, List, [], ◌∷◌, ◌++◌,
  leb, ◌==◌, if◌then◌else◌, length, ℤ, pos, negsuc,
}
use destor_lt.Chunk.{Chunk, container_size, eq_id, is_file_signal}

-- `assembly_area`; `size` counts the chunks of the area that are no signals.
pub record Area : Type 0 where
  pub area : List Chunk
  pub area_size : ℤ
  pub size : ℕ

-- From `restore_cache[1]`.
unfoldable pub init_assembly_area : ℕ → Area
init_assembly_area zero = record { area = []; area_size = negsuc (container_size - 1); size = 0 }
init_assembly_area (suc n) = record { area = []; area_size = pos (n * container_size); size = 0 }

-- The chunk with the data that was read for it.
abbrev pub with_data : Chunk → Chunk → Chunk
with_data c buf = record c { bytes = buf.bytes; flag = record c.flag { ready = true } }

-- The first loop: the signals in front, and the chunks from the first other one on.
unfoldable pub take_signals : List Chunk → List Chunk × List Chunk
take_signals [] = ([], [])
take_signals (c ∷ cs) =
    let (signals, rest) = take_signals cs in
    if is_file_signal c then (c ∷ signals, rest) else ([], c ∷ cs)

-- The loop that assembles the area from a container, where `fetch` is `get_chunk_in_container` of the
-- container with an id; `none` is a failed assertion, or a chunk that is not in the container.
unfoldable pub assemble : (ℕ → ℕ → Option Chunk) → ℕ → List Chunk → Option (List Chunk)
assemble fetch id [] = some []
assemble fetch id (c ∷ cs) =
    let rest = assemble fetch id cs in
    elim rest [
      | none ↦ none
      | some cs' ↦
          if is_file_signal c
          then some (c ∷ cs')
          else if eq_id c.id (some id)
          then elim (fetch id c.fp) [
            | none ↦ none
            | some buf ↦ if c.size == buf.size then some (with_data c buf ∷ cs') else none
          ]
          else some (c ∷ cs')
    ]

-- The loop that issues what is assembled in front.
unfoldable pub issue : List Chunk → ℕ → List Chunk × List Chunk × ℕ
issue [] size = ([], [], size)
issue (c ∷ cs) size =
    let further = issue cs (if is_file_signal c then size else size - c.size) in
    if is_file_signal c || c.flag.ready
    then (c ∷ further.0, further.1, further.2)
    else ([], c ∷ cs, size)

-- A restore that is no simulation. The result inside is `none` where the area is empty; a chunk without a
-- container cannot be read.
unfoldable pub assemble_area : (ℕ → ℕ → Option Chunk) → Area → Option (Option (List Chunk) × Area)
assemble_area fetch a = elim a.area [
  | [] ↦ some (none, a)
  | c₀ ∷ cs₀ ↦
      let (signals, rest) = take_signals (c₀ ∷ cs₀) in
      elim rest [
        | [] ↦ some (some signals, record a { area = [] })
        | c ∷ cs ↦ elim c.id [
          | none ↦ none
          | some id ↦ elim (assemble fetch id (c ∷ cs)) [
            | none ↦ none
            | some assembled ↦
                let issued = issue assembled a.size in
                some (some (signals ++ issued.0), record a { area = issued.1; size = issued.2 })
          ]
        ]
      ]
]

abbrev reaches : ℕ → ℤ → Bool
reaches size (pos n) = leb n size
reaches size (negsuc n) = true

-- With it, whether the area is full.
unfoldable pub assembly_area_push : Chunk → Area → Area × Bool
assembly_area_push c a =
    if is_file_signal c then (record a { area = a.area ++ c ∷ [] }, false) else (
      record a { area = a.area ++ c ∷ []; size = a.size + c.size },
      reaches (a.size + c.size) a.area_size,
    )

-- The loop behind the last chunk, on fuel.
unfoldable pub drain_area : (ℕ → ℕ → Option Chunk) → ℕ → Area → List Chunk → Option (List Chunk)
drain_area fetch zero a out = none
drain_area fetch (suc fuel) a out = elim (assemble_area fetch a) [
  | none ↦ none
  | some (none, a') ↦ some out
  | some (some q, a') ↦ drain_area fetch fuel a' (out ++ q)
]

abbrev queue_of : Option (List Chunk) → List Chunk
queue_of none = []
queue_of (some q) = q

-- What is pushed to `restore_chunk_queue`.
unfoldable pub assembly_restore_loop :
    (ℕ → ℕ → Option Chunk) → List Chunk → Area → List Chunk → Option (List Chunk)
assembly_restore_loop fetch [] a out = drain_area fetch (suc (length a.area)) a out
assembly_restore_loop fetch (c ∷ cs) a out =
    let (a', full) = assembly_area_push c a in
    if full
    then elim (assemble_area fetch a') [
      | none ↦ none
      | some (q, a'') ↦ assembly_restore_loop fetch cs a'' (out ++ queue_of q)
    ]
    else assembly_restore_loop fetch cs a' out

unfoldable pub assembly_restore_thread :
    (ℕ → ℕ → Option Chunk) → ℕ → List Chunk → Option (List Chunk)
assembly_restore_thread fetch restore_cache cs =
    assembly_restore_loop fetch cs (init_assembly_area restore_cache) []
