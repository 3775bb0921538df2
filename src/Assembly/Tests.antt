-- ===== src/Assembly/Tests.antt =====
-- A file of three chunks in two containers, restored with the smallest area.
use destor_lt.Prelude.{ℕ, ◌≡◌, refl, Option, some, none, List, [], ◌∷◌, map, true, inl, inr, All}
use destor_lt.Chunk.{Chunk, no_flags}
use destor_lt.Assembly.{
  init_assembly_area, take_signals, assemble, issue, assemble_area, assembly_area_push, drain_area,
  assembly_restore_loop, assembly_restore_thread,
}
use destor_lt.Assembly.Finish.{finish}
use destor_lt.Assembly.Order.{IsFresh, assembly_restore_thread-finish}

abbrev sized : Chunk
sized = record { size = 2; flag = no_flags; id = none; fp = 0; bytes = [] }

abbrev start : Chunk
start = record sized { size = 0; flag = record no_flags { file_start = true } }

abbrev end : Chunk
end = record sized { size = 0; flag = record no_flags { file_end = true } }

abbrev chunk : ℕ → ℕ → Chunk
chunk fp id = record sized { fp = fp; id = some id }

abbrev fetch : ℕ → ℕ → Option Chunk
fetch id fp = some (record sized { fp = fp; bytes = id ∷ fp ∷ [] })

abbrev stream : List Chunk
stream = start ∷ chunk 7 1 ∷ chunk 8 2 ∷ chunk 9 1 ∷ end ∷ []

abbrev restored_chunk : ℕ → ℕ → Chunk
restored_chunk fp id = record (chunk fp id) {
  bytes = id ∷ fp ∷ [];
  flag = record no_flags { ready = true };
}

restores :
    assembly_restore_thread fetch 2 stream
    ≡ some (start ∷ restored_chunk 7 1 ∷ restored_chunk 8 2 ∷ restored_chunk 9 1 ∷ end ∷ [])
unfolding assembly_restore_thread assembly_restore_loop drain_area assemble_area assembly_area_push
    issue assemble take_signals init_assembly_area
restores = refl

stream-IsFresh : All (IsFresh fetch) stream
stream-IsFresh = (
  (inl refl, refl),
  (
    (inr (refl, 1, record sized { fp = 7; bytes = 1 ∷ 7 ∷ [] }, refl, refl, refl), refl),
    (
      (inr (refl, 2, record sized { fp = 8; bytes = 2 ∷ 8 ∷ [] }, refl, refl, refl), refl),
      (
        (inr (refl, 1, record sized { fp = 9; bytes = 1 ∷ 9 ∷ [] }, refl, refl, refl), refl),
        ((inl refl, refl), tt),
      ),
    ),
  ),
)

assembly_restore_thread-finish_example :
    assembly_restore_thread fetch 2 stream ≡ some (map (finish fetch) stream)
assembly_restore_thread-finish_example =
    assembly_restore_thread-finish fetch 2 stream stream-IsFresh
