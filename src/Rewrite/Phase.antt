-- ===== src/Rewrite/Phase.antt =====
-- The rewriting phase without rewriting, and the choice of an algorithm: destor-master/src/rewrite_phase.c.
use destor_lt.Prelude.{
  ℕ, suc, ◌*◌, ◌<◌, ◌≡◌, refl, ap, arith, Bool, ◌&&◌, Bool-cases, inl, inr, Option, some, List, [],
  ◌∷◌, map, All, if◌then◌else◌,
}
use destor_lt.Chunk.{Chunk}
use destor_lt.Rewrite.Har.{Har, har_check}
use destor_lt.Rewrite.Records.{int_bound}
use destor_lt.Rewrite.Buffer.Moves.{IsSmall}
use destor_lt.Rewrite.Buffer.Balance.{IsTidy}
use destor_lt.Rewrite.Drain.{unmarked}
use destor_lt.Rewrite.Cfl as CflRewrite
use destor_lt.Rewrite.Cfl.Stream.{cfl_rewrite-stream}
use destor_lt.Rewrite.Cap as CapRewrite
use destor_lt.Rewrite.Cap.Top.{Sorts}
use destor_lt.Rewrite.Cap.Stream.{cap_rewrite-stream}

-- What becomes of a chunk in `no_rewrite`, once its check is done.
abbrev check_pushed : Har → Chunk → Chunk
check_pushed har c =
    if har.enabled && c.flag.duplicate then har_check har.inherited_sparse_containers c else c

-- The chunks as the filter phase finds them in `rewrite_queue`. A chunk is pushed before it is checked:
-- `overtaken n` says that the filter phase reads the n-th one before its check.
unfoldable pub no_rewrite : Har → (ℕ → Bool) → ℕ → List Chunk → List Chunk
no_rewrite har overtaken n [] = []
no_rewrite har overtaken n (c ∷ input) =
    (if overtaken n then c else check_pushed har c) ∷ no_rewrite har overtaken (suc n) input

-- `rewrite_algorithm[0]` with what the algorithm reads of the configuration; context-based rewriting is
-- left out.
pub data Algorithm : Type 0 where
  rewrite_no : Har → (ℕ → Bool) → Algorithm
  cfl_selective_deduplication : CflRewrite.Config → Algorithm
  capping : CapRewrite.Config → Algorithm

unfoldable pub rewrite_phase : Algorithm → List Chunk → Option (List Chunk)
rewrite_phase (rewrite_no har overtaken) input = some (no_rewrite har overtaken 0 input)
rewrite_phase (cfl_selective_deduplication cfg) input = CflRewrite.cfl_rewrite cfg input
rewrite_phase (capping cfg) input = CapRewrite.cap_rewrite cfg input

-- A buffer of at least one chunk, which stays below 2 ^ 31 bytes with chunks of at most `largest` bytes.
abbrev pub IsLimit : ℕ → ℕ → Type 0
IsLimit largest limit = (0 < limit) × (limit * largest < int_bound)

-- What the algorithm needs of the configuration: such a buffer, and sorts that put the largest record,
-- or the one with the smallest id, first.
abbrev pub IsConfigured : ℕ → Algorithm → Type 0
IsConfigured largest (rewrite_no har overtaken) = Unit
IsConfigured largest (cfl_selective_deduplication cfg) = IsLimit largest cfg.limit
IsConfigured largest (capping cfg) = IsLimit largest cfg.limit × Sorts cfg

unmarked-check_pushed : (har : Har) (c : Chunk) → unmarked (check_pushed har c) ≡ unmarked c
unfolding har_check
unmarked-check_pushed har c = ground arith

unmarked-no_rewrite :
    (har : Har) (overtaken : ℕ → Bool) (n : ℕ) (input : List Chunk)
    → map unmarked (no_rewrite har overtaken n input) ≡ map unmarked input
unfolding no_rewrite
unmarked-no_rewrite har overtaken n [] = refl
unmarked-no_rewrite har overtaken n (c ∷ input) =
    let rest = unmarked-no_rewrite har overtaken (suc n) input in
    let first = unmarked-check_pushed har c in
    elim (Bool-cases (overtaken n)) [
      | inl early ↦ rw early (ap (λ l. unmarked c ∷ l) rest)
      | inr late ↦ rw late cc
    ]

-- Whatever the algorithm, on tidy chunks of at most `largest` bytes the phase overflows no counter, fails
-- no assertion and passes on every one in order, changed in its marks only.
pub rewrite_phase-stream :
    (largest : ℕ) (algorithm : Algorithm) (input : List Chunk)
    → IsConfigured largest algorithm
    → All IsTidy input
    → All (IsSmall largest) input
    → (out : List Chunk) × (rewrite_phase algorithm input ≡ some out)
      × (map unmarked out ≡ map unmarked input)
unfolding rewrite_phase
rewrite_phase-stream largest (rewrite_no har overtaken) input h t small =
    (no_rewrite har overtaken 0 input, refl, unmarked-no_rewrite har overtaken 0 input)
rewrite_phase-stream largest (cfl_selective_deduplication cfg) input h t small =
    cfl_rewrite-stream cfg largest input h.0 h.1 t small
rewrite_phase-stream largest (capping cfg) input h t small =
    cap_rewrite-stream cfg h.1 largest h.0.0 h.0.1 input t small
