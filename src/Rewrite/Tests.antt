-- ===== src/Rewrite/Tests.antt =====
-- The rewrite phase at concrete streams of chunks.
use destor_lt.Prelude.{
  ℕ, ◌+◌, ◌≡◌, ◌≤◌, refl, Bool, true, false, none, some, List, [], ◌∷◌, map, arith, All, ◌==◌,
  lookup, insert, remove,
}
use destor_lt.Chunk.{Chunk, no_flags, temporary_id}
use destor_lt.Rewrite.Records.{insert_sorted, is_ascending, g_sequence_lookup}
use destor_lt.Rewrite.Har.{Har, har_check}
use destor_lt.Rewrite.Buffer.{
  RewriteBuffer, count_in, fits_in, count_chunk, rewrite_buffer_push, count_out, release_chunk,
  rewrite_buffer_pop, rewrite_buffer_top,
}
use destor_lt.Rewrite.Buffer.Balance.{IsBalanced, normal_one, IsTidy}
use destor_lt.Rewrite.Buffer.Moves.{IsSmall, rewrite_buffer_push-IsBalanced}
use destor_lt.Rewrite.Buffer.Pops.{rewrite_buffer_pop-IsBalanced, har_mark}
use destor_lt.Rewrite.Drain.{drain, unmarked}
use destor_lt.Rewrite.Cfl.{Config, judge, settle_buffer, take_in, cfl_step, cfl_loop, cfl_rewrite}
use destor_lt.Rewrite.Cfl.Stream.{cfl_rewrite-stream}

program : Unit {0}
unfolding lookup insert remove insert_sorted is_ascending g_sequence_lookup fits_in har_check
    count_in count_chunk rewrite_buffer_push count_out release_chunk rewrite_buffer_pop
    rewrite_buffer_top drain judge settle_buffer take_in cfl_step cfl_loop cfl_rewrite
program = tt

abbrev har : Har
har = record { enabled = true; inherited_sparse_containers = (5, 1) ∷ [] }

abbrev cfg : Config
cfg = record { limit = 3; usage_num = 7; usage_den = 10; har = har }

abbrev unique : Chunk
unique = record { size = 10; flag = no_flags; id = temporary_id; fp = 1; bytes = [] }

abbrev duplicate : ℕ → Chunk
duplicate cid = record {
  size = 20;
  flag = record no_flags { duplicate = true };
  id = some cid;
  fp = 2;
  bytes = [];
}

abbrev file_start : Chunk
file_start = record {
  size = 4;
  flag = record no_flags { file_start = true };
  id = temporary_id;
  fp = 0;
  bytes = [];
}

abbrev marked : ℕ → Bool → Chunk
marked cid sparse = record (duplicate cid) {
  flag = record no_flags { duplicate = true; sparse = sparse; out_of_order = true };
}

abbrev stream : List Chunk
stream = file_start ∷ unique ∷ duplicate 5 ∷ duplicate 6 ∷ []

fragments :
    cfl_rewrite cfg stream ≡ some (file_start ∷ unique ∷ marked 5 true ∷ marked 6 false ∷ [])
unfolding program
fragments = refl

-- A chunk with a container that is not marked duplicate fails the assertion.
undeclared : cfl_rewrite cfg (record unique { id = some 5 } ∷ []) ≡ none
unfolding program
undeclared = refl

duplicate-IsTidy : IsTidy (duplicate 5)
duplicate-IsTidy = ((omega arith, omega arith), refl)

abbrev one_pending : RewriteBuffer
one_pending = record {
  chunk_queue = duplicate 5 ∷ [];
  container_record_seq = (5, record { size = 20; out_of_order = true }) ∷ [];
  num = 1;
  size = 20;
}

first_pending : rewrite_buffer_top one_pending ≡ some (duplicate 5)
unfolding program
first_pending = refl

pending-IsBalanced : IsBalanced one_pending
unfolding lookup is_ascending
pending-IsBalanced = record {
  tidy = (duplicate-IsTidy, tt);
  counted = refl;
  sized = refl;
  distinct = (refl, tt);
  ascending = refl;
  records = λ cid. ground arith;
}

rewrite_buffer_push-IsBalanced_example :
    (b' : RewriteBuffer) × (full : Bool) × (rewrite_buffer_push 2 (duplicate 5) one_pending
      ≡ some (b', full))
    × IsBalanced b'
    × (b'.chunk_queue ≡ duplicate 5 ∷ duplicate 5 ∷ [])
    × (full ≡ (b'.num == 2))
    × (b'.num ≤ 2)
rewrite_buffer_push-IsBalanced_example =
    rewrite_buffer_push-IsBalanced 2 (duplicate 5) one_pending duplicate-IsTidy pending-IsBalanced
      (omega arith) (omega arith)

rewrite_buffer_pop-IsBalanced_example :
    (b' : RewriteBuffer) × (rewrite_buffer_pop har one_pending
      ≡ some (b', some (har_mark har (duplicate 5))))
    × IsBalanced b'
    × (b'.chunk_queue ≡ [])
    × (b'.num + normal_one (duplicate 5) ≡ 1)
rewrite_buffer_pop-IsBalanced_example =
    rewrite_buffer_pop-IsBalanced har one_pending (duplicate 5) [] pending-IsBalanced refl

stream-IsTidy : All IsTidy stream
stream-IsTidy =
    (tt, (((omega arith, tt), tt), (duplicate-IsTidy, (((omega arith, omega arith), refl), tt))))

stream-IsSmall : All (IsSmall 20) stream
stream-IsSmall = (omega arith, (omega arith, (omega arith, (omega arith, tt))))

cfl_rewrite-stream_example :
    (out : List Chunk) × (cfl_rewrite cfg stream ≡ some out)
    × (map unmarked out ≡ map unmarked stream)
cfl_rewrite-stream_example =
    cfl_rewrite-stream cfg 20 stream (omega arith) (omega arith) stream-IsTidy stream-IsSmall
