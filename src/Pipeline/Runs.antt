-- ===== src/Pipeline/Runs.antt =====
-- The runs of the deduplication phase, the rewriting phase and the filter phase side by side, with the
-- index lock: `dedup_thread` of dedup_phase.c and `filter_thread` of filter_phase.c.
use destor_lt.Prelude.{ℕ, ◌≡◌, Bool, false, some, List, [], ◌∷◌, ◌++◌, All, ℤ}
use destor_lt.Chunk.{Chunk}
use destor_lt.Gc.{Marks}
use destor_lt.Index.{Index, IndexBuffer, is_full, index_lookup_base}
use destor_lt.Index.Behind.{Backend}
use destor_lt.Judge.{Config, Filter, filter_segment}
use destor_lt.Judge.Settled.{Kept}
use destor_lt.Pipeline.Deduplicated.{IsInput}

-- `pending` are the segments that were looked up and not filtered yet, the oldest first.
pub record System (σ : Type 0) : Type 0 where
  pub pending : List (List Chunk)
  pub buffer : IndexBuffer
  pub marks : Marks
  pub lookup_requests : ℕ
  pub lookup_requests_for_unique : ℕ
  pub filter : Filter σ

-- The rewriting phase changes flags of a chunk, and neither its fingerprint nor its id.
pub record Marked (c c' : Chunk) : Type 0 where
  pub kept : Kept c c'
  pub id : c'.id ≡ c.id

pub data AllMarked : List Chunk → List Chunk → Type 0 where
  marked_nil : AllMarked [] []
  marked_cons :
      {c d : Chunk} {cs ds : List Chunk}
      → Marked c d
      → AllMarked cs ds
      → AllMarked (c ∷ cs) (d ∷ ds)

pub data SegmentsMarked : List (List Chunk) → List (List Chunk) → Type 0 where
  no_segments : SegmentsMarked [] []
  more_segments :
      {s t : List Chunk} {ss ts : List (List Chunk)}
      → AllMarked s t
      → SegmentsMarked ss ts
      → SegmentsMarked (s ∷ ss) (t ∷ ts)

unfoldable pub chunks_of : List (List Chunk) → List Chunk
chunks_of [] = []
chunks_of (s ∷ ss) = s ++ chunks_of ss

module _ {σ : Type 0} where
  unfoldable pub index_of : System σ → Index σ
  index_of st = record {
    buffer = st.buffer;
    behind = st.filter.behind;
    marks = st.marks;
    lookup_requests = st.lookup_requests;
    lookup_requests_for_unique = st.lookup_requests_for_unique;
  }

  -- Behind the lookup of a segment.
  unfoldable pub looked_up : System σ → List Chunk → Index σ → System σ
  looked_up st s ix = record {
    pending = st.pending ++ s ∷ [];
    buffer = ix.buffer;
    marks = ix.marks;
    lookup_requests = ix.lookup_requests;
    lookup_requests_for_unique = ix.lookup_requests_for_unique;
    filter = record st.filter { behind = ix.behind };
  }

  unfoldable pub filtered : System σ → List (List Chunk) → IndexBuffer → Filter σ → System σ
  filtered st rest b f = record st { pending = rest; buffer = b; filter = f }

module _ {σ : Type 0} (backend : Backend σ) (sampling : List ℕ → List ℕ) (cfg : Config) (start : ℕ)
    (wait : ℤ) where
  -- A step holds the index lock: the lookup of a segment, which waits while the buffer is full; marks of
  -- the rewriting phase; and the filtering of the oldest segment.
  pub data Step : System σ → System σ → Type 0 where
    looks_up :
        (st : System σ) (s s' : List Chunk) (ix : Index σ)
        → All IsInput s
        → is_full wait st.buffer ≡ false
        → index_lookup_base backend start st.filter.container_buffer s (index_of st) ≡ some (s', ix)
        → Step st (looked_up st s' ix)
    rewrites :
        (st : System σ) (p : List (List Chunk))
        → SegmentsMarked st.pending p
        → Step st (record st { pending = p })
    filters :
        (st : System σ) (s s' : List Chunk) (rest : List (List Chunk)) (b : IndexBuffer)
        (full : Bool) (f : Filter σ)
        → st.pending ≡ s ∷ rest
        → filter_segment backend sampling cfg wait s st.buffer st.filter ≡ some (s', b, full, f)
        → Step st (filtered st rest b f)

  pub data Reach (from : System σ) : System σ → Type 0 where
    at_start : Reach from from
    steps : {st st' : System σ} → Reach from st → Step st st' → Reach from st'
