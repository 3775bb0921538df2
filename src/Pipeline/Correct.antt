-- ===== src/Pipeline/Correct.antt =====
-- What filter_phase.c makes of the segments of a backup.
use destor_lt.Prelude.{
  ℕ, ◌≡◌, arith, true, false, ◌&&◌, Option, none, some, List, ◌∷◌, length, All, ℤ, Bool-cases, inl,
  inr,
}
use destor_lt.Chunk.{Chunk}
use destor_lt.Storage.Container.{Container, container_empty}
use destor_lt.Index.{IndexBuffer, queue_of, reaches}
use destor_lt.Index.Behind.{Backend}
use destor_lt.Index.Counts.{count, total}
use destor_lt.Judge.{Config, Filter, filter_segment, finish_container, finish_filter}
use destor_lt.Judge.Located.{located, containers_of, IsOpen}
use destor_lt.Judge.Room.{all_of, handed-keeps}
use destor_lt.Judge.Loop.{AllKept, IsNamed}
use destor_lt.Pipeline.Promises.{Promises}
use destor_lt.Pipeline.Runs.{System, chunks_of, looked_up, filtered, Step, Reach}
use destor_lt.Pipeline.Consistent.{
  IsConsistent, first_system-IsConsistent, filters-IsConsistent, outcome, Reach-IsConsistent,
}
use destor_lt.Pipeline.Marked.{first_system}

module _ {σ : Type 0} (backend : Backend σ) (promises : Promises backend)
    (sampling : List ℕ → List ℕ) (cfg : Config) (start : ℕ) (wait restore_cache : ℤ)
    (written : List Container) (container_count : ℕ) (behind : σ) where
  -- The states of a backup's runs.
  abbrev pub Reached : System σ → Type 0
  Reached =
      Reach backend sampling cfg start wait
        (first_system written container_count behind restore_cache)

  consistent :
      (st : System σ)
      → (cfg.exact && cfg.rewrite_no) ≡ false
      → promises.IsSound written behind
      → Reached st
      → IsConsistent backend promises sampling cfg start wait st
  consistent st plain sound r =
      Reach-IsConsistent backend promises sampling cfg start wait plain
        (first_system-IsConsistent backend promises sampling cfg start wait written container_count
          behind restore_cache sound)
        r

  -- Where the caches behind the index give only ids of containers that hold the fingerprint, and
  -- deduplication is near-exact or rewrites chunks: in every run of the lookups of segments, the marks
  -- of the rewriting phase and the filtering, in which each chunk of a file comes to its lookup new
  -- (without an id, not marked duplicate) and has at most 4,161,536 bytes, the filter phase takes the oldest segment without a failed
  -- assertion, a missing queue or a crash, keeps its chunks in their order, and gives each chunk of a file
  -- the id of a container, buffered or handed over, that holds its fingerprint.
  pub filter_segment-reached :
      (st : System σ) (s : List Chunk) (rest : List (List Chunk))
      → (cfg.exact && cfg.rewrite_no) ≡ false
      → promises.IsSound written behind
      → Reached st
      → st.pending ≡ s ∷ rest
      → (s' : List Chunk) × (b : IndexBuffer) × (f : Filter σ) × (filter_segment backend sampling
            cfg wait s st.buffer st.filter
          ≡ some (s', b, reaches b.chunk_num wait, f))
        × AllKept s s'
        × All (IsNamed (all_of f)) s'
  filter_segment-reached st s rest plain sound r e =
      let (s', b, f, gives, t, _) =
        filters-IsConsistent backend promises sampling cfg start wait st s rest plain
          (consistent st plain sound r) e in
      (s', b, f, gives, t.kept, t.named)

  -- In the same runs the index buffer counts the chunks of files that are looked up and not filtered
  -- yet, and has as many elements for each fingerprint as there are such chunks with it.
  pub index_buffer-reached :
      (st : System σ)
      → (cfg.exact && cfg.rewrite_no) ≡ false
      → promises.IsSound written behind
      → Reached st
      → (st.buffer.chunk_num ≡ total (chunks_of st.pending))
        × ((fp : ℕ) → length (queue_of fp st.buffer) ≡ count fp (chunks_of st.pending))
  index_buffer-reached st plain sound r =
      let k = consistent st plain sound r in (k.buffered.all_counted, k.buffered.counted)

  Step-keeps :
      {st st' : System σ}
      → (cfg.exact && cfg.rewrite_no) ≡ false
      → IsConsistent backend promises sampling cfg start wait st
      → Step backend sampling cfg start wait st st'
      → (id fp : ℕ) → located id fp (all_of st.filter) ≡ true
      → located id fp (all_of st'.filter) ≡ true
  unfolding looked_up filtered
  Step-keeps plain k (Step.looks_up st s s' ix inputs room e) id fp l = l
  Step-keeps plain k (Step.rewrites st p m) id fp l = l
  Step-keeps plain k (Step.filters st s s' rest b full f pending e) id fp l =
      (outcome backend promises sampling cfg start wait st s s' rest b full f plain k pending
          e).0.keeps
        id fp l

  finish_container-keeps :
      (o : Option Container) (f : Filter σ) (id fp : ℕ)
      → IsOpen o
      → located id fp (containers_of o f.written) ≡ true
      → located id fp (finish_container backend sampling cfg o f).written ≡ true
  unfolding finish_container located
  finish_container-keeps none f id fp o l = l
  finish_container-keeps (some c) f id fp o l = elim (Bool-cases (container_empty c)) [
    | inl empty ↦ rw (empty) (ground (arith, l, o.empty empty fp))
    | inr full ↦ rw (full) (handed-keeps backend sampling cfg c f o id fp l)
  ]

  finish-keeps :
      (f : Filter σ) (id fp : ℕ)
      → IsOpen f.container_buffer
      → located id fp (all_of f) ≡ true
      → located id fp (finish_filter backend sampling cfg f).written ≡ true
  unfolding finish_filter
  finish-keeps f id fp o l = finish_container-keeps f.container_buffer f id fp o l

  reach-keeps :
      {st st' : System σ}
      → (cfg.exact && cfg.rewrite_no) ≡ false
      → IsConsistent backend promises sampling cfg start wait st
      → Reach backend sampling cfg start wait st st'
      → (id fp : ℕ) → located id fp (all_of st.filter) ≡ true
      → located id fp (all_of st'.filter) ≡ true
  reach-keeps plain k Reach.at_start id fp l = l
  reach-keeps plain k (Reach.steps r s) id fp l =
      Step-keeps plain (Reach-IsConsistent backend promises sampling cfg start wait plain k r) s id
        fp (reach-keeps plain k r id fp l)

  -- In the same runs, once a container holds a fingerprint under its id, it does so whatever steps
  -- follow, and when the filter phase finishes, it is among those that were handed over to be written.
  pub finish_filter-reached :
      (st st' : System σ) (id fp : ℕ)
      → (cfg.exact && cfg.rewrite_no) ≡ false
      → promises.IsSound written behind
      → Reached st
      → Reach backend sampling cfg start wait st st'
      → located id fp (all_of st.filter) ≡ true
      → located id fp (finish_filter backend sampling cfg st'.filter).written ≡ true
  finish_filter-reached st st' id fp plain sound r r' l =
      let k = consistent st plain sound r in
      finish-keeps st'.filter id fp
        (Reach-IsConsistent backend promises sampling cfg start wait plain k r').opened
        (reach-keeps plain k r' id fp l)
