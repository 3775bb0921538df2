-- ===== src/Judge.antt =====
-- The loop of destor-master/src/filter_phase.c that decides which chunks of a segment are written, and
-- the buffered container that it writes them to.
pub mod Located
pub mod Room
pub mod Placed
pub mod Settled
pub mod Step
pub mod Loop
use destor_lt.Prelude.{
  ℕ, ◌+◌, ◌-◌, ◌*◌, Bool, true, false, not, ◌&&◌, ◌||◌, Option, none, some, List, [], ◌∷◌, ◌++◌,
  ltb, ◌==◌, length, ℤ, if◌then◌else◌, lookup, insert,
}
use destor_lt.Chunk.{Chunk, ContainerId, is_file_signal}
use destor_lt.Storage.Container.{
  Container, create_container, container_empty, container_overflow, add_chunk_to_container,
}
use destor_lt.RestoreAware.{
  Monitor, restore_aware_contains, restore_aware_get_cfl, restore_aware_update,
}
use destor_lt.Index.{IndexBuffer, is_temporary, index_check_buffer, index_update_buffer}
use destor_lt.Index.Behind.{Backend}

-- The configuration; `cfl_num / cfl_den` is `rewrite_cfl_require`.
pub record Config : Type 0 where
  pub rewrite_enable_cache_aware : Bool
  pub rewrite_enable_cfl_switch : Bool
  pub cfl_num : ℕ
  pub cfl_den : ℕ
  pub physical_locality : Bool
  pub exact : Bool
  pub rewrite_no : Bool
  pub simulation_level : ℕ

-- `container_buffer` and `chunks` are those of `storage_buffer`, of a chunk its fingerprint; `written`
-- are the containers that were handed over to be written, the latest first. The tables of the chunks of
-- the segment that were written map fingerprints to ids. `har_calls` are the calls of
-- `har_monitor_update`, the latest first.
pub record Filter (σ : Type 0) : Type 0 where
  pub container_buffer : Option Container
  pub chunks : List ℕ
  pub container_count : ℕ
  pub written : List Container
  pub behind : σ
  pub recently_unique_chunks : List (ℕ × ContainerId)
  pub recently_rewritten_chunks : List (ℕ × ContainerId)
  pub enable_rewrite : Bool
  pub monitor : Monitor
  pub har_calls : List (ℕ × ℕ)
  pub unique_chunk_num : ℕ
  pub unique_data_size : ℕ
  pub rewritten_chunk_num : ℕ
  pub rewritten_chunk_size : ℕ

-- A table of written chunks is asked; `none` is that the chunk is not there.
abbrev pub recent : ℕ → List (ℕ × ContainerId) → Option ContainerId
recent fp table = lookup fp table

abbrev pub is_cached : Config → Monitor → ContainerId → Bool
is_cached cfg m none = false
is_cached cfg m (some id) = cfg.rewrite_enable_cache_aware && restore_aware_contains m id

unfoldable pub flag_cached : Config → Monitor → Chunk → Chunk
flag_cached cfg m c =
    if is_cached cfg m c.id then record c { flag = record c.flag { in_cache = true } } else c

-- The switch goes off above the required cfl and on below it.
unfoldable pub switch_rewrite : Config → Monitor → Bool → Bool
switch_rewrite cfg m enable_rewrite =
    let (num, den) = restore_aware_get_cfl m in
    if cfg.rewrite_enable_cfl_switch
    then (if enable_rewrite && ltb (cfg.cfl_num * den) (num * cfg.cfl_den)
        then false
        else if not enable_rewrite && ltb (num * cfg.cfl_den) (cfg.cfl_num * den)
        then true
        else enable_rewrite)
    else enable_rewrite

-- A copy of a unique chunk of this segment; `none` is the failed assertion that it is there.
unfoldable pub settle_copy : List (ℕ × ContainerId) → Chunk → Option Chunk
settle_copy table c =
    if c.flag.duplicate && is_temporary c.id
    then (elim (lookup c.fp table) [ none ↦ none | some id ↦ some (record c { id = id }) ])
    else some c

-- A copy of a chunk of this segment that was rewritten.
unfoldable pub deny_for : Option ContainerId → Chunk → Chunk
deny_for none c = c
deny_for (some id) c = record c { id = id; flag = record c.flag { rewrite_denied = true } }

unfoldable pub deny_rewritten : List (ℕ × ContainerId) → Chunk → Chunk
deny_rewritten table c = deny_for (lookup c.fp table) c

-- Whether the chunk is written: it is unique, or fragmented and not denied.
unfoldable pub is_written : Bool → Chunk → Bool
is_written enable_rewrite c =
    not c.flag.duplicate
    || (not c.flag.rewrite_denied
        && (c.flag.sparse || (enable_rewrite && (c.flag.out_of_order && not c.flag.in_cache))))

module _ {σ : Type 0} (backend : Backend σ) (sampling : List ℕ → List ℕ) (cfg : Config) where
  unfoldable pub index_update : List ℕ → ContainerId → σ → σ
  index_update [] id behind = behind
  index_update (feature ∷ features) id behind =
      index_update features id (backend.kvstore_update feature id behind)

  -- With physical locality the sampled fingerprints of the container go to the index.
  unfoldable pub index_container : Container → Filter σ → Filter σ
  index_container container f =
      if cfg.physical_locality
      then record f {
        behind = index_update (sampling f.chunks) container.meta.id f.behind;
        chunks = [];
      }
      else f

  -- `write_container_async` behind its assertion: an empty container gives its id back.
  unfoldable pub hand_over : Container → Filter σ → Filter σ
  hand_over container f =
      if container_empty container
      then record f { container_count = f.container_count - 1 }
      else record f {
        behind = backend.write_container_async container f.behind;
        written = container ∷ f.written;
      }

  unfoldable pub open_container : Filter σ → Container × Filter σ
  open_container f =
      let (container, count) = create_container f.container_count in
      (container, record f { container_buffer = some container; container_count = count })

  unfoldable pub current_container : Option Container → Filter σ → Container × Filter σ
  current_container none f =
      open_container (if cfg.physical_locality then record f { chunks = [] } else f)
  current_container (some container) f = (container, f)

  -- Where the chunk does not fit, the container is handed over for a new one.
  unfoldable pub make_room : ℕ → Container × Filter σ → Container × Filter σ
  make_room size (container, f) =
      if container_overflow container size
      then open_container (hand_over container (index_container container f))
      else (container, f)

  -- The container that the chunk goes to.
  unfoldable pub take_container : ℕ → Filter σ → Container × Filter σ
  take_container size f = make_room size (current_container f.container_buffer f)

  -- What a chunk that was added leaves in the counters and the tables.
  unfoldable pub count_added : Chunk → Filter σ → Filter σ
  count_added c f =
      let g = if cfg.physical_locality then record f { chunks = f.chunks ++ c.fp ∷ [] } else f in
      if c.flag.duplicate
      then record g {
        rewritten_chunk_num = g.rewritten_chunk_num + 1;
        rewritten_chunk_size = g.rewritten_chunk_size + c.size;
        recently_rewritten_chunks = insert c.fp c.id g.recently_rewritten_chunks;
      }
      else record g {
        unique_chunk_num = g.unique_chunk_num + 1;
        unique_data_size = g.unique_data_size + c.size;
        recently_unique_chunks = insert c.fp c.id g.recently_unique_chunks;
      }

  -- The outcome of `add_chunk_to_container`; `none` is a failed assertion: of that function, or that a
  -- container that has the chunk is met only in near-exact deduplication or where chunks are rewritten.
  unfoldable pub take_added :
      Filter σ → Option (Container × Chunk × Bool) → Option (Chunk × Filter σ)
  take_added f none = none
  take_added f (some (container, c, true)) =
      some (c, count_added c (record f { container_buffer = some container }))
  take_added f (some (container, c, false)) =
      if cfg.exact && cfg.rewrite_no
      then none
      else some (c, record f { container_buffer = some container })

  unfoldable pub put_chunk : Chunk → Container × Filter σ → Option (Chunk × Filter σ)
  put_chunk c (container, f) =
      take_added f (add_chunk_to_container cfg.simulation_level container c)

  -- The assertion of `write_container_async` on an open container that the chunk does not fit in.
  unfoldable pub is_writable : ℕ → Option Container → Bool
  is_writable size none = true
  is_writable size (some container) =
      not (container_overflow container size)
      || (container.meta.chunk_num == length container.meta.map)

  -- `none` is a failed assertion, of `write_container_async` or of what adds the chunk.
  unfoldable pub store_chunk : Chunk → Filter σ → Option (Chunk × Filter σ)
  store_chunk c f =
      if is_writable c.size f.container_buffer then put_chunk c (take_container c.size f) else none

  -- The calls of the monitors; `none` is the failed assertion of a chunk without an id, or a crash.
  unfoldable pub monitor_id : Option ℕ → Chunk → Filter σ → Option (Chunk × Filter σ)
  monitor_id none c f = none
  monitor_id (some id) c f = elim (restore_aware_update f.monitor id c.size) [
    | none ↦ none
    | some monitor ↦
        some (c, record f { monitor = monitor; har_calls = (id, c.size) ∷ f.har_calls })
  ]

  unfoldable pub monitor_stored : Option (Chunk × Filter σ) → Option (Chunk × Filter σ)
  monitor_stored none = none
  monitor_stored (some (c, f)) = monitor_id c.id c f

  unfoldable pub judge_settled : Option Chunk → Filter σ → Option (Chunk × Filter σ)
  judge_settled none f = none
  judge_settled (some c) f =
      let c' = deny_rewritten f.recently_rewritten_chunks c in
      if is_written f.enable_rewrite c'
      then monitor_stored (store_chunk c' f)
      else monitor_stored (some (c', f))

  unfoldable pub judge_chunk : Chunk → Filter σ → Option (Chunk × Filter σ)
  judge_chunk c f =
      if is_file_signal c
      then some (c, f)
      else judge_settled (settle_copy f.recently_unique_chunks (flag_cached cfg f.monitor c))
          (record f { enable_rewrite = switch_rewrite cfg f.monitor f.enable_rewrite })

  unfoldable pub judge_chunks : List Chunk → Filter σ → Option (List Chunk × Filter σ)
  judge_chunks [] f = some ([], f)
  judge_chunks (c ∷ cs) f = elim (judge_chunk c f) [
    | none ↦ none
    | some (c', f') ↦ elim (judge_chunks cs f') [
      | none ↦ none
      | some (cs', f'') ↦ some (c' ∷ cs', f'')
    ]
  ]

  -- A segment: the check of the buffer, the loop with fresh tables, and the update of the buffer.
  unfoldable pub filter_segment :
      ℤ → List Chunk → IndexBuffer → Filter σ → Option (List Chunk × IndexBuffer × Bool × Filter σ)
  filter_segment wait_threshold s b f = elim (index_check_buffer b s) [
    | none ↦ none
    | some s₁ ↦
        elim (judge_chunks s₁
          (record f { recently_unique_chunks = []; recently_rewritten_chunks = [] })) [
            | none ↦ none
            | some (s₂, f') ↦ elim (index_update_buffer wait_threshold s₂ b) [
              | none ↦ none
              | some (b', full) ↦ some (s₂, b', full, f')
            ]
          ]
  ]

  -- The end of the phase: the buffered container, unless it is empty.
  unfoldable pub finish_container : Option Container → Filter σ → Filter σ
  finish_container none f = f
  finish_container (some container) f =
      if container_empty container then f else hand_over container (index_container container f)

  unfoldable pub finish_filter : Filter σ → Filter σ
  finish_filter f = finish_container f.container_buffer f
