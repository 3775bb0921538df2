-- ===== src/Rewrite/Cfl/Stream.antt =====
-- The stream that cfl_rewrite.c passes on.
use destor_lt.Prelude.{
  ℕ, ◌*◌, ◌≤◌, ◌<◌, ◌≡◌, ◌⊎◌, refl, sym, ap, ◌∙◌, Bool, true, false, not, ◌&&◌, ◌||◌, none, some,
  Bool-cases, inl, inr, List, [], ◌∷◌, ◌++◌, map, map-append, arith, if◌then◌else◌, append_assoc,
  append-nil, All, All-append, ◌==◌, sum_by,
}
use destor_lt.Chunk.{Chunk, ContainerId, temporary_id, eq_id, is_signal}
use destor_lt.Rewrite.Har.{Har}
use destor_lt.Rewrite.Buffer.Balance.{IsTidy, IsBalanced, init-IsBalanced, normal_one}
use destor_lt.Rewrite.Buffer.Moves.{IsSmall, room_for_small, rewrite_buffer_push-IsBalanced}
use destor_lt.Rewrite.Records.{int_bound}
use destor_lt.Rewrite.Buffer.Pops.{har_mark}
use destor_lt.Rewrite.Har.{har_check}
use destor_lt.Rewrite.Drain.{unmarked, drain_all-settle, unmarked-settle}
use destor_lt.Rewrite.Cfl.{
  Config, State, low_usage, judge, settle_buffer, is_boundary, take_in, cfl_step, cfl_loop, start,
  cfl_rewrite,
}

-- The mark that `judge` sets on a tidy chunk.
abbrev mark : Bool → Chunk → Chunk
mark out_of_order c =
    if is_signal c
    then c
    else if out_of_order && not (eq_id c.id temporary_id)
    then record c { flag = record c.flag { out_of_order = true } }
    else c

judge-mark :
    (out_of_order : Bool) (har : Har) (c : Chunk) (id : ContainerId)
    → c.id ≡ id
    → IsTidy c
    → judge out_of_order (har_mark har c) ≡ some (mark out_of_order (har_mark har c))
unfolding judge har_mark har_check
judge-mark out_of_order har c none e t = ground arith
judge-mark out_of_order har c (some k) e t = ground arith

unmarked-mark : (out_of_order : Bool) (c : Chunk) → unmarked (mark out_of_order c) ≡ unmarked c
unmarked-mark out_of_order c = ground arith

-- A pending chunk has no container, or that of the last chunk.
abbrev pub IsOf : ContainerId → Chunk → Type 0
IsOf last c = (c.id ≡ temporary_id) ⊎ (c.id ≡ last)

-- After the chunks `seen`, the output and the pending chunks are those, up to the marks.
pub record Follows (cfg : Config) (largest : ℕ) (seen : List Chunk) (st : State) : Type 0 where
  pub balanced : IsBalanced st.buffer
  pub bounded : st.buffer.num ≤ cfg.limit
  pub small : All (IsSmall largest) st.buffer.chunk_queue
  pub full : st.buffer_full ≡ (st.buffer.num == cfg.limit)
  pub single : All (IsOf st.last_id) st.buffer.chunk_queue
  pub stream : map unmarked (st.out ++ st.buffer.chunk_queue) ≡ map unmarked seen

IsOf-inner :
    (last id : ContainerId) (full : Bool) (queue : List Chunk)
    → ((not (eq_id last temporary_id) && not (eq_id last id)) || full) ≡ false
    → All (IsOf last) queue
    → All (IsOf id) queue
IsOf-inner last id full [] h a = tt
IsOf-inner none id full (c ∷ queue) h a = (inl (ground arith), IsOf-inner none id full queue h a.1)
IsOf-inner (some k) none full (c ∷ queue) h a = cc
IsOf-inner (some k) (some j) full (c ∷ queue) h a =
    let same : k ≡ j = ground arith in
    (rw (← same) a.0, IsOf-inner (some k) (some j) full queue h a.1)

module _ (cfg : Config) (largest : ℕ) (positive : 0 < cfg.limit)
    (bound : cfg.limit * largest < int_bound) where
  settle-Follows :
      (seen : List Chunk) (st : State)
      → Follows cfg largest seen st
      → (st' : State) × (settle_buffer cfg st ≡ some st')
        × Follows cfg largest seen st'
        × (st'.buffer.chunk_queue ≡ [])
        × (st'.buffer.num ≡ 0)
        × (map unmarked st'.out ≡ map unmarked seen)
  unfolding settle_buffer
  settle-Follows seen st f =
      let ooo = low_usage cfg st.buffer in
      let (b, e, v, empty) =
        drain_all-settle cfg.har (judge ooo) (mark ooo)
          (λ c t. judge-mark ooo cfg.har c c.id refl t) st.buffer st.out f.balanced in
      let sent = map (λ c. mark ooo (har_mark cfg.har c)) st.buffer.chunk_queue in
      let none_left : b.num ≡ 0 = v.counted ∙ ap (sum_by normal_one) empty in
      let all_out : map unmarked (st.out ++ sent) ≡ map unmarked seen =
        map-append unmarked st.out sent
        ∙ ap (λ l. map unmarked st.out ++ l)
            (unmarked-settle cfg.har (judge ooo) (mark ooo)
              (λ c t. judge-mark ooo cfg.har c c.id refl t) (unmarked-mark ooo)
              st.buffer.chunk_queue)
        ∙ sym (map-append unmarked st.out st.buffer.chunk_queue)
        ∙ f.stream in
      (
        record st { buffer_full = false; buffer = b; out = st.out ++ sent },
        ground (arith, e),
        record {
          balanced = v;
          bounded = omega (arith, none_left);
          small = rw empty tt;
          full = ground (arith, none_left);
          single = rw empty tt;
          stream = rw (empty, append-nil) all_out;
        },
        empty,
        none_left,
        all_out,
      )

  take_in_room :
      (seen : List Chunk) (c : Chunk) (st : State)
      → IsTidy c
      → st.buffer_full ≡ false
      → IsSmall largest c
      → All (IsOf c.id) st.buffer.chunk_queue
      → Follows cfg largest seen st
      → (st' : State) × (take_in cfg c st ≡ some st') × Follows cfg largest (seen ++ c ∷ []) st'
  unfolding take_in
  take_in_room seen c st t room h ids f =
      let left : st.buffer.num < cfg.limit = ground (arith, f.full, f.bounded) in
      let (b, full, e, v, queue, is_full, full_le) =
        rewrite_buffer_push-IsBalanced cfg.limit c st.buffer t f.balanced left
          (room_for_small cfg.limit largest c st.buffer bound f.balanced left f.small h) in
      (
        record st { last_id = c.id; buffer = b; buffer_full = full || st.buffer_full },
        ground (arith, e),
        record {
          balanced = v;
          bounded = full_le;
          small =
              rw queue
                (All-append (IsSmall largest) st.buffer.chunk_queue (c ∷ []) f.small (h, tt));
          full = ground (arith, is_full, room);
          single =
              rw queue (All-append (IsOf c.id) st.buffer.chunk_queue (c ∷ []) ids (inr refl, tt));
          stream =
              rw (queue, ← append_assoc st.out st.buffer.chunk_queue (c ∷ []))
                (map-append unmarked (st.out ++ st.buffer.chunk_queue) (c ∷ [])
                  ∙ ap (λ l. l ++ unmarked c ∷ []) f.stream
                  ∙ sym (map-append unmarked seen (c ∷ [])));
        },
      )

  take_in-Follows :
      (seen : List Chunk) (c : Chunk) (st : State)
      → IsTidy c
      → IsSmall largest c
      → is_boundary st c ≡ false
      → Follows cfg largest seen st
      → (st' : State) × (take_in cfg c st ≡ some st') × Follows cfg largest (seen ++ c ∷ []) st'
  take_in-Follows seen c st t h inner f =
      take_in_room seen c st t (ground arith) h
        (IsOf-inner st.last_id c.id st.buffer_full st.buffer.chunk_queue inner f.single) f

  after_settle :
      (seen : List Chunk) (c : Chunk) (st : State)
      → IsTidy c
      → IsSmall largest c
      → Follows cfg largest seen st
      → st.buffer.chunk_queue ≡ []
      → st.buffer.num ≡ 0
      → (st' : State) × (take_in cfg c st ≡ some st') × Follows cfg largest (seen ++ c ∷ []) st'
  after_settle seen c st t h f empty none_left =
      take_in_room seen c st t (ground (arith, f.full)) h (rw empty tt) f

  step-Follows :
      (seen : List Chunk) (c : Chunk) (st : State)
      → IsTidy c
      → IsSmall largest c
      → Follows cfg largest seen st
      → (st' : State) × (cfl_step cfg c st ≡ some st') × Follows cfg largest (seen ++ c ∷ []) st'
  unfolding cfl_step
  step-Follows seen c st t h f = elim (Bool-cases (is_boundary st c)) [
    | inl boundary ↦
        let (st₁, e₁, f₁, empty, none_left, _) = settle-Follows seen st f in
        let (st₂, e₂, f₂) = after_settle seen c st₁ t h f₁ empty none_left in
        (st₂, ground (arith, e₁, e₂, boundary), f₂)
    | inr inner ↦
        let (st₂, e₂, f₂) = take_in-Follows seen c st t h inner f in
        (st₂, ground (arith, e₂, inner), f₂)
  ]

  loop-Follows :
      (input seen : List Chunk) (st : State)
      → All IsTidy input
      → All (IsSmall largest) input
      → Follows cfg largest seen st
      → (st' : State) × (cfl_loop cfg input st ≡ some st') × Follows cfg largest (seen ++ input) st'
  unfolding cfl_loop
  loop-Follows [] seen st t h f = (st, refl, rw (append-nil seen) f)
  loop-Follows (c ∷ input) seen st t h f =
      let (st₁, e₁, f₁) = step-Follows seen c st t.0 h.0 f in
      let (st₂, e₂, f₂) = loop-Follows input (seen ++ c ∷ []) st₁ t.1 h.1 f₁ in
      (st₂, rw (e₁, cfl_loop) e₂, rw (append_assoc seen (c ∷ []) input) at f₂)

  start-Follows : Follows cfg largest [] start
  start-Follows = record {
    balanced = init-IsBalanced;
    bounded = omega arith;
    small = tt;
    full = ground arith;
    single = tt;
    stream = refl;
  }

-- With a buffer of at least one chunk, on every stream of tidy chunks of at most `largest` bytes, of
-- which a full buffer stays below 2 ^ 31 bytes, the phase overflows no counter, fails no assertion, and
-- passes on every chunk in its order, signals included, changed in nothing but the marks `sparse` and
-- `out_of_order`.
pub cfl_rewrite-stream :
    (cfg : Config) (largest : ℕ) (input : List Chunk)
    → 0 < cfg.limit
    → cfg.limit * largest < int_bound
    → All IsTidy input
    → All (IsSmall largest) input
    → (out : List Chunk) × (cfl_rewrite cfg input ≡ some out)
      × (map unmarked out ≡ map unmarked input)
unfolding cfl_rewrite
cfl_rewrite-stream cfg largest input positive bound t h =
    let (st₁, e₁, f₁) =
      loop-Follows cfg largest positive bound input [] start t h
        (start-Follows cfg largest positive bound) in
    let (st₂, e₂, _, _, _, stream) = settle-Follows cfg largest positive bound input st₁ f₁ in
    (st₂.out, ground (arith, e₁, e₂), stream)

-- With a buffer of at least one chunk, after any stream of tidy chunks of at most `largest` bytes, of
-- which a full buffer stays below 2 ^ 31 bytes, the loop has failed no assertion, the buffer holds at most `limit` chunks of files, `buffer_full` says whether it holds that
-- many, and the pending chunks that have a container all have the last chunk's.
pub cfl_loop-buffer :
    (cfg : Config) (largest : ℕ) (input : List Chunk)
    → 0 < cfg.limit
    → cfg.limit * largest < int_bound
    → All IsTidy input
    → All (IsSmall largest) input
    → (st : State) × (cfl_loop cfg input start ≡ some st)
      × (st.buffer.num ≤ cfg.limit)
      × (st.buffer_full ≡ (st.buffer.num == cfg.limit))
      × All (IsOf st.last_id) st.buffer.chunk_queue
cfl_loop-buffer cfg largest input positive bound t h =
    let (st, e, f) =
      loop-Follows cfg largest positive bound input [] start t h
        (start-Follows cfg largest positive bound) in
    (st, e, f.bounded, f.full, f.single)
