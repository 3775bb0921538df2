-- ===== src/Rewrite/Cap/Stream.antt =====
-- The stream that cap_rewrite.c passes on, and the containers it keeps.
use destor_lt.Prelude.{
  ℕ, ◌*◌, ◌≤◌, ◌<◌, min, All-append, ◌≡◌, ◌≢◌, refl, sym, ap, ◌∙◌, true, false, none, some,
  Bool-cases, inl, inr, List, [], ◌∷◌, ◌++◌, map, map-append, arith, append_assoc, append-nil, All,
  length, lookup, sum_by,
}
use destor_lt.Chunk.{Chunk, is_signal}
use destor_lt.Rewrite.Records.{Records, int_bound}
use destor_lt.Rewrite.Buffer.Balance.{IsTidy, IsBalanced, init-IsBalanced, normal_one, share}
use destor_lt.Rewrite.Buffer.Moves.{IsSmall, room_for_small, rewrite_buffer_push-IsBalanced}
use destor_lt.Rewrite.Buffer.Pops.{har_mark}
use destor_lt.Rewrite.Drain.{unmarked, drain_all-settle, unmarked-settle}
use destor_lt.Rewrite.Cap.{
  Config, State, in_top, judge, judge_last, settle_buffer, cap_step, cap_loop, start, cap_rewrite,
}
use destor_lt.Rewrite.Cap.Top.{Sorts, cap_segment_get_top-Selected}

-- A duplicate that goes out without the mark has its container in `top`.
abbrev pub IsKept : Records → Chunk → Type 0
IsKept top c =
    is_signal c ≡ false
    → c.flag.duplicate ≡ true
    → c.flag.out_of_order ≡ false
    → in_top top c.id ≡ true

-- What a body of the loops may do: mark a chunk, and leave a duplicate unmarked only if its container
-- is in `top`.
pub record IsCapping (body : Records → Chunk → Chunk) : Type 0 where
  pub marks : (top : Records) (c : Chunk) → unmarked (body top c) ≡ unmarked c
  pub keeps : (top : Records) (c : Chunk) → IsKept top (body top c)

judge-IsCapping : IsCapping judge
unfolding judge
judge-IsCapping = record { marks = λ top c. ground arith; keeps = λ top c. λ a b d. ground arith }

judge_last-IsCapping : IsCapping judge_last
unfolding judge_last
judge_last-IsCapping = record {
  marks = λ top c. ground arith;
  keeps = λ top c. λ a b d. ground arith;
}

All-map :
    (P : Chunk → Type 0) (f : Chunk → Chunk)
    → ((c : Chunk) → P (f c))
    → (xs : List Chunk) → All P (map f xs)
All-map P f h [] = tt
All-map P f h (x ∷ xs) = (h x, All-map P f h xs)

-- A round of judgement: it sends the pending chunks, in order and up to the marks; it leaves
-- duplicates of as many containers unmarked as there are, up to the capping level, those that the
-- pending chunks refer to most.
pub record Settled (cfg : Config) (st st' : State) (top : Records) (sent : List Chunk)
    : Type 0 where
  pub output : st'.out ≡ st.out ++ sent
  pub passed : map unmarked sent ≡ map unmarked st.buffer.chunk_queue
  pub number : length top ≡ min cfg.rewrite_capping_level (length st.buffer.container_record_seq)
  pub kept : All (IsKept top) sent
  pub largest :
      (j k : ℕ)
      → lookup j top ≡ none
      → lookup k top ≢ none
      → sum_by (share j) st.buffer.chunk_queue ≤ sum_by (share k) st.buffer.chunk_queue
  pub balanced : IsBalanced st'.buffer
  pub empty : st'.buffer.chunk_queue ≡ []

module _ (cfg : Config) (sorts : Sorts cfg) where
  settle :
      (body : Records → Chunk → Chunk) (st : State)
      → IsCapping body
      → IsBalanced st.buffer
      → (st' : State) × (top : Records) × (sent : List Chunk) × (settle_buffer cfg body st
          ≡ some st')
        × Settled cfg st st' top sent
  unfolding settle_buffer
  settle body st k v =
      let (top, b, e, s) = cap_segment_get_top-Selected cfg st.buffer v sorts in
      let judged =
        λ (c : Chunk). λ (t : IsTidy c). refl {a = some (body top (har_mark cfg.har c))} in
      let (b', drained, v', empty) =
        drain_all-settle cfg.har (λ c. some (body top c)) (body top) judged b st.out s.balanced in
      let sent = map (λ c. body top (har_mark cfg.har c)) b.chunk_queue in
      (
        record { buffer = b'; out = st.out ++ sent },
        top,
        sent,
        ground (arith, e, drained),
        record {
          output = refl;
          passed =
              unmarked-settle cfg.har (λ c. some (body top c)) (body top) judged (k.marks top)
                b.chunk_queue
              ∙ ap (map unmarked) s.same_queue;
          number = s.number;
          kept =
              All-map (IsKept top) (λ c. body top (har_mark cfg.har c))
                (λ c. k.keeps top (har_mark cfg.har c)) b.chunk_queue;
          largest = s.largest;
          balanced = v';
          empty = empty;
        },
      )

  -- After the chunks `seen`: the output and the pending chunks are those, up to the marks.
  record Follows (largest : ℕ) (seen : List Chunk) (st : State) : Type 0 where
    balanced : IsBalanced st.buffer
    small : All (IsSmall largest) st.buffer.chunk_queue
    room : st.buffer.num < cfg.limit
    stream : map unmarked (st.out ++ st.buffer.chunk_queue) ≡ map unmarked seen

  map-pair :
      (xs ys zs : List Chunk)
      → map unmarked ys ≡ map unmarked zs
      → map unmarked (xs ++ ys) ≡ map unmarked (xs ++ zs)
  map-pair xs ys zs e =
      map-append unmarked xs ys ∙ ap (λ l. map unmarked xs ++ l) e ∙ sym (map-append unmarked xs zs)

  pushed-stream :
      (largest : ℕ) (seen queue' : List Chunk) (c : Chunk) (st : State)
      → Follows largest seen st
      → queue' ≡ st.buffer.chunk_queue ++ c ∷ []
      → map unmarked (st.out ++ queue') ≡ map unmarked (seen ++ c ∷ [])
  pushed-stream largest seen queue' c st f e =
      rw (e, ← append_assoc st.out st.buffer.chunk_queue (c ∷ []))
        (map-append unmarked (st.out ++ st.buffer.chunk_queue) (c ∷ [])
          ∙ ap (λ l. l ++ unmarked c ∷ []) f.stream
          ∙ sym (map-append unmarked seen (c ∷ [])))

  module _ (largest : ℕ) (positive : 0 < cfg.limit) (bound : cfg.limit * largest < int_bound) where
    step-Follows :
        (seen : List Chunk) (c : Chunk) (st : State)
        → IsTidy c
        → IsSmall largest c
        → Follows largest seen st
        → (st' : State) × (cap_step cfg c st ≡ some st') × Follows largest (seen ++ c ∷ []) st'
    unfolding cap_step
    step-Follows seen c st t h f =
        let (b, full, e, v, queue, is_full, full_le) =
          rewrite_buffer_push-IsBalanced cfg.limit c st.buffer t f.balanced f.room
            (room_for_small cfg.limit largest c st.buffer bound f.balanced f.room f.small h) in
        let pushed = pushed-stream largest seen b.chunk_queue c st f queue in
        elim (Bool-cases full) [
          | inl yes_full ↦
              let (st', top, sent, e', s) =
                settle judge (record st { buffer = b }) judge-IsCapping v in
              let none_left : st'.buffer.num ≡ 0 =
                s.balanced.counted ∙ ap (sum_by normal_one) s.empty in
              (
                st',
                ground (arith, e, e', yes_full),
                record {
                  balanced = s.balanced;
                  small = rw s.empty tt;
                  room = omega (arith, none_left);
                  stream =
                      rw (s.output, s.empty, append-nil (st.out ++ sent))
                        (map-pair st.out sent b.chunk_queue s.passed ∙ pushed);
                },
              )
          | inr not_full ↦ (
            record st { buffer = b },
            ground (arith, e, not_full),
            record {
              balanced = v;
              small =
                  rw queue
                    (All-append (IsSmall largest) st.buffer.chunk_queue (c ∷ []) f.small (h, tt));
              room = ground (arith, is_full, not_full, full_le);
              stream = pushed;
            },
          )
        ]

    loop-Follows :
        (input seen : List Chunk) (st : State)
        → All IsTidy input
        → All (IsSmall largest) input
        → Follows largest seen st
        → (st' : State) × (cap_loop cfg input st ≡ some st') × Follows largest (seen ++ input) st'
    unfolding cap_loop
    loop-Follows [] seen st t h f = (st, refl, rw (append-nil seen) f)
    loop-Follows (c ∷ input) seen st t h f =
        let (st₁, e₁, f₁) = step-Follows seen c st t.0 h.0 f in
        let (st₂, e₂, f₂) = loop-Follows input (seen ++ c ∷ []) st₁ t.1 h.1 f₁ in
        (st₂, rw (e₁, cap_loop) e₂, rw (append_assoc seen (c ∷ []) input) at f₂)

    -- With a buffer of at least one chunk, a sort by length that puts the largest first and a sort by id
    -- that puts the smallest id first, on every stream of tidy chunks of at most `largest` bytes, of which
    -- a full buffer stays below 2 ^ 31 bytes, the phase overflows no counter, fails no assertion, and
    -- passes on every chunk in its order, signals included, changed in nothing but the marks `sparse` and
    -- `out_of_order`.
    pub cap_rewrite-stream :
        (input : List Chunk)
        → All IsTidy input
        → All (IsSmall largest) input
        → (out : List Chunk) × (cap_rewrite cfg input ≡ some out)
          × (map unmarked out ≡ map unmarked input)
    unfolding cap_rewrite
    cap_rewrite-stream input t h =
        let begin : Follows largest [] start = record {
          balanced = init-IsBalanced;
          small = tt;
          room = positive;
          stream = refl;
        } in
        let (st₁, e₁, f₁) = loop-Follows input [] start t h begin in
        let (st₂, top, sent, e₂, s) = settle judge_last st₁ judge_last-IsCapping f₁.balanced in
        (
          st₂.out,
          ground (arith, e₁, e₂),
          rw s.output (map-pair st₁.out sent st₁.buffer.chunk_queue s.passed ∙ f₁.stream),
        )
