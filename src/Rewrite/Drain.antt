-- ===== src/Rewrite/Drain.antt =====
-- The loops that empty the rewrite buffer, in cfl_rewrite.c and cap_rewrite.c.
use destor_lt.Prelude.{
  ℕ, zero, suc, ◌<◌, ◌≡◌, refl, ap, ◌∙◌, false, Option, none, some, List, [], ◌∷◌, ◌++◌, map, arith,
  length, append_assoc, append-nil, All,
}
use destor_lt.Chunk.{Chunk}
use destor_lt.Rewrite.Har.{Har, har_check}
use destor_lt.Rewrite.Buffer.{RewriteBuffer, rewrite_buffer_pop}
use destor_lt.Rewrite.Buffer.Balance.{IsTidy, IsBalanced}
use destor_lt.Rewrite.Buffer.Pops.{har_mark, rewrite_buffer_pop-IsBalanced}

-- `while ((c = rewrite_buffer_pop()))` with a body `judge` that may mark the chunk or fail an
-- assertion, and pushes it to the rewrite queue, here the end of `out`. One round of fuel is used for
-- each pending chunk and one for the NULL that ends the loop; `none` is a failed assertion, or that
-- the fuel ran out.
unfoldable pub drain :
    Har
    → (Chunk → Option Chunk)
    → ℕ
    → RewriteBuffer
    → List Chunk
    → Option (RewriteBuffer × List Chunk)
drain har judge zero b out = none
drain har judge (suc fuel) b out = elim (rewrite_buffer_pop har b) [
  | none ↦ none
  | some (b', none) ↦ some (b', out)
  | some (b', some c) ↦ elim (judge c) [
    | none ↦ none
    | some c' ↦ drain har judge fuel b' (out ++ c' ∷ [])
  ]
]

abbrev pub drain_all :
    Har → (Chunk → Option Chunk) → RewriteBuffer → List Chunk → Option (RewriteBuffer × List Chunk)
drain_all har judge b out = drain har judge (suc (length b.chunk_queue)) b out

-- The chunk without the marks that the rewrite phase sets.
abbrev pub unmarked : Chunk → Chunk
unmarked c = record c { flag = record c.flag { sparse = false; out_of_order = false } }

pub unmarked-har_mark : (har : Har) (c : Chunk) → unmarked (har_mark har c) ≡ unmarked c
unfolding har_mark har_check
unmarked-har_mark har c = ground arith

module _ (har : Har) (judge : Chunk → Option Chunk) (mark : Chunk → Chunk)
    (judged : (c : Chunk) → IsTidy c → judge (har_mark har c) ≡ some (mark (har_mark har c))) where
  abbrev settle : Chunk → Chunk
  settle c = mark (har_mark har c)

  drain-settle :
      (fuel : ℕ) (queue : List Chunk) (b : RewriteBuffer) (out : List Chunk)
      → IsBalanced b
      → b.chunk_queue ≡ queue
      → length queue < fuel
      → (b' : RewriteBuffer) × (drain har judge fuel b out ≡ some (b', out ++ map settle queue))
        × IsBalanced b'
        × (b'.chunk_queue ≡ [])
  unfolding drain
  drain-settle zero queue b out v e h = absurd (omega arith)
  drain-settle (suc fuel) [] b out v e h =
      (b, rw (append-nil out) (unfold rewrite_buffer_pop in ground arith), v, e)
  drain-settle (suc fuel) (c ∷ queue) b out v e h =
      let tidy : All IsTidy (c ∷ queue) = rw e at v.tidy in
      let (b₁, popped, v₁, e₁, _) = rewrite_buffer_pop-IsBalanced har b c queue v e in
      let (b₂, rest, v₂, e₂) =
        drain-settle fuel queue b₁ (out ++ settle c ∷ []) v₁ e₁ (omega arith) in
      (
        b₂,
        rw (popped, drain, judged c tidy.0)
            (rest ∙ ap (λ l. some (b₂, l)) (append_assoc out (settle c ∷ []) (map settle queue))),
        v₂,
        e₂,
      )

  -- The loop ends within its fuel and fails no assertion: it empties the buffer, and every pending
  -- chunk goes out in order, each marked.
  pub drain_all-settle :
      (b : RewriteBuffer) (out : List Chunk)
      → IsBalanced b
      → (b' : RewriteBuffer) × (drain_all har judge b out
          ≡ some (b', out ++ map (λ c. mark (har_mark har c)) b.chunk_queue))
        × IsBalanced b'
        × (b'.chunk_queue ≡ [])
  drain_all-settle b out v =
      drain-settle (suc (length b.chunk_queue)) b.chunk_queue b out v refl (omega arith)

  pub unmarked-settle :
      ((c : Chunk) → unmarked (mark c) ≡ unmarked c)
      → (queue : List Chunk) → map unmarked (map settle queue) ≡ map unmarked queue
  unmarked-settle keeps [] = refl
  unmarked-settle keeps (c ∷ queue) =
      let first : unmarked (settle c) ≡ unmarked c =
        keeps (har_mark har c) ∙ unmarked-har_mark har c in
      let rest = unmarked-settle keeps queue in cc
