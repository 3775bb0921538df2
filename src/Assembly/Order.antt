-- ===== src/Assembly/Order.antt =====
-- The order and the data of what assembly_restore.c restores.
use destor_lt.Prelude.{
  ℕ, zero, suc, ◌≡◌, inl, inr, refl, sym, ap, ◌∙◌, subst, arith, true, false, Bool-cases, Option,
  some, List, [], ◌∷◌, ◌++◌, map, map-append, append_assoc, append-nil, All, All-append, length,
}
use destor_lt.Chunk.{Chunk, is_file_signal}
use destor_lt.Assembly.{
  Area, init_assembly_area, assemble_area, assembly_area_push, assembly_restore_loop,
  assembly_restore_thread,
}
use destor_lt.Assembly.Finish.{finish, IsReadable, Ok, finish_signal}
use destor_lt.Assembly.Rounds.{assemble_area-shorter, drain_area-finish}

module _ (fetch : ℕ → ℕ → Option Chunk) where
  push-area : (c : Chunk) (a : Area) → (assembly_area_push c a).0.area ≡ a.area ++ c ∷ []
  unfolding assembly_area_push
  push-area c a = elim (Bool-cases (is_file_signal c)) [
    | inl signal ↦ rw signal refl
    | inr plain ↦ rw plain refl
  ]

  loop_goes :
      (c : Chunk) (cs out : List Chunk) (a : Area)
      → (assembly_area_push c a).1 ≡ false
      → assembly_restore_loop fetch (c ∷ cs) a out
        ≡ assembly_restore_loop fetch cs (assembly_area_push c a).0 out
  unfolding assembly_restore_loop
  loop_goes c cs out a room = rw (assembly_restore_loop, room) refl

  loop_full :
      (c : Chunk) (cs out q : List Chunk) (a a' : Area)
      → (assembly_area_push c a).1 ≡ true
      → assemble_area fetch (assembly_area_push c a).0 ≡ some (some q, a')
      → assembly_restore_loop fetch (c ∷ cs) a out ≡ assembly_restore_loop fetch cs a' (out ++ q)
  unfolding assembly_restore_loop
  loop_full c cs out q a a' full run = rw (assembly_restore_loop, full, run) refl

  ends_in :
      (xs : List Chunk) (c : Chunk) → (c₀ : Chunk) × (cs₀ : List Chunk) × (xs ++ c ∷ [] ≡ c₀ ∷ cs₀)
  ends_in [] c = (c, [], refl)
  ends_in (x ∷ xs) c = (x, xs ++ c ∷ [], refl)

  -- A chunk as the recipe thread sends it.
  abbrev pub IsFresh : Chunk → Type 0
  IsFresh c = IsReadable fetch c × (c.flag.ready ≡ false)

  IsFresh-Ok : (c : Chunk) → IsFresh c → Ok fetch c
  IsFresh-Ok c (readable, fresh) = (
    readable,
    λ h. elim readable [
      | inl signal ↦ finish_signal fetch c signal
      | inr (plain, id, buf, is, fetched, same) ↦ absurd (ground (arith, h, plain, fresh))
    ],
  )

  loop-finish :
      (cs out : List Chunk) (a : Area)
      → All IsFresh cs
      → All (Ok fetch) a.area
      → assembly_restore_loop fetch cs a out ≡ some (out ++ map (finish fetch) (a.area ++ cs))
  loop-finish [] out a fresh ok =
      unfold assembly_restore_loop in
      (drain_area-finish fetch (suc (length a.area)) a a.area out refl ok (omega arith)
        ∙ ap (λ l. some (out ++ map (finish fetch) l)) (sym (append-nil a.area)))
  loop-finish (c ∷ cs) out a (one, fresh) ok =
      let a₁ = (assembly_area_push c a).0 in
      let area = push-area c a in
      let all : All (Ok fetch) (a.area ++ c ∷ []) =
        All-append (Ok fetch) a.area (c ∷ []) ok (IsFresh-Ok c one, tt) in
      elim (Bool-cases (assembly_area_push c a).1) [
        | inr room ↦
            loop_goes c cs out a room
            ∙ loop-finish cs out a₁ fresh (subst (All (Ok fetch)) (sym area) all)
            ∙ ap (λ l. some (out ++ map (finish fetch) (l ++ cs))) area
            ∙ ap (λ l. some (out ++ map (finish fetch) l)) (append_assoc a.area (c ∷ []) cs)
        | inl full ↦
            let (c₀, cs₀, is) = ends_in a.area c in
            let (q, a₂, run, same, ok₂, shorter) =
              assemble_area-shorter fetch a₁ c₀ cs₀ (area ∙ is) (subst (All (Ok fetch)) is all) in
            loop_full c cs out q a a₂ full run
            ∙ loop-finish cs (out ++ q) a₂ fresh ok₂
            ∙ ap some (
                append_assoc out q (map (finish fetch) (a₂.area ++ cs))
                ∙ ap (λ l. out ++ (q ++ l)) (map-append (finish fetch) a₂.area cs)
                ∙ ap (λ l. out ++ l)
                    (sym (append_assoc q (map (finish fetch) a₂.area) (map (finish fetch) cs)))
                ∙ ap (λ l. out ++ (l ++ map (finish fetch) cs))
                    (same ∙ ap (map (finish fetch)) (sym is))
                ∙ ap (λ l. out ++ l) (sym (map-append (finish fetch) (a.area ++ c ∷ []) cs))
                ∙ ap (λ l. out ++ map (finish fetch) l) (append_assoc a.area (c ∷ []) cs))
      ]

init_empty : (n : ℕ) → (init_assembly_area n).area ≡ []
unfolding init_assembly_area
init_empty zero = refl
init_empty (suc n) = refl

-- For any size of the cache, and a stream of signals and of chunks that are not marked ready, each of which
-- its container holds with its size, the restore by forward assembly ends without a failed assertion and
-- passes on the whole stream in order, each chunk with the data that its container holds for it.
pub assembly_restore_thread-finish :
    (fetch : ℕ → ℕ → Option Chunk) (restore_cache : ℕ) (cs : List Chunk)
    → All (IsFresh fetch) cs
    → assembly_restore_thread fetch restore_cache cs ≡ some (map (finish fetch) cs)
unfolding assembly_restore_thread
assembly_restore_thread-finish fetch restore_cache cs fresh =
    let empty = init_empty restore_cache in
    loop-finish fetch cs [] (init_assembly_area restore_cache) fresh
      (subst (All (Ok fetch)) (sym empty) tt)
    ∙ ap (λ l. some (map (finish fetch) (l ++ cs))) empty
