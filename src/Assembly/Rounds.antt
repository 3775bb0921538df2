-- ===== src/Assembly/Rounds.antt =====
-- Rounds of assembling the area of assembly_restore.c, each of which makes it shorter.
use destor_lt.Prelude.{
  ℕ, zero, suc, ◌-◌, ◌≤◌, ◌<◌, ◌≡◌, inl, inr, refl, sym, ap, ◌∙◌, subst, arith, true, false, ◌||◌,
  Bool-cases, Option, some, List, [], ◌∷◌, ◌++◌, map, map-append, append_assoc, append-nil, All,
  if◌then◌else◌, length, length-append,
}
use destor_lt.Chunk.{Chunk, is_file_signal}
use destor_lt.Assembly.{Area, with_data, take_signals, assemble, issue, assemble_area, drain_area}
use destor_lt.Assembly.Finish.{
  both, finish, Ok, finish_plain, assemble_data, data-Ok, assemble-Keeps, issue-parts,
  take_signals-parts,
}

module _ (fetch : ℕ → ℕ → Option Chunk) where
  -- The chunk in front of the others is assembled, and issued.
  assemble_first :
      (c : Chunk) (cs : List Chunk) (size : ℕ)
      → is_file_signal c ≡ false
      → All (Ok fetch) (c ∷ cs)
      → (id : ℕ) × (c' : Chunk) × (cs' : List Chunk) × (c.id ≡ some id)
        × (assemble fetch id (c ∷ cs) ≡ some (c' ∷ cs'))
        × All (Ok fetch) (c' ∷ cs')
        × (map (finish fetch) (c' ∷ cs') ≡ map (finish fetch) (c ∷ cs))
        × (length cs' ≡ length cs)
        × (c'.flag.ready ≡ true)
  assemble_first c cs size plain (one, ok) = elim one.0 [
    | inl signal ↦ absurd (ground (arith, plain, signal))
    | inr (plain', id, buf, is, fetched, whole) ↦
        let (cs', run, ok', same, len) = (assemble-Keeps fetch) id cs ok in
        (
          id,
          with_data c buf,
          cs',
          is,
          (assemble_data fetch) id c buf cs cs' run plain is fetched whole,
          ((data-Ok fetch) id c buf plain is fetched whole, ok'),
          both
              ((finish_plain fetch) (with_data c buf) id buf plain is fetched
                ∙ sym ((finish_plain fetch) c id buf plain is fetched))
              same,
          len,
          refl,
        )
  ]

  length-issue : (cs : List Chunk) (size : ℕ) → length (issue cs size).1 ≤ length cs
  unfolding issue
  length-issue [] size = omega arith
  length-issue (c ∷ cs) size =
      let shorter = length-issue cs (if is_file_signal c then size else size - c.size) in
      elim (Bool-cases (is_file_signal c || c.flag.ready)) [
        | inl goes ↦ rw goes (omega (arith, shorter))
        | inr stays ↦ rw stays (omega arith)
      ]

  issue_shorter :
      (c : Chunk) (cs : List Chunk) (size : ℕ)
      → c.flag.ready ≡ true
      → length (issue (c ∷ cs) size).1 ≤ length cs
  unfolding issue
  issue_shorter c cs size ready =
      let goes : is_file_signal c || c.flag.ready ≡ true = ground (arith, ready) in
      rw goes (length-issue cs (if is_file_signal c then size else size - c.size))

  abbrev without : Area → Area
  without a = record a { area = [] }

  abbrev left_by : Area → List Chunk → Area
  left_by a cs = record a { area = (issue cs a.size).1; size = (issue cs a.size).2 }

  area_empty :
      (a : Area) (c₀ : Chunk) (cs₀ signals : List Chunk)
      → a.area ≡ c₀ ∷ cs₀
      → take_signals (c₀ ∷ cs₀) ≡ (signals, [])
      → assemble_area fetch a ≡ some (some signals, record a { area = [] })
  unfolding assemble_area
  area_empty a c₀ cs₀ signals filled taken =
      rw (assemble_area, filled, taken)
        (ap (λ (t : List Chunk × List Chunk). some (some t.0, without a)) taken)

  area_issues :
      (a : Area) (c₀ c : Chunk) (cs₀ cs signals assembled : List Chunk) (id : ℕ)
      → a.area ≡ c₀ ∷ cs₀
      → take_signals (c₀ ∷ cs₀) ≡ (signals, c ∷ cs)
      → c.id ≡ some id
      → assemble fetch id (c ∷ cs) ≡ some assembled
      → assemble_area fetch a
        ≡ some (
          some (signals ++ (issue assembled a.size).0),
          record a { area = (issue assembled a.size).1; size = (issue assembled a.size).2 },
        )
  unfolding assemble_area
  area_issues a c₀ c cs₀ cs signals assembled id filled taken is run =
      rw (assemble_area, filled, taken, is, run)
        (ap
          (λ (t : List Chunk × List Chunk).
            some (some (t.0 ++ (issue assembled a.size).0), left_by a assembled))
          taken)

  -- An area that is not empty gets shorter, by chunks that are finished.
  pub assemble_area-shorter :
      (a : Area) (c₀ : Chunk) (cs₀ : List Chunk)
      → a.area ≡ c₀ ∷ cs₀
      → All (Ok fetch) (c₀ ∷ cs₀)
      → (q : List Chunk) × (a' : Area) × (assemble_area fetch a ≡ some (some q, a'))
        × (q ++ map (finish fetch) a'.area ≡ map (finish fetch) (c₀ ∷ cs₀))
        × All (Ok fetch) a'.area
        × (length a'.area ≤ length cs₀)
  assemble_area-shorter a c₀ cs₀ filled ok =
      let (signals, rest, taken, parts, done, ok', first) =
        (take_signals-parts fetch) (c₀ ∷ cs₀) ok in
      elim first [
        | inl nothing ↦
            let all : signals ≡ c₀ ∷ cs₀ =
              sym (append-nil signals) ∙ ap (λ l. signals ++ l) (sym nothing) ∙ parts in
            (
              signals,
              record a { area = [] },
              area_empty a c₀ cs₀ signals filled
                  (taken ∙ ap (λ (l : List Chunk). (signals, l)) nothing),
              append-nil signals ∙ sym done ∙ ap (map (finish fetch)) all,
              tt,
              omega arith,
            )
        | inr (c, cs, is_rest, plain) ↦
            let (id, c', cs', is, run, ok₁, same, len, ready) =
              assemble_first c cs a.size plain (subst (All (Ok fetch)) is_rest ok') in
            let (split, done₂, ok₂) = (issue-parts fetch) (c' ∷ cs') a.size ok₁ in
            let issued = (issue (c' ∷ cs') a.size).0 in
            let left = (issue (c' ∷ cs') a.size).1 in
            let whole : signals ++ c ∷ cs ≡ c₀ ∷ cs₀ =
              ap (λ l. signals ++ l) (sym is_rest) ∙ parts in
            (
              signals ++ issued,
              left_by a (c' ∷ cs'),
              area_issues a c₀ c cs₀ cs signals (c' ∷ cs') id filled
                  (taken ∙ ap (λ (l : List Chunk). (signals, l)) is_rest) is run,
              append_assoc signals issued (map (finish fetch) left)
                  ∙ ap (λ l. signals ++ (l ++ map (finish fetch) left)) (sym done₂)
                  ∙ ap (λ l. signals ++ l)
                      (sym (map-append (finish fetch) issued left)
                        ∙ ap (map (finish fetch)) split
                        ∙ same)
                  ∙ ap (λ l. l ++ map (finish fetch) (c ∷ cs)) (sym done)
                  ∙ sym (map-append (finish fetch) signals (c ∷ cs))
                  ∙ ap (map (finish fetch)) whole,
              ok₂,
              omega (
                arith,
                issue_shorter c' cs' a.size ready,
                len,
                ap length whole,
                length-append signals (c ∷ cs),
              ),
            )
      ]

  drain_then :
      (fuel : ℕ) (a a' : Area) (out q : List Chunk)
      → assemble_area fetch a ≡ some (some q, a')
      → drain_area fetch (suc fuel) a out ≡ drain_area fetch fuel a' (out ++ q)
  unfolding drain_area
  drain_then fuel a a' out q run = rw (drain_area, run) refl

  drained :
      (fuel : ℕ) (a : Area) (out : List Chunk)
      → a.area ≡ []
      → drain_area fetch (suc fuel) a out ≡ some out
  unfolding drain_area assemble_area
  drained fuel a out empty = rw (drain_area, assemble_area, empty) refl

  -- A round for each chunk of the area, and one more, is enough.
  pub drain_area-finish :
      (fuel : ℕ) (a : Area) (cs out : List Chunk)
      → a.area ≡ cs
      → All (Ok fetch) cs
      → length cs < fuel
      → drain_area fetch fuel a out ≡ some (out ++ map (finish fetch) cs)
  drain_area-finish zero a cs out filled ok enough = absurd (omega arith)
  drain_area-finish (suc fuel) a [] out filled ok enough =
      drained fuel a out filled ∙ ap some (sym (append-nil out))
  drain_area-finish (suc fuel) a (c ∷ cs) out filled ok enough =
      let (q, a', run, same, ok', shorter) = assemble_area-shorter a c cs filled ok in
      drain_then fuel a a' out q run
      ∙ drain_area-finish fuel a' a'.area (out ++ q) refl ok' (omega (arith, shorter))
      ∙ ap some (append_assoc out q (map (finish fetch) a'.area) ∙ ap (λ l. out ++ l) same)
