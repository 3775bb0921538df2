-- ===== src/Assembly/Finish.antt =====
-- Assembling the chunks of the area of assembly_restore.c, and issuing them.
use mathlib.Core.Path.{ap₂}
use destor_lt.Prelude.{
  ℕ, suc, ◌-◌, ◌≡◌, ◌⊎◌, inl, inr, refl, sym, ap, ◌∙◌, arith, true, false, ◌||◌, Bool-cases, Option,
  none, some, List, [], ◌∷◌, ◌++◌, map, All, if◌then◌else◌, length, ◌==◌,
}
use destor_lt.Chunk.{ContainerId, Chunk, is_file_signal, eq_id}
use destor_lt.Assembly.{with_data, take_signals, assemble, issue}

pub both : {a b : Chunk} {xs ys : List Chunk} → a ≡ b → xs ≡ ys → a ∷ xs ≡ b ∷ ys
both p q = ap₂ (λ (a : Chunk) (l : List Chunk). a ∷ l) p q

module _ (fetch : ℕ → ℕ → Option Chunk) where
  abbrev pub finish_with : Chunk → Option Chunk → Chunk
  finish_with c none = c
  finish_with c (some buf) = with_data c buf

  abbrev pub finish_from : Chunk → ContainerId → Chunk
  finish_from c none = c
  finish_from c (some id) = finish_with c (fetch id c.fp)

  -- A chunk of the recipe with its data, and a signal as it is.
  unfoldable pub finish : Chunk → Chunk
  finish c = if is_file_signal c then c else finish_from c c.id

  -- A signal, or a chunk that its container holds, with its size.
  abbrev pub IsReadable : Chunk → Type 0
  IsReadable c =
      (is_file_signal c ≡ true)
      ⊎ ((is_file_signal c ≡ false)
          × (id : ℕ) × (buf : Chunk) × (c.id ≡ some id)
          × (fetch id c.fp ≡ some buf)
          × (c.size ≡ buf.size))

  abbrev pub Ok : Chunk → Type 0
  Ok c = IsReadable c × (is_file_signal c || c.flag.ready ≡ true → finish c ≡ c)

  pub finish_signal : (c : Chunk) → is_file_signal c ≡ true → finish c ≡ c
  unfolding finish
  finish_signal c signal = rw (finish, signal) refl

  pub finish_plain :
      (c : Chunk) (id : ℕ) (buf : Chunk)
      → is_file_signal c ≡ false
      → c.id ≡ some id
      → fetch id c.fp ≡ some buf
      → finish c ≡ with_data c buf
  unfolding finish
  finish_plain c id buf plain is fetched =
      rw (finish, plain) (ap (finish_from c) is ∙ ap (finish_with c) fetched)

  -- What a step of assembling leaves.
  abbrev pub Keeps : Option (List Chunk) → List Chunk → Type 0
  Keeps result cs =
      (cs' : List Chunk) × (result ≡ some cs')
      × All Ok cs'
      × (map finish cs' ≡ map finish cs)
      × (length cs' ≡ length cs)

  pub assemble_same :
      (id : ℕ) (c : Chunk) (cs cs' : List Chunk)
      → assemble fetch id cs ≡ some cs'
      → (is_file_signal c ≡ true) ⊎ ((is_file_signal c ≡ false) × (eq_id c.id (some id) ≡ false))
      → assemble fetch id (c ∷ cs) ≡ some (c ∷ cs')
  unfolding assemble
  assemble_same id c cs cs' run (inl signal) = rw (assemble, run, signal) refl
  assemble_same id c cs cs' run (inr (plain, other)) = rw (assemble, run, plain, other) refl

  pub assemble_data :
      (id : ℕ) (c buf : Chunk) (cs cs' : List Chunk)
      → assemble fetch id cs ≡ some cs'
      → is_file_signal c ≡ false
      → c.id ≡ some id
      → fetch id c.fp ≡ some buf
      → c.size ≡ buf.size
      → assemble fetch id (c ∷ cs) ≡ some (with_data c buf ∷ cs')
  unfolding assemble
  assemble_data id c buf cs cs' run plain is fetched same =
      let self : (id == id) ≡ true = ground arith in
      let own : eq_id c.id (some id) ≡ true = ap (λ i. eq_id i (some id)) is ∙ self in
      let whole : (c.size == buf.size) ≡ true = ground (arith, same) in
      rw (assemble, run, plain, own, fetched, whole) refl

  pub same_id : (c : Chunk) (id' id : ℕ) → c.id ≡ some id' → eq_id c.id (some id) ≡ true → id' ≡ id
  same_id c id' id is own =
      let e : (id' == id) ≡ true = ap (λ i. eq_id i (some id)) (sym is) ∙ own in ground (arith, e)

  pub data-Ok :
      (id : ℕ) (c buf : Chunk)
      → is_file_signal c ≡ false
      → c.id ≡ some id
      → fetch id c.fp ≡ some buf
      → c.size ≡ buf.size
      → Ok (with_data c buf)
  data-Ok id c buf plain is fetched same = (
    inr (plain, id, buf, is, fetched, same),
    λ r. finish_plain (with_data c buf) id buf plain is fetched,
  )

  pub assemble-Keeps : (id : ℕ) (cs : List Chunk) → All Ok cs → Keeps (assemble fetch id cs) cs
  assemble-Keeps id [] ok = ([], unfold assemble in refl, tt, refl, refl)
  assemble-Keeps id (c ∷ cs) (one, ok) =
      let (cs', run, ok', same, len) = assemble-Keeps id cs ok in
      elim one.0 [
        | inl signal ↦ (
          c ∷ cs',
          assemble_same id c cs cs' run (inl signal),
          (one, ok'),
          ap (◌∷◌ (finish c)) same,
          ap suc len,
        )
        | inr (plain, id', buf, is, fetched, whole) ↦ elim (Bool-cases (eq_id c.id (some id))) [
          | inr other ↦ (
            c ∷ cs',
            assemble_same id c cs cs' run (inr (plain, other)),
            (one, ok'),
            ap (◌∷◌ (finish c)) same,
            ap suc len,
          )
          | inl own ↦
              let equal : id' ≡ id = same_id c id' id is own in
              let is' : c.id ≡ some id = is ∙ ap some equal in
              let fetched' : fetch id c.fp ≡ some buf =
                ap (λ i. fetch i c.fp) (sym equal) ∙ fetched in
              (
                with_data c buf ∷ cs',
                assemble_data id c buf cs cs' run plain is' fetched' whole,
                (data-Ok id c buf plain is' fetched' whole, ok'),
                both
                    (finish_plain (with_data c buf) id buf plain is' fetched'
                      ∙ sym (finish_plain c id buf plain is' fetched'))
                    same,
                ap suc len,
              )
        ]
      ]

  pub issue-parts :
      (cs : List Chunk) (size : ℕ)
      → All Ok cs
      → ((issue cs size).0 ++ (issue cs size).1 ≡ cs)
        × (map finish (issue cs size).0 ≡ (issue cs size).0)
        × All Ok (issue cs size).1
  unfolding issue
  issue-parts [] size ok = (refl, refl, tt)
  issue-parts (c ∷ cs) size (one, ok) =
      let (parts, done, ok') =
        issue-parts cs (if is_file_signal c then size else size - c.size) ok in
      elim (Bool-cases (is_file_signal c || c.flag.ready)) [
        | inl goes ↦ rw goes (ap (◌∷◌ c) parts, both (one.1 goes) done, ok')
        | inr stays ↦ rw stays (refl, refl, (one, ok))
      ]

  pub take_signals-parts :
      (cs : List Chunk)
      → All Ok cs
      → (signals rest : List Chunk) × (take_signals cs ≡ (signals, rest))
        × (signals ++ rest ≡ cs)
        × (map finish signals ≡ signals)
        × All Ok rest
        × ((rest ≡ [])
            ⊎ ((c : Chunk) × (cs' : List Chunk) × (rest ≡ c ∷ cs') × (is_file_signal c ≡ false)))
  unfolding take_signals
  take_signals-parts [] ok = ([], [], refl, refl, refl, tt, inl refl)
  take_signals-parts (c ∷ cs) (one, ok) = elim (Bool-cases (is_file_signal c)) [
    | inr plain ↦
        ([], c ∷ cs, rw (take_signals, plain) refl, refl, refl, (one, ok), inr (c, cs, refl, plain))
    | inl signal ↦
        let (signals, rest, taken, parts, done, ok', first) = take_signals-parts cs ok in
        (
          c ∷ signals,
          rest,
          rw (take_signals, signal, taken) refl,
          ap (◌∷◌ c) parts,
          both (finish_signal c signal) done,
          ok',
          first,
        )
  ]
