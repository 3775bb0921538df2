-- ===== src/Judge/Settled.antt =====
-- What the loop of filter_phase.c knows of a chunk before it is written.
use destor_lt.Prelude.{
  ℕ, ◌+◌, ◌≡◌, refl, subst, sym, arith, Bool, true, false, not, ◌&&◌, ◌||◌, Option, none, some,
  List, ◌==◌, Bool-cases, Option-cases, inl, inr, lookup, insert, lookup-insert,
}
use destor_lt.Chunk.{Chunk, ContainerId, is_file_signal}
use destor_lt.Lru.{lru_cache_lookup}
use destor_lt.Lru.Bounds.{IsValid, lru_cache_lookup-IsValid, lru_cache_insert-IsValid}
use destor_lt.RestoreAware.{Monitor, grow, restore_aware_update}
use destor_lt.Storage.Container.{Container}
use destor_lt.Index.{is_temporary}
use destor_lt.Judge.{Config, Filter, flag_cached, settle_copy, deny_for, deny_rewritten}
use destor_lt.Judge.Located.{located, open_has, IsLocated, IsOpen}
use destor_lt.Judge.Room.{all_of, Keeps}

-- The ids in a table of written chunks are located.
abbrev pub IsTable : List Container → List (ℕ × ContainerId) → Type 0
IsTable cs table =
    (fp : ℕ) (x : ContainerId)
    → lookup fp table ≡ some x
    → (id : ℕ) × (x ≡ some id) × (located id fp cs ≡ true)

abbrev pub knows : List (ℕ × ContainerId) → ℕ → Bool
knows table fp = elim (lookup fp table) [ none ↦ false | some id ↦ true ]

pub record Judging {σ : Type 0} (f : Filter σ) : Type 0 where
  pub opened : IsOpen f.container_buffer
  pub unique : IsTable (all_of f) f.recently_unique_chunks
  pub rewritten : IsTable (all_of f) f.recently_rewritten_chunks
  pub valid : IsValid f.monitor.cache

-- What is left of a chunk, whatever becomes of its id and of its other flags.
pub record Kept (c c' : Chunk) : Type 0 where
  pub fp : c'.fp ≡ c.fp
  pub duplicate : c'.flag.duplicate ≡ c.flag.duplicate
  pub signal : is_file_signal c' ≡ is_file_signal c
  pub size : c'.size ≡ c.size

pub record Judged {σ : Type 0} (f : Filter σ) (c : Chunk) (f' : Filter σ) (c' : Chunk)
    : Type 0 where
  pub kept : Kept c c'
  pub id : ℕ
  pub named : c'.id ≡ some id
  pub here : located id c.fp (all_of f') ≡ true
  pub keeps : Keeps f f'
  pub held :
      (fp : ℕ)
      → open_has f'.container_buffer fp ≡ true
      → (open_has f.container_buffer fp || (c.fp == fp)) ≡ true
  pub state : Judging f'
  pub known :
      (fp : ℕ)
      → knows f'.recently_unique_chunks fp
        ≡ (knows f.recently_unique_chunks fp || (not c.flag.duplicate && (c.fp == fp)))

pub restore_aware_update-IsValid :
    (m : Monitor) (id size : ℕ)
    → IsValid m.cache
    → (m' : Monitor) × (restore_aware_update m id size ≡ some m') × IsValid m'.cache
unfolding restore_aware_update
restore_aware_update-IsValid m id size v =
    let looked = lru_cache_lookup m.cache id in
    elim (Option-cases looked.1) [
      | inl missed ↦
          let (cache, victim, e, valid) =
            lru_cache_insert-IsValid looked.0 id (lru_cache_lookup-IsValid m.cache id v) in
          (
            record (grow m size) { ccf = m.ccf + 1; cache = cache },
            rw (restore_aware_update, missed, e) refl,
            valid,
          )
      | inr (_, found) ↦ (
        record (grow m size) { cache = looked.0 },
        rw (restore_aware_update, found) refl,
        lru_cache_lookup-IsValid m.cache id v,
      )
    ]

-- A chunk whose id is settled: a duplicate has one.
pub record Settled {σ : Type 0} (f : Filter σ) (c c' : Chunk) : Type 0 where
  pub kept : Kept c c'
  pub place : IsLocated (all_of f) c.fp c'.id
  pub named : c'.flag.duplicate ≡ true → is_temporary c'.id ≡ false

pub flag_cached-Kept :
    (cfg : Config) (m : Monitor) (c : Chunk)
    → Kept c (flag_cached cfg m c) × ((flag_cached cfg m c).id ≡ c.id)
unfolding flag_cached
flag_cached-Kept cfg m c = ground arith

pub settle_copy-Settled :
    {σ : Type 0} (f : Filter σ) (c : Chunk)
    → Judging f
    → IsLocated (all_of f) c.fp c.id
    → ((c.flag.duplicate && is_temporary c.id) ≡ true → knows f.recently_unique_chunks c.fp ≡ true)
    → (c' : Chunk) × (settle_copy f.recently_unique_chunks c ≡ some c') × Settled f c c'
unfolding settle_copy
settle_copy-Settled f c g place copy = elim (Bool-cases (c.flag.duplicate && is_temporary c.id)) [
  | inl open_copy ↦ elim (Option-cases (lookup c.fp f.recently_unique_chunks)) [
    | inl absent ↦ absurd (ground (arith, copy open_copy, absent))
    | inr (x, there) ↦
        let (id, named, here) = g.unique c.fp x there in
        (
          record c { id = x },
          rw (open_copy, there) refl,
          record {
            kept = record { fp = refl; duplicate = refl; signal = refl; size = refl };
            place = subst (IsLocated (all_of f) c.fp) (sym named) here;
            named = λ d. rw (named) refl;
          },
        )
  ]
  | inr settled ↦ (
    c,
    rw (settled) refl,
    record {
      kept = record { fp = refl; duplicate = refl; signal = refl; size = refl };
      place = place;
      named = λ d. ground (arith, d, settled);
    },
  )
]

pub deny_rewritten-Settled :
    {σ : Type 0} (f : Filter σ) (c c₁ : Chunk)
    → Judging f
    → Settled f c c₁
    → Settled f c (deny_rewritten f.recently_rewritten_chunks c₁)
unfolding deny_rewritten deny_for
deny_rewritten-Settled f c c₁ g s = elim (Option-cases (lookup c₁.fp f.recently_rewritten_chunks)) [
  | inl absent ↦ subst (λ (o : Option ContainerId). Settled f c (deny_for o c₁)) (sym absent) s
  | inr (x, there) ↦
      let (id, named, here) = g.rewritten c₁.fp x there in
      subst (λ (o : Option ContainerId). Settled f c (deny_for o c₁)) (sym there)
        (record {
          kept = record {
            fp = s.kept.fp;
            duplicate = s.kept.duplicate;
            signal = s.kept.signal;
            size = s.kept.size;
          };
          place = rw (named, ← s.kept.fp) here;
          named = λ d. rw (named) refl;
        })
]

pub knows-insert :
    (fp k : ℕ) (x : ContainerId) (table : List (ℕ × ContainerId))
    → knows (insert k x table) fp ≡ (knows table fp || (k == fp))
knows-insert fp k x table = ground (arith, lookup-insert k fp x table)

pub insert-IsTable :
    (cs : List Container) (fp id : ℕ) (table : List (ℕ × ContainerId))
    → located id fp cs ≡ true
    → IsTable cs table
    → IsTable cs (insert fp (some id) table)
insert-IsTable cs fp id table here t k x there = elim (Bool-cases (fp == k)) [
  | inl same ↦
      let key : fp ≡ k = ground (arith, same) in
      let value : x ≡ some id = ground (arith, lookup-insert fp k (some id) table, there, same) in
      (id, value, subst (λ (j : ℕ). located id j cs ≡ true) key here)
  | inr other ↦ t k x (ground (arith, lookup-insert fp k (some id) table, there, other))
]

pub keep-IsTable :
    {σ : Type 0} (f g : Filter σ) (table : List (ℕ × ContainerId))
    → Keeps f g
    → IsTable (all_of f) table
    → IsTable (all_of g) table
keep-IsTable f g table k t fp x there =
    let (id, named, here) = t fp x there in (id, named, k id fp here)
