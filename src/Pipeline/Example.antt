-- ===== src/Pipeline/Example.antt =====
-- A store that answers each lookup, and a segment of three chunks (dedup_phase.c, filter_phase.c).
use destor_lt.Prelude.{
  ℕ, ◌≡◌, refl, subst, sym, ◌∙◌, ap, arith, true, false, none, some, List, [], ◌∷◌, if◌then◌else◌,
  Bool-cases, Option-cases, inl, inr, pos, lookup, insert,
}
use destor_lt.Chunk.{Chunk, ContainerId, new_chunk, no_flags}
use destor_lt.Storage.Container.{Container, lookup_fingerprint_in_container}
use destor_lt.Gc.{init_id_shift}
use destor_lt.Index.{
  Index, empty_buffer, queue_of, check_storage, check_buffered, push_elem, take_found, check_cache,
  take_ids, check_kvstore, push_found, lookup_chunk, index_lookup_base,
}
use destor_lt.Index.Behind.{Backend}
use destor_lt.Judge.{Config}
use destor_lt.Judge.Located.{located, located-cons, located_self, IsLocated}
use destor_lt.Pipeline.Promises.{Promises}
use destor_lt.Pipeline.Runs.{System, index_of}
use destor_lt.Pipeline.Marked.{first_system}

-- The latest container that has the fingerprint.
unfoldable pub find : ℕ → List Container → ContainerId
find fp [] = none
find fp (c ∷ cs) =
    if lookup_fingerprint_in_container c fp
    then (elim c.meta.id [ none ↦ find fp cs | some id ↦ some id ])
    else find fp cs

behind-IsLocated :
    (fp : ℕ) (c : Container) (cs : List Container) (id : ContainerId)
    → IsLocated cs fp id
    → IsLocated (c ∷ cs) fp id
behind-IsLocated fp c cs none l = tt
behind-IsLocated fp c cs (some id) l = located-cons id fp c cs l

pub find-IsLocated : (fp : ℕ) (cs : List Container) → IsLocated cs fp (find fp cs)
unfolding find located
find-IsLocated fp [] = tt
find-IsLocated fp (c ∷ cs) = elim (Bool-cases (lookup_fingerprint_in_container c fp)) [
  | inl there ↦ elim (Option-cases c.meta.id) [
    | inl unnumbered ↦
        let same : find fp (c ∷ cs) ≡ find fp cs = rw (find, there, unnumbered) refl in
        subst (IsLocated (c ∷ cs) fp) (sym same)
          (behind-IsLocated fp c cs (find fp cs) (find-IsLocated fp cs))
    | inr (id, named) ↦
        let same : find fp (c ∷ cs) ≡ some id = rw (find, there, named) refl in
        subst (IsLocated (c ∷ cs) fp) (sym same) (located_self id fp c cs named there)
  ]
  | inr absent ↦ rw (absent) (behind-IsLocated fp c cs (find fp cs) (find-IsLocated fp cs))
]

abbrev pub known_backend : Backend (List Container)
known_backend = record {
  fingerprint_cache_lookup = λ fp cs. some (cs, find fp cs);
  fingerprint_cache_prefetch = λ id cs. some cs;
  kvstore_lookup = λ fp cs. none;
  kvstore_update = λ fp id cs. cs;
  retrieve_container_meta_by_id = λ id cs. none;
  write_container_async = λ c cs. c ∷ cs;
}

unfoldable pub known_promises : Promises known_backend
known_promises = record {
  IsSound = λ w cs. cs ≡ w;
  cache_lookup = λ w s s' fp id h e.
      let same : s ≡ s' = ground (arith, e) in
      let found : find fp s ≡ id = ground (arith, e) in
      (
        sym same ∙ h,
        subst (λ l. IsLocated l fp id) h (subst (IsLocated s fp) found (find-IsLocated fp s)),
      );
  cache_prefetch = λ w s s' id h e. let same : s ≡ s' = ground (arith, e) in sym same ∙ h;
  update = λ w s fp id h. h;
  write = λ w s c h. ap (λ l. c ∷ l) h;
}

abbrev chunk : ℕ → Chunk
chunk fp = record (new_chunk 100) { fp = fp; bytes = 1 ∷ [] }

abbrev pub config : Config
config = record {
  rewrite_enable_cache_aware = true;
  rewrite_enable_cfl_switch = true;
  cfl_num = 1;
  cfl_den = 2;
  physical_locality = true;
  exact = true;
  rewrite_no = false;
  simulation_level = 0;
}

abbrev pub inputs : List Chunk
inputs = chunk 5 ∷ chunk 6 ∷ chunk 5 ∷ []

abbrev pub start_state : System (List Container)
start_state = first_system [] 0 [] (pos 2)

abbrev pub looked : List Chunk
looked = chunk 5 ∷ chunk 6 ∷ record (chunk 5) { flag = record no_flags { duplicate = true } } ∷ []

abbrev pub looked_index : Index (List Container)
looked_index = record {
  buffer = record {
    buffered_fingerprints =
        (5, record { id = none; fp = 5 } ∷ record { id = none; fp = 5 } ∷ [])
        ∷ (6, record { id = none; fp = 6 } ∷ [])
        ∷ [];
    chunk_num = 3;
  };
  behind = [];
  marks = init_id_shift;
  lookup_requests = 0;
  lookup_requests_for_unique = 2;
}

pub looks :
    index_lookup_base known_backend 0 none inputs (index_of start_state)
    ≡ some (looked, looked_index)
unfolding index_lookup_base lookup_chunk check_storage check_buffered check_cache take_found
    check_kvstore take_ids push_found push_elem queue_of index_of empty_buffer find insert lookup
    new_chunk
looks = refl
