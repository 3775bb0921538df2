-- ===== src/Storage/Container/Content.antt =====
-- What can be read from a container after a chunk was added (storage/containerstore.c).
use destor_lt.Prelude.{
  ℕ, ◌+◌, ◌<◌, ◌≡◌, true, false, none, some, List, [], ◌∷◌, ◌≢◌, arith, length, lookup, insert, All,
  ◌==◌, if◌then◌else◌, lookup-insert, inl, inr, Option-cases, ==-refl, ℕ_discrete,
}
use destor_lt.Chunk.{Chunk, no_flags, simulation_restore}
use destor_lt.Storage.Memory.{load, store, load-store_self, load-store_above}
use destor_lt.Storage.Container.{
  MetaEntry, Container, new_entry, container_overflow, add_chunk_to_container,
  get_chunk_in_container,
}
use destor_lt.Storage.Container.Valid.{IsValid, IsInside}

-- The entry that a lookup finds has what every entry has.
pub All-lookup :
    (n fp : ℕ) (es : List (ℕ × MetaEntry)) (me : MetaEntry)
    → All (IsInside n) es
    → lookup fp es ≡ some me
    → IsInside n (fp, me)
unfolding lookup
All-lookup n fp [] me a h = ground arith
All-lookup n fp (e ∷ es) me a h = ground (arith, All-lookup n fp es me a.1)

module _ (level stray : ℕ) (c : Container) (ck : Chunk) (c' : Container) (v : IsValid c)
    (exact : length ck.bytes ≡ ck.size) (real : level < simulation_restore)
    (fresh : lookup ck.fp c.meta.map ≡ none)
    (e : add_chunk_to_container level c ck ≡ some (c', record ck { id = c.meta.id }, true)) where
  added : c' ≡ record {
    meta = record c.meta {
      map = insert ck.fp (new_entry c ck) c.meta.map;
      chunk_num = c.meta.chunk_num + 1;
      data_size = c.meta.data_size + ck.size;
    };
    contents = store c.meta.data_size ck.bytes c.contents;
  }
  unfolding add_chunk_to_container
  added = ground arith

  get_self :
      get_chunk_in_container level stray c' ck.fp
      ≡ some (record ck { flag = no_flags; id = c.meta.id; fp = stray })
  unfolding get_chunk_in_container
  get_self =
      let body : load c.meta.data_size ck.size c'.contents ≡ ck.bytes =
        rw (added, ← exact) (load-store_self c.meta.data_size ck.bytes c.contents) in
      ground (arith, added, body, lookup-insert ck.fp ck.fp (new_entry c ck) c.meta.map)

  get_other :
      (fp : ℕ)
      → ck.fp ≢ fp
      → get_chunk_in_container level stray c' fp ≡ get_chunk_in_container level stray c fp
  unfolding get_chunk_in_container
  get_other fp other = elim (Option-cases (lookup fp c.meta.map)) [
    | inl absent ↦ ground (arith, added, lookup-insert ck.fp fp (new_entry c ck) c.meta.map)
    | inr (me, found) ↦
        let inside = All-lookup c.meta.data_size fp c.meta.map me v.inside found in
        let body : load me.off me.len c'.contents ≡ load me.off me.len c.contents =
          rw added (load-store_above me.off me.len c.meta.data_size ck.bytes c.contents inside.1) in
        ground (arith, added, body, lookup-insert ck.fp fp (new_entry c ck) c.meta.map)
  ]

-- In a valid container with room, storing for real (no simulation), a chunk whose fingerprint is not
-- there is added; every later read then finds the chunk's bytes and size under its fingerprint, with
-- the container's id, and under any other fingerprint what it found before. The fingerprint of a
-- chunk that is read is never the one asked for, but the `stray` bytes at the pointer's address.
pub get_chunk-add_chunk :
    (level stray fp : ℕ) (c : Container) (ck : Chunk)
    → IsValid c
    → length ck.bytes ≡ ck.size
    → level < simulation_restore
    → container_overflow c ck.size ≡ false
    → lookup ck.fp c.meta.map ≡ none
    → (c' : Container) × (add_chunk_to_container level c ck
        ≡ some (c', record ck { id = c.meta.id }, true))
      × (get_chunk_in_container level stray c' fp ≡ (
          if ck.fp == fp
          then some (record ck { flag = no_flags; id = c.meta.id; fp = stray })
          else get_chunk_in_container level stray c fp))
unfolding add_chunk_to_container
get_chunk-add_chunk level stray fp c ck v exact real room fresh =
    let c' : Container = record {
      meta = record c.meta {
        map = insert ck.fp (new_entry c ck) c.meta.map;
        chunk_num = c.meta.chunk_num + 1;
        data_size = c.meta.data_size + ck.size;
      };
      contents = store c.meta.data_size ck.bytes c.contents;
    } in
    let e : add_chunk_to_container level c ck ≡ some (c', record ck { id = c.meta.id }, true) =
      ground arith in
    (
      c',
      e,
      elim (ℕ_discrete ck.fp fp) [
        | yes same ↦ rw (← same, ==-refl) (get_self level stray c ck c' v exact real fresh e)
        | no other ↦ ground (arith, get_other level stray c ck c' v exact real fresh e fp other)
      ],
    )
