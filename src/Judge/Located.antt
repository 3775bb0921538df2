-- ===== src/Judge/Located.antt =====
-- Which containers hold a fingerprint, while filter_phase.c fills them and hands them over.
use destor_lt.Prelude.{
  ℕ, ◌+◌, ◌-◌, ◌≤◌, ◌≡◌, refl, arith, Bool, true, false, ◌&&◌, ◌||◌, Option, none, some, List, [],
  ◌∷◌, length, length-insert_absent, ◌==◌, ltb, if◌then◌else◌, Option-cases, inl, inr, lookup,
  insert, lookup-insert,
}
use destor_lt.Chunk.{
  Chunk, ContainerId, eq_id, container_size, container_meta_size, simulation_append,
}
use destor_lt.Storage.Container.{
  Container, create_container, init_container_meta, container_empty, container_overflow, new_entry,
  lookup_fingerprint_in_container, lookup_fingerprint_in_container_meta, add_chunk_to_container,
}
use destor_lt.Storage.Memory.{store}

-- A container under the id that holds the fingerprint.
abbrev pub holds : ℕ → ℕ → Container → Bool
holds id fp c = eq_id c.meta.id (some id) && lookup_fingerprint_in_container c fp

unfoldable pub located : ℕ → ℕ → List Container → Bool
located id fp [] = false
located id fp (c ∷ cs) = holds id fp c || located id fp cs

-- The buffered container and those that were handed over.
abbrev pub containers_of : Option Container → List Container → List Container
containers_of none written = written
containers_of (some c) written = c ∷ written

abbrev pub open_has : Option Container → ℕ → Bool
open_has none fp = false
open_has (some c) fp = lookup_fingerprint_in_container c fp

-- A chunk's id, unless it is TEMPORARY_ID, is that of a container that holds the chunk.
abbrev pub IsLocated : List Container → ℕ → ContainerId → Type 0
IsLocated cs fp none = Unit
IsLocated cs fp (some id) = located id fp cs ≡ true

-- A container with an id, whose counter is the number of its entries, and which holds no chunk if the
-- counter says so.
pub record IsNumbered (c : Container) : Type 0 where
  pub number : ℕ
  pub numbered : c.meta.id ≡ some number
  pub counted : c.meta.chunk_num ≡ length c.meta.map
  pub empty : container_empty c ≡ true → (fp : ℕ) → lookup_fingerprint_in_container c fp ≡ false

abbrev pub IsOpen : Option Container → Type 0
IsOpen none = Unit
IsOpen (some c) = IsNumbered c

pub create_container-IsNumbered : (count : ℕ) → IsNumbered (create_container count).0
unfolding create_container container_empty init_container_meta lookup_fingerprint_in_container
    lookup_fingerprint_in_container_meta lookup
create_container-IsNumbered count = record {
  number = count;
  numbered = refl;
  counted = refl;
  empty = λ e fp. refl;
}

pub create_container-has :
    (count fp : ℕ) → lookup_fingerprint_in_container (create_container count).0 fp ≡ false
unfolding create_container init_container_meta lookup_fingerprint_in_container
    lookup_fingerprint_in_container_meta lookup
create_container-has count fp = refl

-- The most that a container's data area takes.
abbrev pub capacity : ℕ
capacity = container_size - container_meta_size

pub create_container-fits :
    (count size : ℕ) → size ≤ capacity → container_overflow (create_container count).0 size ≡ false
unfolding create_container init_container_meta container_overflow
create_container-fits count size h = ground arith

-- What adding a chunk does to a container that has room for it.
pub record Added (level : ℕ) (c : Container) (ck : Chunk) : Type 0 where
  pub container : Container
  pub added : Bool
  pub gives :
      add_chunk_to_container level c ck ≡ some (container, record ck { id = c.meta.id }, added)
  pub same_id : container.meta.id ≡ c.meta.id
  pub still_counted :
      c.meta.chunk_num ≡ length c.meta.map → container.meta.chunk_num ≡ length container.meta.map
  pub has_it : lookup_fingerprint_in_container container ck.fp ≡ true
  pub has :
      (fp : ℕ)
      → lookup_fingerprint_in_container container fp
        ≡ (lookup_fingerprint_in_container c fp || (ck.fp == fp))
  pub is_new : lookup_fingerprint_in_container c ck.fp ≡ false → added ≡ true
  pub not_empty : container_empty container ≡ true → container_empty c ≡ true × (added ≡ false)

pub add_chunk-Added :
    (level : ℕ) (c : Container) (ck : Chunk)
    → container_overflow c ck.size ≡ false
    → Added level c ck
unfolding add_chunk_to_container lookup_fingerprint_in_container
    lookup_fingerprint_in_container_meta container_empty
add_chunk-Added level c ck room = elim (Option-cases (lookup ck.fp c.meta.map)) [
  | inl absent ↦
      let put : (fp : ℕ)
          → lookup fp (insert ck.fp (new_entry c ck) c.meta.map)
            ≡ (if ck.fp == fp then some (new_entry c ck) else lookup fp c.meta.map) =
        λ fp. lookup-insert ck.fp fp (new_entry c ck) c.meta.map in
      record {
        container = record {
          meta = record c.meta {
            map = insert ck.fp (new_entry c ck) c.meta.map;
            chunk_num = c.meta.chunk_num + 1;
            data_size = c.meta.data_size + ck.size;
          };
          contents =
              if ltb level simulation_append
              then store c.meta.data_size ck.bytes c.contents
              else c.contents;
        };
        added = true;
        still_counted =
            λ h. omega (arith, h, length-insert_absent ck.fp (new_entry c ck) c.meta.map absent);
        gives = rw (add_chunk_to_container, room, absent) refl;
        same_id = refl;
        has_it = ground (arith, put ck.fp);
        has = λ fp. ground (arith, put fp);
        is_new = λ h. refl;
        not_empty = λ h. absurd (ground arith);
      }
  | inr (me, there) ↦ record {
    container = c;
    added = false;
    still_counted = λ h. h;
    gives = rw (add_chunk_to_container, room, there) refl;
    same_id = refl;
    has_it = rw (lookup_fingerprint_in_container, lookup_fingerprint_in_container_meta, there) refl;
    has = λ fp. ground (arith, there);
    is_new = λ h. absurd (ground (arith, there));
    not_empty = λ h. (h, refl);
  }
]

or_mono :
    (a b c d e : Bool)
    → (a && b || e) ≡ true
    → (a ≡ true → d ≡ true)
    → (b ≡ true → c ≡ true)
    → (d && c || e) ≡ true
or_mono true true c d e l f g = rw (f refl, g refl) refl
or_mono true false c d true l f g = ground arith
or_mono true false c d false l f g = absurd (ground arith)
or_mono false b c d true l f g = ground arith
or_mono false b c d false l f g = absurd (ground arith)

-- What located containers stay located through.
pub located-cons :
    (id fp : ℕ) (c : Container) (cs : List Container)
    → located id fp cs ≡ true
    → located id fp (c ∷ cs) ≡ true
unfolding located
located-cons id fp c cs h = ground (arith, h)

pub located_self :
    (id fp : ℕ) (c : Container) (cs : List Container)
    → c.meta.id ≡ some id
    → lookup_fingerprint_in_container c fp ≡ true
    → located id fp (c ∷ cs) ≡ true
unfolding located
located_self id fp c cs e h = ground (arith, e, h)

-- A container that has what another had, under its id.
pub located-grow :
    (id fp : ℕ) (c d : Container) (cs : List Container)
    → d.meta.id ≡ c.meta.id
    → (lookup_fingerprint_in_container c fp ≡ true → lookup_fingerprint_in_container d fp ≡ true)
    → located id fp (c ∷ cs) ≡ true
    → located id fp (d ∷ cs) ≡ true
unfolding located
located-grow id fp c d cs e h l =
    or_mono (eq_id c.meta.id (some id)) (lookup_fingerprint_in_container c fp)
      (lookup_fingerprint_in_container d fp) (eq_id d.meta.id (some id)) (located id fp cs) l
      (λ k. rw (e) k) h
