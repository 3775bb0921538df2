-- ===== src/Storage/Container/Valid.antt =====
-- The invariant of a container that is being filled (storage/containerstore.c).
use destor_lt.Prelude.{
  ℕ, ◌+◌, ◌-◌, ◌*◌, ◌^◌, ◌≤◌, ◌<◌, ◌≡◌, Bool, none, some, List, [], ◌∷◌, arith, length, insert,
  length-insert_absent, Distinct, insert-Distinct, All,
}
use destor_lt.Chunk.{Chunk, container_size, container_meta_size}
use destor_lt.Storage.Container.{
  MetaEntry, Container, new_entry, create_container, container_overflow, add_chunk_to_container,
}

-- An entry under a 20-byte fingerprint that lies in the data written so far, with no position yet.
abbrev pub IsInside : ℕ → ℕ × MetaEntry → Type 0
IsInside size (fp, me) = (fp < 256 ^ 20) × (me.off + me.len ≤ size) × (me.position ≡ none)

pub record IsValid (c : Container) : Type 0 where
  pub counted : c.meta.chunk_num ≡ length c.meta.map
  pub distinct : Distinct c.meta.map
  pub data_fits : c.meta.data_size ≤ container_size - container_meta_size
  pub meta_fits : c.meta.chunk_num * 28 + 16 ≤ container_meta_size
  pub inside : All (IsInside c.meta.data_size) c.meta.map

All-IsInside_mono :
    (m n : ℕ) (es : List (ℕ × MetaEntry)) → m ≤ n → All (IsInside m) es → All (IsInside n) es
All-IsInside_mono m n [] h a = tt
All-IsInside_mono m n (e ∷ es) h a = ((a.0.0, omega arith, a.0.2), All-IsInside_mono m n es h a.1)

insert-IsInside :
    (n fp : ℕ) (me : MetaEntry) (es : List (ℕ × MetaEntry))
    → IsInside n (fp, me)
    → All (IsInside n) es
    → All (IsInside n) (insert fp me es)
unfolding insert
insert-IsInside n fp me [] h a = (h, tt)
insert-IsInside n fp me (e ∷ es) h a = ground (arith, insert-IsInside n fp me es h a.1)

-- A new container is valid.
pub create_container-IsValid : (container_count : ℕ) → IsValid (create_container container_count).0
unfolding create_container
create_container-IsValid n = omega arith

-- Adding a chunk, new or already there, keeps the container valid: the counters agree with the
-- table, every entry lies in the data written, and data and metadata fit into their areas.
pub add_chunk-IsValid :
    (level : ℕ) (c : Container) (ck : Chunk) {c' : Container} {ck' : Chunk} {added : Bool}
    → ck.fp < 256 ^ 20
    → IsValid c
    → add_chunk_to_container level c ck ≡ some (c', ck', added)
    → IsValid c'
unfolding add_chunk_to_container container_overflow
add_chunk-IsValid level c ck {c'} h v e = ground (
  arith,
  insert-Distinct ck.fp (new_entry c ck) c.meta.map v.distinct,
  length-insert_absent ck.fp (new_entry c ck) c.meta.map,
  insert-IsInside (c.meta.data_size + ck.size) ck.fp (new_entry c ck) c.meta.map,
  All-IsInside_mono c.meta.data_size (c.meta.data_size + ck.size) c.meta.map (omega arith) v.inside,
)
