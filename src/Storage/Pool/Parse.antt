-- ===== src/Storage/Pool/Parse.antt =====
-- Reading back the metadata of a container that storage/containerstore.c wrote to the pool.
use destor_lt.Prelude.{
  ℕ, ◌+◌, ◌-◌, ◌*◌, ◌^◌, ◌≤◌, ◌<◌, ◌≡◌, ◌≢◌, refl, sym, ap, ◌∙◌, false, true, Option, none, some,
  List, [], ◌∷◌, ◌++◌, arith, length, lookup, Distinct, All, if◌then◌else◌, length-append,
  Option-cases, inl, inr, ltb, leb, HashOrder, insert_all, lookup-insert_all, leb→le, ltb→lt,
  Bool-cases,
}
use destor_lt.Chunk.{container_size, container_meta_size, simulation_restore, simulation_append}
use destor_lt.Storage.Memory.{
  Memory, zeros, store, load, copy, load-store_self, load-store_above, load-copy, load-copy_from,
  load-add,
}
use destor_lt.Storage.Serial.{serial_int, length-serial_int}
use destor_lt.Storage.Container.{MetaEntry, ContainerMeta, Container, get_chunk_in_container}
use destor_lt.Storage.Container.Valid.{IsValid}
use destor_lt.Storage.Container.Content.{All-lookup}
use destor_lt.Storage.Pool.{
  Table, Store, id_bits, entries_bytes, meta_bytes, write_container, read_meta, meta_offset,
  retrieve_container_by_id,
}
use destor_lt.Storage.Pool.Entries.{IsStorable, length-entries_bytes, read_meta-meta_bytes}

All-of_lookup :
    (es : Table)
    → Distinct es
    → ((k : ℕ) (me : MetaEntry) → lookup k es ≡ some me → IsStorable (k, me))
    → All IsStorable es
unfolding lookup
All-of_lookup [] d h = tt
All-of_lookup ((j, v) ∷ es) d h =
    (h j v (ground arith), All-of_lookup es d.1 (λ k me e. h k me (ground arith)))

module _ (order : HashOrder MetaEntry) (id : ℕ) (c : Container) (v : IsValid c)
    (named : c.meta.id ≡ some id) (small : id < 2 ^ 63) where
  abbrev pub area : List ℕ
  area = meta_bytes order c.meta

  abbrev read_back : ContainerMeta
  read_back = record {
    id = some id;
    data_size = c.meta.data_size;
    chunk_num = c.meta.chunk_num;
    map = insert_all (order.iterate c.meta.map) [];
  }

  storable : All IsStorable (order.iterate c.meta.map)
  storable =
      All-of_lookup (order.iterate c.meta.map) (order.iterate-Distinct c.meta.map v.distinct)
        λ k me e.
          let inside =
            All-lookup c.meta.data_size k c.meta.map me v.inside
              (sym (order.lookup-iterate k c.meta.map v.distinct) ∙ e) in
          (inside.0, omega (arith, v.data_fits), omega (arith, v.data_fits), inside.2)

  pub lookup-read_back : (fp : ℕ) → lookup fp read_back.map ≡ lookup fp c.meta.map
  lookup-read_back fp =
      lookup-insert_all fp (order.iterate c.meta.map) []
        (order.iterate-Distinct c.meta.map v.distinct)
      ∙ rw (order.lookup-iterate fp c.meta.map v.distinct) (same (lookup fp c.meta.map))
    where
      same :
          (o : Option MetaEntry)
          → ◌≡◌ {A = Option MetaEntry} (elim o [ none ↦ lookup fp [] | some me ↦ some me ]) o
      same none = unfold lookup in refl
      same (some me) = refl

  length-area : length area ≡ 16 + c.meta.chunk_num * 28
  unfolding meta_bytes
  length-area = omega (
    arith,
    length-append (serial_int 8 (id_bits c.meta.id)) (
        serial_int 4 c.meta.chunk_num
        ++ (serial_int 4 c.meta.data_size ++ entries_bytes (order.iterate c.meta.map))),
    length-append (serial_int 4 c.meta.chunk_num)
        (serial_int 4 c.meta.data_size ++ entries_bytes (order.iterate c.meta.map)),
    length-append (serial_int 4 c.meta.data_size) (entries_bytes (order.iterate c.meta.map)),
    length-serial_int 8 (id_bits c.meta.id),
    length-serial_int 4 c.meta.chunk_num,
    length-serial_int 4 c.meta.data_size,
    length-entries_bytes (order.iterate c.meta.map),
    order.length-iterate c.meta.map,
    v.counted,
  )

  -- The metadata area, wherever it was stored, parses to `read_back`.
  parse :
      (off : ℕ) (m : Memory)
      → read_meta false id (load off container_meta_size (store off area m)) ≡ some read_back
  parse off m =
      let whole : container_meta_size ≡ length area + (container_meta_size - length area) =
        omega (arith, length-area, v.meta_fits) in
      let rest = load (off + length area) (container_meta_size - length area) (store off area m) in
      let split : load off container_meta_size (store off area m) ≡ area ++ rest =
        ap (λ n. load off n (store off area m)) whole
        ∙ load-add off (length area) (container_meta_size - length area) (store off area m)
        ∙ ap (λ bs. bs ++ rest) (load-store_self off area m) in
      rw split (
        read_meta-meta_bytes order c.meta id rest named (omega arith) (omega (arith, v.meta_fits))
          (omega (arith, v.data_fits)) (v.counted ∙ sym (order.length-iterate c.meta.map)) storable)

  module _ (st : Store) where
    abbrev real_file : Memory
    real_file =
        copy (id * container_size + 8) container_size
          (store (container_size - container_meta_size) area c.contents) st.file

    abbrev meta_file : Memory
    meta_file = copy (id * container_meta_size + 8) container_meta_size (store 0 area zeros) st.file

    abbrev pub written : ℕ → Store
    written level = record st {
      file = if ltb level simulation_append then real_file else meta_file;
    }

    pub write-written :
        (level : ℕ) → c.meta.chunk_num ≢ 0 → write_container order level c st ≡ some (written level)
    unfolding write_container
    write-written level used = ground (arith, length-area, v.meta_fits, v.counted, named)

    parse_real :
        read_meta false id (
          load
            (id * container_size + 8 + (container_size - container_meta_size))
            container_meta_size
            real_file)
        ≡ some read_back
    parse_real =
        rw
          (load-copy (id * container_size + 8) (container_size - container_meta_size)
            container_meta_size container_size
            (store (container_size - container_meta_size) area c.contents) st.file (omega arith))
          (parse (container_size - container_meta_size) c.contents)

    parse_simulated :
        (level : ℕ)
        → simulation_restore ≤ level
        → read_meta false id (load (meta_offset level id) container_meta_size (written level).file)
          ≡ some read_back
    parse_simulated level h = elim (Bool-cases (ltb level simulation_append)) [
      | inl one ↦
          let at : meta_offset level id
              ≡ id * container_size + 8 + (container_size - container_meta_size) =
            ground arith in
          rw (at, one) parse_real
      | inr more ↦
          let at : meta_offset level id ≡ id * container_meta_size + 8 + 0 = ground arith in
          rw (at, more)
            (rw
              (load-copy (id * container_meta_size + 8) 0 container_meta_size container_meta_size
                (store 0 area zeros) st.file (omega arith))
              (parse 0 zeros))
    ]

    abbrev pub returned : ℕ → Container
    returned level = record {
      meta = read_back;
      contents =
          if leb simulation_restore level
          then zeros
          else copy 0 container_size (λ p. (written level).file (id * container_size + 8 + p))
              zeros;
    }

    pub retrieve-returned :
        (level : ℕ) → retrieve_container_by_id level id (written level) ≡ some (returned level)
    unfolding retrieve_container_by_id
    retrieve-returned level = elim (Bool-cases (leb simulation_restore level)) [
      | inl sim ↦ ground (arith, parse_simulated level (omega (arith, leb→le _ _ sim)), v.meta_fits)
      | inr real ↦ ground (arith, parse_real, v.meta_fits)
    ]

    -- The buffer that the container was read into holds an entry's bytes.
    body :
        (level off len : ℕ)
        → level < simulation_restore
        → off + len ≤ container_size - container_meta_size
        → load off len
            (copy 0 container_size (λ p. (written level).file (id * container_size + 8 + p)) zeros)
          ≡ load off len c.contents
    body level off len real h =
        let low : ltb level simulation_append ≡ true = ground arith in
        load-copy_from (id * container_size + 8) off len container_size (written level).file zeros
          (omega arith)
        ∙ rw low (
            load-copy (id * container_size + 8) off len container_size
              (store (container_size - container_meta_size) area c.contents) st.file (omega arith)
            ∙ load-store_above off len (container_size - container_meta_size) area c.contents h)

    pub get-returned :
        (level stray fp : ℕ)
        → get_chunk_in_container level stray (returned level) fp
          ≡ get_chunk_in_container level stray c fp
    unfolding get_chunk_in_container
    get-returned level stray fp = elim (Option-cases (lookup fp c.meta.map)) [
      | inl absent ↦ ground (arith, lookup-read_back fp, absent)
      | inr (me, found) ↦
          let inside = All-lookup c.meta.data_size fp c.meta.map me v.inside found in
          elim (Bool-cases (ltb level simulation_restore)) [
            | inl real ↦ ground (
              arith,
              lookup-read_back fp,
              found,
              named,
              body level me.off me.len (ltb→lt _ _ real) (omega (arith, v.data_fits)),
            )
            | inr sim ↦ ground (arith, lookup-read_back fp, found, named)
          ]
    ]
