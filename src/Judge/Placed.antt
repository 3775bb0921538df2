-- ===== src/Judge/Placed.antt =====
-- How the loop of filter_phase.c writes a chunk to a container.
use destor_lt.Prelude.{
  ℕ, ◌≤◌, ◌≡◌, refl, ◌∙◌, ap, arith, Bool, true, false, ◌&&◌, ◌||◌, Option, none, some, List, ◌==◌,
  if◌then◌else◌, Bool-cases, inl, inr, ◌⊎◌, insert,
}
use destor_lt.Chunk.{Chunk}
use destor_lt.Storage.Container.{Container, lookup_fingerprint_in_container}
use destor_lt.Index.Behind.{Backend}
use destor_lt.Judge.{Config, Filter, take_added, put_chunk, count_added, is_writable, store_chunk}
use destor_lt.Judge.Located.{
  located, containers_of, open_has, IsNumbered, IsOpen, capacity, Added, add_chunk-Added,
  located_self, located-grow,
}
use destor_lt.Judge.Room.{all_of, Keeps, Taken, take_container-Taken}

or_held : (a b c d : Bool) → a ≡ (b || c) → a ≡ true → (b ≡ true → d ≡ true) → (d || c) ≡ true
or_held a true c d e h f = rw (f refl) refl
or_held a false true d e h f = ground arith
or_held a false false d e h f = absurd (ground arith)

-- A chunk gets the id, and the tables and the containers change as they should.
pub record Placed {σ : Type 0} (f : Filter σ) (c : Chunk) (id : ℕ) (after : Filter σ) : Type 0 where
  pub here : located id c.fp (all_of after) ≡ true
  pub keeps : Keeps f after
  pub held :
      (fp : ℕ)
      → open_has after.container_buffer fp ≡ true
      → (open_has f.container_buffer fp || (c.fp == fp)) ≡ true
  pub still : IsOpen after.container_buffer
  pub switched : after.enable_rewrite ≡ f.enable_rewrite
  pub monitored : after.monitor ≡ f.monitor
  pub unique : after.recently_unique_chunks ≡ (
      if c.flag.duplicate
      then f.recently_unique_chunks
      else insert c.fp (some id) f.recently_unique_chunks)
  pub rewritten :
      (after.recently_rewritten_chunks ≡ f.recently_rewritten_chunks)
      ⊎ (after.recently_rewritten_chunks ≡ insert c.fp (some id) f.recently_rewritten_chunks)

module _ {σ : Type 0} (backend : Backend σ) (sampling : List ℕ → List ℕ) (cfg : Config) where
  -- What counting does not touch, and what it does to the tables.
  record Counted (c : Chunk) (f g : Filter σ) : Type 0 where
    buffered : g.container_buffer ≡ f.container_buffer
    handed : g.written ≡ f.written
    enabled : g.enable_rewrite ≡ f.enable_rewrite
    watched : g.monitor ≡ f.monitor
    uniques : g.recently_unique_chunks ≡ (
        if c.flag.duplicate
        then f.recently_unique_chunks
        else insert c.fp c.id f.recently_unique_chunks)
    rewrites : g.recently_rewritten_chunks ≡ (
        if c.flag.duplicate
        then insert c.fp c.id f.recently_rewritten_chunks
        else f.recently_rewritten_chunks)

  count_added-Counted :
      (c : Chunk) (f : Filter σ) → Counted c f (count_added backend sampling cfg c f)
  unfolding count_added
  count_added-Counted c f = ground arith

  Added-IsNumbered :
      (level : ℕ) (c : Container) (ck : Chunk) (a : Added level c ck)
      → IsNumbered c
      → IsNumbered a.container
  Added-IsNumbered level c ck a n = record {
    number = n.number;
    numbered = a.same_id ∙ n.numbered;
    counted = a.still_counted n.counted;
    empty = λ e fp.
        let (was, old) = a.not_empty e in
        let new : a.added ≡ true = a.is_new (n.empty was ck.fp) in
        absurd (ground (arith, old, new));
  }

  -- The containers once the chunk is in the buffered one.
  record Filled (f : Filter σ) (c : Chunk) (id : ℕ) (b : Option Container)
      (written : List Container) : Type 0 where
    here : located id c.fp (containers_of b written) ≡ true
    keeps :
        (i fp : ℕ) → located i fp (all_of f) ≡ true → located i fp (containers_of b written) ≡ true
    held : (fp : ℕ) → open_has b fp ≡ true → (open_has f.container_buffer fp || (c.fp == fp)) ≡ true
    still : IsOpen b

  Added-Filled :
      (level : ℕ) (f : Filter σ) (c : Chunk) (t : Taken backend sampling cfg c.size f)
      (a : Added level t.container c)
      → Filled f c t.numbered.number (some a.container) t.after.written
  Added-Filled level f c t a = record {
    here =
        located_self t.numbered.number c.fp a.container t.after.written
          (a.same_id ∙ t.numbered.numbered) a.has_it;
    keeps = λ i fp l.
        located-grow i fp t.container a.container t.after.written a.same_id
          (λ h. ground (arith, a.has fp, h)) (t.keeps i fp l);
    held = λ fp h. or_held _ _ _ _ (a.has fp) h (t.held fp);
    still = Added-IsNumbered level t.container c a t.numbered;
  }

  new-Placed :
      (f g h : Filter σ) (c : Chunk) (id : ℕ)
      → Filled f c id g.container_buffer g.written
      → g.recently_unique_chunks ≡ f.recently_unique_chunks
      → g.recently_rewritten_chunks ≡ f.recently_rewritten_chunks
      → g.enable_rewrite ≡ f.enable_rewrite
      → g.monitor ≡ f.monitor
      → Counted (record c { id = some id }) g h
      → Placed f c id h
  new-Placed f g h c id a u r e m k = record {
    here = rw (k.buffered, k.handed) a.here;
    keeps = λ i fp l. rw (k.buffered, k.handed) (a.keeps i fp l);
    held = λ fp l. a.held fp (rw (← k.buffered) l);
    still = rw (k.buffered) a.still;
    switched = k.enabled ∙ e;
    monitored = k.watched ∙ m;
    unique = rw (k.uniques, u) refl;
    rewritten = elim (Bool-cases c.flag.duplicate) [
      | inl again ↦ inr (rw (k.rewrites, again, r) refl)
      | inr once ↦ inl (rw (k.rewrites, once, r) refl)
    ];
  }

  -- A chunk that its container has is no unique one.
  old-duplicate :
      (level : ℕ) (f : Filter σ) (c : Chunk) (t : Taken backend sampling cfg c.size f)
      (a : Added level t.container c)
      → (c.flag.duplicate ≡ false → open_has f.container_buffer c.fp ≡ false)
      → a.added ≡ false
      → c.flag.duplicate ≡ true
  old-duplicate level f c t a fresh old = elim (Bool-cases c.flag.duplicate) [
    | inl again ↦ again
    | inr once ↦ elim (Bool-cases (lookup_fingerprint_in_container t.container c.fp)) [
      | inl there ↦
          let was = t.held c.fp there in
          let not_there = fresh once in absurd (ground (arith, was, not_there))
      | inr absent ↦ let new = a.is_new absent in absurd (ground (arith, new, old))
    ]
  ]

  open-is_writable :
      (size : ℕ) (b : Option Container) → IsOpen b → is_writable backend sampling cfg size b ≡ true
  unfolding is_writable
  open-is_writable size none o = refl
  open-is_writable size (some k) o = ground (arith, o.counted)

  pub store_chunk-Placed :
      (c : Chunk) (f : Filter σ)
      → (cfg.exact && cfg.rewrite_no) ≡ false
      → c.size ≤ capacity
      → IsOpen f.container_buffer
      → (c.flag.duplicate ≡ false → open_has f.container_buffer c.fp ≡ false)
      → (id : ℕ) × (after : Filter σ) × (store_chunk backend sampling cfg c f
          ≡ some (record c { id = some id }, after))
        × Placed f c id after
  unfolding put_chunk store_chunk take_added
  store_chunk-Placed c f plain fits o fresh =
      let t = take_container-Taken backend sampling cfg c.size f fits o in
      let a = add_chunk-Added cfg.simulation_level t.container c t.room in
      let id = t.numbered.number in
      let c' : Chunk = record c { id = some id } in
      let g : Filter σ = record t.after { container_buffer = some a.container } in
      let all = Added-Filled cfg.simulation_level f c t a in
      let gives : store_chunk backend sampling cfg c f
          ≡ take_added backend sampling cfg t.after (some (a.container, c', a.added)) =
        rw (store_chunk, open-is_writable c.size f.container_buffer o) refl
        ∙ ap (put_chunk backend sampling cfg c) t.gives
        ∙ (ap (take_added backend sampling cfg t.after) a.gives
            ∙ ap
                (λ i.
                  take_added backend sampling cfg t.after
                    (some (a.container, record c { id = i }, a.added)))
                t.numbered.numbered) in
      elim (Bool-cases a.added) [
        | inl new ↦
            let k = count_added-Counted c' g in
            (
              id,
              count_added backend sampling cfg c' g,
              gives
                  ∙ ap (λ b. take_added backend sampling cfg t.after (some (a.container, c', b)))
                      new,
              new-Placed f g (count_added backend sampling cfg c' g) c id all t.same.unique
                  t.same.rewritten t.same.switched t.same.monitored k,
            )
        | inr old ↦ (
          id,
          g,
          gives
              ∙ (ap (λ b. take_added backend sampling cfg t.after (some (a.container, c', b))) old
                  ∙ rw (plain) refl),
          record {
            here = all.here;
            keeps = all.keeps;
            held = all.held;
            still = all.still;
            switched = t.same.switched;
            monitored = t.same.monitored;
            unique = rw (old-duplicate cfg.simulation_level f c t a fresh old, t.same.unique) refl;
            rewritten = inl t.same.rewritten;
          },
        )
      ]
