-- ===== src/Judge/Room.antt =====
-- The container that a chunk goes to in the loop of filter_phase.c.
use destor_lt.Prelude.{
  ℕ, ◌≤◌, ◌≡◌, refl, subst, sym, ◌∙◌, ap, arith, true, false, Option, none, some, List, [], ◌∷◌,
  if◌then◌else◌, Bool-cases, Option-cases, inl, inr,
}
use destor_lt.Storage.Container.{
  Container, create_container, container_empty, container_overflow, lookup_fingerprint_in_container,
}
use destor_lt.Index.Behind.{Backend}
use destor_lt.Judge.{
  Config, Filter, hand_over, index_container, open_container, current_container, take_container,
  make_room,
}
use destor_lt.Judge.Located.{
  located, containers_of, open_has, IsNumbered, IsOpen, create_container-IsNumbered,
  create_container-has, create_container-fits, capacity, located-cons,
}

module _ {σ : Type 0} where
  -- The containers of the phase.
  abbrev pub all_of : Filter σ → List Container
  all_of f = containers_of f.container_buffer f.written

  -- Whatever is located stays located.
  abbrev pub Keeps : Filter σ → Filter σ → Type 0
  Keeps f g = (id fp : ℕ) → located id fp (all_of f) ≡ true → located id fp (all_of g) ≡ true

  -- The loop's state apart from its containers and what is behind them.
  pub record Same (f g : Filter σ) : Type 0 where
    pub unique : g.recently_unique_chunks ≡ f.recently_unique_chunks
    pub rewritten : g.recently_rewritten_chunks ≡ f.recently_rewritten_chunks
    pub switched : g.enable_rewrite ≡ f.enable_rewrite
    pub monitored : g.monitor ≡ f.monitor

module _ {σ : Type 0} (backend : Backend σ) (sampling : List ℕ → List ℕ) (cfg : Config) where
  -- The container that a chunk is to be added to, before it becomes the buffered one.
  pub record Taken (size : ℕ) (f : Filter σ) : Type 0 where
    pub container : Container
    pub after : Filter σ
    pub gives : take_container backend sampling cfg size f ≡ (container, after)
    pub numbered : IsNumbered container
    pub room : container_overflow container size ≡ false
    pub keeps :
        (id fp : ℕ)
        → located id fp (all_of f) ≡ true
        → located id fp (container ∷ after.written) ≡ true
    pub held :
        (fp : ℕ)
        → lookup_fingerprint_in_container container fp ≡ true
        → open_has f.container_buffer fp ≡ true
    pub same : Same f after

  -- A new container takes the chunk.
  fresh-Taken :
      (size : ℕ) (f g : Filter σ)
      → size ≤ capacity
      → take_container backend sampling cfg size f ≡ open_container backend sampling cfg g
      → ((id fp : ℕ) → located id fp (all_of f) ≡ true → located id fp g.written ≡ true)
      → Same f g
      → Taken size f
  unfolding open_container
  fresh-Taken size f g fits e keeps same = record {
    container = (create_container g.container_count).0;
    after = (open_container backend sampling cfg g).1;
    gives = e;
    numbered = create_container-IsNumbered g.container_count;
    room = create_container-fits g.container_count size fits;
    keeps = λ id fp l.
        located-cons id fp (create_container g.container_count).0 g.written (keeps id fp l);
    held = λ fp h. absurd (ground (arith, h, create_container-has g.container_count fp));
    same = record {
      unique = same.unique;
      rewritten = same.rewritten;
      switched = same.switched;
      monitored = same.monitored;
    };
  }

  closed_file : Filter σ → Filter σ
  closed_file f = if cfg.physical_locality then record f { chunks = [] } else f

  closed_file-Same : (f : Filter σ) → Same f (closed_file f) × ((closed_file f).written ≡ f.written)
  unfolding closed_file
  closed_file-Same f = ground arith

  handed-Same :
      (c : Container) (f : Filter σ)
      → Same f (hand_over backend sampling cfg c (index_container backend sampling cfg c f))
  unfolding hand_over index_container
  handed-Same c f = ground arith

  pub handed-keeps :
      (c : Container) (f : Filter σ)
      → IsNumbered c
      → (id fp : ℕ) → located id fp (c ∷ f.written) ≡ true
      → located id fp
          (hand_over backend sampling cfg c (index_container backend sampling cfg c f)).written
        ≡ true
  unfolding hand_over index_container located
  handed-keeps c f n id fp l = elim (Bool-cases (container_empty c)) [
    | inl none_in ↦ ground (arith, n.empty none_in fp, l, none_in)
    | inr some_in ↦ ground (arith, some_in, l)
  ]

  taken_of :
      (size : ℕ) (f : Filter σ) (b : Option Container)
      → f.container_buffer ≡ b
      → take_container backend sampling cfg size f
        ≡ make_room backend sampling cfg size (current_container backend sampling cfg b f)
  unfolding take_container
  taken_of size f b e =
      ap (λ o. make_room backend sampling cfg size (current_container backend sampling cfg o f)) e

  make_room-room :
      (size : ℕ) (c : Container) (f : Filter σ)
      → container_overflow c size ≡ false
      → make_room backend sampling cfg size (c, f) ≡ (c, f)
  unfolding make_room
  make_room-room size c f room = rw (room) refl

  make_room-over :
      (size : ℕ) (c : Container) (f : Filter σ)
      → container_overflow c size ≡ true
      → make_room backend sampling cfg size (c, f)
        ≡ open_container backend sampling cfg
            (hand_over backend sampling cfg c (index_container backend sampling cfg c f))
  unfolding make_room
  make_room-over size c f over = rw (over) refl

  closed-gives :
      (size : ℕ) (g : Filter σ)
      → size ≤ capacity
      → make_room backend sampling cfg size (open_container backend sampling cfg g)
        ≡ open_container backend sampling cfg g
  unfolding open_container
  closed-gives size g fits =
      make_room-room size (create_container g.container_count).0
        (open_container backend sampling cfg g).1
        (create_container-fits g.container_count size fits)

  pub take_container-Taken :
      (size : ℕ) (f : Filter σ) → size ≤ capacity → IsOpen f.container_buffer → Taken size f
  unfolding current_container closed_file
  take_container-Taken size f fits o = elim (Option-cases f.container_buffer) [
    | inl closed ↦
        fresh-Taken size f (closed_file f) fits
          (taken_of size f none closed ∙ closed-gives size (closed_file f) fits)
          (λ id fp l.
            subst (λ (w : List Container). located id fp w ≡ true) (sym (closed_file-Same f).1)
              (subst (λ (b : Option Container). located id fp (containers_of b f.written) ≡ true)
                closed l))
          (closed_file-Same f).0
    | inr (c, opened) ↦ elim (Bool-cases (container_overflow c size)) [
      | inl over ↦
          fresh-Taken size f
            (hand_over backend sampling cfg c (index_container backend sampling cfg c f)) fits
            (taken_of size f (some c) opened ∙ make_room-over size c f over)
            (λ id fp l. handed-keeps c f (subst IsOpen opened o) id fp (
              subst (λ (b : Option Container). located id fp (containers_of b f.written) ≡ true)
                opened l))
            (handed-Same c f)
      | inr room ↦ record {
        container = c;
        after = f;
        gives = taken_of size f (some c) opened ∙ make_room-room size c f room;
        numbered = subst IsOpen opened o;
        room = room;
        keeps = λ id fp l.
            subst (λ (b : Option Container). located id fp (containers_of b f.written) ≡ true)
              opened l;
        held = λ fp h. rw (opened) h;
        same = record { unique = refl; rewritten = refl; switched = refl; monitored = refl };
      }
    ]
  ]
