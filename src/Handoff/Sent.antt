-- ===== src/Handoff/Sent.antt =====
-- What dedup_phase.c sends of the segments that it has looked up.
use destor_lt.Prelude.{
  ℕ, ◌≡◌, refl, sym, ap, ◌∙◌, arith, Bool, false, Option, none, some, List, [], ◌∷◌, ◌++◌, map,
  map-append, All, sum_by,
}
use destor_lt.Chunk.{Chunk, ContainerId, is_file_signal}
use destor_lt.Storage.Container.{Container}
use destor_lt.Segment.{Segment}
use destor_lt.Segment.Stream.{all_chunks}
use destor_lt.Segment.Bounds.{IsCounted, file_chunk}
use destor_lt.Rewrite.Buffer.Balance.{IsTidy, IsNear, normal_size}
use destor_lt.Rewrite.Buffer.Moves.{IsSmall}
use destor_lt.Index.{Index, index_lookup_base}
use destor_lt.Index.Behind.{Backend}
use destor_lt.Handoff.Looked.{
  bare, IsLooked, IsRaw, list_cong, AllFound, index_lookup_base-AllFound,
}
use destor_lt.Handoff.Received.{IsSent}

-- What no phase changes of a chunk on its way.
abbrev pub trace : Chunk → ℕ × ℕ × Bool
trace c = (c.fp, c.size, is_file_signal c)

abbrev IsInner : Chunk → Type 0
IsInner c = c.flag.segment_end ≡ false

module _ {σ : Type 0} (backend : Backend σ) (start : ℕ) where
  -- The lookups that `dedup_thread` makes of its segments, each in some state of the index and with
  -- some open container, as the other phases leave them; a segment that counts no chunk is sent as it is.
  pub data Lookups : List Segment → List Segment → Type 0 where
    no_lookups : Lookups [] []
    skips :
        (s : Segment) {ss ts : List Segment}
        → s.chunk_num ≡ 0
        → Lookups ss ts
        → Lookups (s ∷ ss) (s ∷ ts)
    looks_up :
        (s : Segment) (o : Option Container) (ix ix' : Index σ) (cs : List Chunk)
        {ss ts : List Segment}
        → index_lookup_base backend start o s.chunks ix ≡ some (cs, ix')
        → Lookups ss ts
        → Lookups (s ∷ ss) (record s { chunks = cs } ∷ ts)

pub map_parts :
    (p q r t : List Chunk)
    → map trace p ≡ map trace q
    → map trace r ≡ map trace t
    → map trace (p ++ r) ≡ map trace (q ++ t)
map_parts p q r t e f = map-append trace p r ∙ (λ i. e i ++ f i) ∙ sym (map-append trace q t)

module _ {B : Type 0} (see : Chunk → B) where
  see-bare :
      ((c : Chunk) → see (bare c) ≡ see c) → (cs : List Chunk) → map see (map bare cs) ≡ map see cs
  see-bare keeps [] = refl
  see-bare keeps (c ∷ cs) = list_cong (keeps c) (see-bare keeps cs)

  -- Whatever is seen of a chunk without what the lookup finds is the same behind the lookup.
  seen_behind :
      ((c : Chunk) → see (bare c) ≡ see c)
      → (cs cs' : List Chunk) → map bare cs' ≡ map bare cs
      → map see cs' ≡ map see cs
  seen_behind keeps cs cs' e = sym (see-bare keeps cs') ∙ ap (map see) e ∙ see-bare keeps cs

pub ends : Chunk → Bool
ends c = c.flag.segment_end

ends-IsInner : (cs ds : List Chunk) → map ends ds ≡ map ends cs → All IsInner cs → All IsInner ds
unfolding ends
ends-IsInner [] [] e h = tt
ends-IsInner [] (d ∷ ds) e h = absurd (ground (arith, e))
ends-IsInner (c ∷ cs) [] e h = absurd (ground (arith, e))
ends-IsInner (c ∷ cs) (d ∷ ds) e (h, hs) =
    let first : d.flag.segment_end ≡ c.flag.segment_end = ground (arith, e) in
    let rest : map ends ds ≡ map ends cs = ground (arith, e) in
    (first ∙ h, ends-IsInner cs ds rest hs)

count_all :
    (cs ds : List Chunk)
    → map file_chunk ds ≡ map file_chunk cs
    → sum_by file_chunk ds ≡ sum_by file_chunk cs
count_all [] [] e = refl
count_all [] (d ∷ ds) e = absurd (ground (arith, e))
count_all (c ∷ cs) [] e = absurd (ground (arith, e))
count_all (c ∷ cs) (d ∷ ds) e =
    let first : file_chunk d ≡ file_chunk c = ground (arith, e) in
    let rest : map file_chunk ds ≡ map file_chunk cs = ground (arith, e) in
    omega (arith, first, count_all cs ds rest)

-- A chunk of the stream that enters the phase.
abbrev pub IsInput : Chunk → Type 0
IsInput c = IsRaw c × IsInner c

looked-IsTidy : (c : Chunk) (id : ContainerId) → c.id ≡ id → IsLooked c → IsNear id → IsTidy c
looked-IsTidy c none e l near = ground arith
looked-IsTidy c (some cid) e l near = ground arith

-- The id that a chunk has, if any, is below 2 ^ 31.
abbrev pub HasNear : Chunk → Type 0
HasNear c = IsNear c.id

all_looked-IsTidy : (cs : List Chunk) → All IsLooked cs → All HasNear cs → All IsTidy cs
all_looked-IsTidy [] l near = tt
all_looked-IsTidy (c ∷ cs) (l, ls) (near, nears) =
    (looked-IsTidy c c.id refl l near, all_looked-IsTidy cs ls nears)

split-IsInput : (cs : List Chunk) → All IsInput cs → All IsRaw cs × All IsTidy cs × All IsInner cs
split-IsInput [] h = (tt, tt, tt)
split-IsInput (c ∷ cs) ((raw, inner), hs) =
    let (raws, tidy, inners) = split-IsInput cs hs in
    ((raw, raws), (looked-IsTidy c none raw.1 raw.0 tt, tidy), (inner, inners))

IsSmall-all :
    (largest : ℕ) (cs ds : List Chunk)
    → map normal_size ds ≡ map normal_size cs
    → All (IsSmall largest) cs
    → All (IsSmall largest) ds
IsSmall-all largest [] [] e h = tt
IsSmall-all largest [] (d ∷ ds) e h = absurd (ground (arith, e))
IsSmall-all largest (c ∷ cs) [] e h = absurd (ground (arith, e))
IsSmall-all largest (c ∷ cs) (d ∷ ds) e (h, hs) =
    let first : normal_size d ≡ normal_size c = ground (arith, e) in
    let rest : map normal_size ds ≡ map normal_size cs = ground (arith, e) in
    (omega (arith, first, h), IsSmall-all largest cs ds rest hs)

found-IsSent :
    (largest : ℕ) (s : Segment) (cs : List Chunk)
    → All IsInput s.chunks
    → All (IsSmall largest) s.chunks
    → IsCounted s
    → AllFound s.chunks cs
    → All HasNear cs
    → IsSent largest (record s { chunks = cs })
found-IsSent largest s cs h small counted f near = record {
  tidy = all_looked-IsTidy cs f.looked near;
  small =
      IsSmall-all largest s.chunks cs (seen_behind normal_size (λ c. refl) s.chunks cs f.same)
        small;
  inner =
      ends-IsInner s.chunks cs (seen_behind ends (unfold ends in λ c. refl) s.chunks cs f.same)
        (split-IsInput s.chunks h).2;
  counted =
      counted ∙ sym (count_all s.chunks cs (seen_behind file_chunk (λ c. refl) s.chunks cs f.same));
}

skipped-IsSent :
    (largest : ℕ) (s : Segment)
    → All IsInput s.chunks
    → All (IsSmall largest) s.chunks
    → IsCounted s
    → IsSent largest s
skipped-IsSent largest s h small counted =
    let (_, tidy, inner) = split-IsInput s.chunks h in
    record { tidy = tidy; small = small; inner = inner; counted = counted }

module _ {σ : Type 0} (backend : Backend σ) (start : ℕ) (largest : ℕ) where
  pub Lookups-IsSent :
      {ss ts : List Segment}
      → Lookups backend start ss ts
      → All (λ (s : Segment). All IsInput s.chunks) ss
      → All (λ (s : Segment). All (IsSmall largest) s.chunks) ss
      → All IsCounted ss
      → All (λ (s : Segment). All HasNear s.chunks) ts
      → All (IsSent largest) ts
        × (map trace (all_chunks ts) ≡ map trace (all_chunks ss))
        × (map (λ s. s.chunk_num) ts ≡ map (λ s. s.chunk_num) ss)
  Lookups-IsSent no_lookups h b n near = (tt, refl, refl)
  Lookups-IsSent (skips s {ss} {ts} e l) (h, hs) (b, bs) (n, ns) (near, nears) =
      let (sent, same, nums) = Lookups-IsSent l hs bs ns nears in
      (
        (skipped-IsSent largest s h b n, sent),
        map_parts s.chunks s.chunks (all_chunks ts) (all_chunks ss) refl same,
        list_cong refl nums,
      )
  Lookups-IsSent (looks_up s o ix ix' cs {ss} {ts} e l) (h, hs) (b, bs) (n, ns) (near, nears) =
      let (sent, same, nums) = Lookups-IsSent l hs bs ns nears in
      let f =
        index_lookup_base-AllFound backend start o s.chunks cs ix ix' (split-IsInput s.chunks h).0
          e in
      (
        (found-IsSent largest s cs h b n f near, sent),
        map_parts cs s.chunks (all_chunks ts) (all_chunks ss)
            (seen_behind trace (λ c. refl) s.chunks cs f.same) same,
        list_cong refl nums,
      )
