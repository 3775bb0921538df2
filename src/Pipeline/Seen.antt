-- ===== src/Pipeline/Seen.antt =====
-- What the index buffer and the open container tell of a chunk that is looked up (index/index.c).
use destor_lt.Prelude.{
  ℕ, ◌≡◌, refl, subst, sym, arith, true, false, Option, none, some, List, [], ◌∷◌, Bool-cases, inl,
  inr,
}
use destor_lt.Chunk.{Chunk, ContainerId, is_file_signal}
use destor_lt.Storage.Container.{Container, lookup_fingerprint_in_container}
use destor_lt.Index.{IndexElem, check_storage, check_buffered, is_temporary}
use destor_lt.Index.Counts.{head_id}
use destor_lt.Judge.Located.{
  containers_of, open_has, IsLocated, IsNumbered, IsOpen, located_self, located-cons,
}

-- A chunk as the chunking phase sends it.
abbrev pub IsFresh : Chunk → Type 0
IsFresh c = (c.flag.duplicate ≡ false) × (c.id ≡ none)

-- A chunk while it is looked up, with the queue of its fingerprint.
pub record Seen (open_one : Option Container) (cs : List Container) (q : List IndexElem)
    (c c' : Chunk) : Type 0 where
  pub fp : c'.fp ≡ c.fp
  pub size : c'.size ≡ c.size
  pub signal : is_file_signal c' ≡ is_file_signal c
  pub place : IsLocated cs c.fp c'.id
  pub unique : c'.flag.duplicate ≡ false → (open_has open_one c.fp ≡ false) × (q ≡ [])
  pub named : c'.flag.duplicate ≡ true → q ≡ [] → is_temporary c'.id ≡ false

buffered-Seen :
    (o : Option Container) (cs : List Container) (q : List IndexElem) (c : Chunk)
    → IsFresh c
    → IsLocated cs c.fp (head_id q)
    → open_has o c.fp ≡ false
    → Seen o cs q c (check_buffered q c)
unfolding check_buffered
buffered-Seen o cs [] c fresh l h = record {
  fp = refl;
  size = refl;
  signal = refl;
  place = rw (fresh.1) tt;
  unique = λ d. (h, refl);
  named = λ d e. absurd (ground (arith, d, fresh.0));
}
buffered-Seen o cs (be ∷ q) c fresh l h = rw (fresh.0) (record {
  fp = refl;
  size = refl;
  signal = refl;
  place = l;
  unique = λ d. absurd (ground (arith, d));
  named = λ d e. absurd (ground (arith, e));
})

stored-Seen :
    (k : Container) (written : List Container) (q : List IndexElem) (c : Chunk)
    → IsNumbered k
    → lookup_fingerprint_in_container k c.fp ≡ true
    → Seen (some k) (k ∷ written) q c (
        check_buffered q (record c {
          id = k.meta.id;
          flag = record c.flag { duplicate = true; rewrite_denied = true };
        }))
unfolding check_buffered
stored-Seen k written [] c n h = record {
  fp = refl;
  size = refl;
  signal = refl;
  place =
      subst (IsLocated (k ∷ written) c.fp) (sym n.numbered)
        (located_self n.number c.fp k written n.numbered h);
  unique = λ d. absurd (ground (arith, d));
  named = λ d e. rw (n.numbered) refl;
}
stored-Seen k written (be ∷ q) c n h = record {
  fp = refl;
  size = refl;
  signal = refl;
  place =
      subst (IsLocated (k ∷ written) c.fp) (sym n.numbered)
        (located_self n.number c.fp k written n.numbered h);
  unique = λ d. absurd (ground (arith, d));
  named = λ d e. rw (n.numbered) refl;
}

pub checked-Seen :
    (o : Option Container) (written : List Container) (q : List IndexElem) (c : Chunk)
    → IsOpen o
    → IsFresh c
    → IsLocated (containers_of o written) c.fp (head_id q)
    → Seen o (containers_of o written) q c (check_buffered q (check_storage o c))
unfolding check_storage
checked-Seen none written q c n fresh l = buffered-Seen none written q c fresh l refl
checked-Seen (some k) written q c n fresh l =
    elim (Bool-cases (lookup_fingerprint_in_container k c.fp)) [
      | inl there ↦ rw (there) (stored-Seen k written q c n there)
      | inr absent ↦ rw (absent) (buffered-Seen (some k) (k ∷ written) q c fresh l absent)
    ]

pub written-IsLocated :
    (o : Option Container) (w : List Container) (fp : ℕ) (id : ContainerId)
    → IsLocated w fp id
    → IsLocated (containers_of o w) fp id
written-IsLocated o w fp none l = tt
written-IsLocated none w fp (some id) l = l
written-IsLocated (some k) w fp (some id) l = located-cons id fp k w l
