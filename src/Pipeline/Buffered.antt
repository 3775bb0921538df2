-- ===== src/Pipeline/Buffered.antt =====
-- What the index buffer and the containers have to do with the chunks that are looked up and not
-- filtered yet.
use destor_lt.Prelude.{ℕ, ◌≡◌, refl, ◌∙◌, arith, Option, List, [], ◌∷◌, ◌++◌, length, All, Distinct}
use destor_lt.Chunk.{Chunk}
use destor_lt.Storage.Container.{Container}
use destor_lt.Index.{IndexBuffer, queue_of}
use destor_lt.Index.Counts.{count, total, has_id}
use destor_lt.Index.Order.{is_duplicate}
use destor_lt.Index.Check.{Heads}
use destor_lt.Judge.Located.{containers_of, open_has}
use destor_lt.Judge.Settled.{Kept}
use destor_lt.Judge.Loop.{Ready, AllKept, kept_nil, kept_cons, IsPlaced}

-- Each fingerprint has an element for each of its chunks; the heads and the chunks have the ids of
-- containers that hold them; a unique chunk is the first with its fingerprint and not in the buffered
-- container; and a duplicate comes behind a unique one unless the head of its queue has an id.
pub record Buffered (buffered : Option Container) (written : List Container) (b : IndexBuffer)
    (p : List Chunk) : Type 0 where
  pub counted : (fp : ℕ) → length (queue_of fp b) ≡ count fp p
  pub all_counted : b.chunk_num ≡ total p
  pub distinct : Distinct b.buffered_fingerprints
  pub heads : Heads (containers_of buffered written) b
  pub placed : All (IsPlaced (containers_of buffered written)) p
  pub ready : Ready is_duplicate (open_has buffered) (has_id b) p

pub All-split {κ} :
    {A : Type 0} (P : A → Type κ) (xs ys : List A) → All P (xs ++ ys) → All P xs × All P ys
All-split P [] ys a = (tt, a)
All-split P (x ∷ xs) ys a = let (l, r) = All-split P xs ys a.1 in ((a.0, l), r)

Kept-trans : (c d e : Chunk) → Kept c d → Kept d e → Kept c e
Kept-trans c d e j k = record {
  fp = k.fp ∙ j.fp;
  duplicate = k.duplicate ∙ j.duplicate;
  signal = k.signal ∙ j.signal;
  size = k.size ∙ j.size;
}

pub AllKept-trans : {s t u : List Chunk} → AllKept s t → AllKept t u → AllKept s u
AllKept-trans kept_nil kept_nil = kept_nil
AllKept-trans (kept_cons {c} {d} j a) (kept_cons {d = e} k b) =
    kept_cons (Kept-trans c d e j k) (AllKept-trans a b)

pub count-AllKept : {s t : List Chunk} (fp : ℕ) → AllKept s t → count fp t ≡ count fp s
unfolding count
count-AllKept fp kept_nil = refl
count-AllKept fp (kept_cons k a) = ground (arith, k.fp, k.signal, count-AllKept fp a)

pub total-AllKept : {s t : List Chunk} → AllKept s t → total t ≡ total s
unfolding total
total-AllKept kept_nil = refl
total-AllKept (kept_cons k a) = ground (arith, k.signal, total-AllKept a)
