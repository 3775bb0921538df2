-- ===== src/Rewrite/Cap/Top.antt =====
-- The containers that cap_rewrite.c keeps: the table `top`.
use destor_lt.Prelude.{
  ℕ, zero, suc, ◌+◌, ◌≡◌, ◌≢◌, ◌≤◌, refl, ◌∙◌, true, false, min, none, some, Option-cases,
  ℕ_discrete, inl, inr, [], ◌∷◌, arith, length, lookup, insert, lookup-insert, Distinct, sum_by,
}
use destor_lt.Rewrite.Records.{ContainerRecord, Records, is_ascending}
use destor_lt.Rewrite.Buffer.{RewriteBuffer}
use destor_lt.Rewrite.Buffer.Balance.{IsBalanced, IsRecordOf, share}
use destor_lt.Rewrite.Cap.{Config, add_top, top_num, cap_segment_get_top}

length-insert_le :
    (cid : ℕ) (r : ContainerRecord) (top : Records) → length (insert cid r top) ≤ length top + 1
unfolding insert
length-insert_le cid r [] = omega arith
length-insert_le cid r ((j, w) ∷ top) = ground (arith, length-insert_le cid r top)

-- Sorted by size, the largest first.
abbrev pub IsDescending : Records → Type 0
IsDescending [] = Unit
IsDescending ((k, r) ∷ seq) =
    ((j : ℕ) (s : ContainerRecord) → lookup j seq ≡ some s → s.size ≤ r.size) × IsDescending seq

-- Sorting by length puts the largest first, and sorting by id makes the sequence one for lookups again.
pub record Sorts (cfg : Config) : Type 0 where
  pub descending : (seq : Records) → Distinct seq → IsDescending (cfg.by_length.sort seq)
  pub ascending : (seq : Records) → Distinct seq → is_ascending (cfg.by_id.sort seq) ≡ true

length-insert_new :
    (cid : ℕ) (r : ContainerRecord) (top : Records)
    → lookup cid top ≡ none
    → length (insert cid r top) ≡ length top + 1
unfolding insert lookup
length-insert_new cid r [] new = refl
length-insert_new cid r ((j, w) ∷ top) new = ground (arith, length-insert_new cid r top)

-- Distinct records that are not in `top` are all added.
length-add_top :
    (num : ℕ) (seq top top' : Records)
    → Distinct seq
    → ((k : ℕ) (r : ContainerRecord) → lookup k seq ≡ some r → lookup k top ≡ none)
    → add_top num seq top ≡ some top'
    → length top' ≡ length top + num
unfolding add_top lookup
length-add_top zero seq top top' d fresh e = ground (arith, e)
length-add_top (suc num) [] top top' d fresh e = absurd (ground (arith, e))
length-add_top (suc num) ((cid, r) ∷ seq) top top' d fresh e =
    let kept : ContainerRecord = record r { out_of_order = false } in
    let new : lookup cid top ≡ none = fresh cid r (ground arith) in
    let others : (k : ℕ) (s : ContainerRecord)
        → lookup k seq ≡ some s
        → lookup k (insert cid kept top) ≡ none =
      λ k s found. ground (arith, lookup-insert cid k kept top, fresh k s, d.0, found) in
    omega (
      arith,
      length-add_top num seq (insert cid kept top) top' d.1 others e,
      length-insert_new cid kept top new,
    )

-- What a loop over `seq` adds to `top`: few records, those of the largest sizes.
pub record Added (num : ℕ) (seq top top' : Records) : Type 0 where
  pub few : length top' ≤ length top + num
  pub old : (k : ℕ) → lookup k top' ≡ none → lookup k top ≡ none
  pub from :
      (k : ℕ) (r : ContainerRecord)
      → lookup k top' ≡ some r
      → lookup k top ≡ none
      → (s : ContainerRecord) × (lookup k seq ≡ some s)
  pub largest :
      (j k : ℕ) (r s : ContainerRecord)
      → lookup j seq ≡ some r
      → lookup j top' ≡ none
      → lookup k seq ≡ some s
      → lookup k top' ≢ none
      → lookup k top ≡ none
      → r.size ≤ s.size

from_step :
    (cid k : ℕ) (kept r : ContainerRecord) (seq top top' : Records) (s : ContainerRecord) {num : ℕ}
    → Added num seq (insert cid kept top) top'
    → lookup k top' ≡ some s
    → lookup k top ≡ none
    → (t : ContainerRecord) × (lookup k ((cid, r) ∷ seq) ≡ some t)
unfolding lookup
from_step cid k kept r seq top top' s a e f = elim (ℕ_discrete cid k) [
  | yes same ↦ (r, ground arith)
  | no other ↦
      let (t, found) = a.from k s e (ground (arith, lookup-insert cid k kept top)) in
      (t, ground arith)
]

add_top-Added :
    (num : ℕ) (seq top : Records)
    → num ≤ length seq
    → IsDescending seq
    → Distinct seq
    → (top' : Records) × (add_top num seq top ≡ some top') × Added num seq top top'
unfolding add_top lookup
add_top-Added zero seq top h desc d = (
  top,
  refl,
  record {
    few = omega arith;
    old = λ k e. e;
    from = λ k r e f. absurd (ground arith);
    largest = λ j k r s a b c e f. absurd (e f);
  },
)
add_top-Added (suc num) [] top h desc d = absurd (omega arith)
add_top-Added (suc num) ((cid, r) ∷ seq) top h desc d =
    let kept : ContainerRecord = record r { out_of_order = false } in
    let (top', e, a) = add_top-Added num seq (insert cid kept top) (omega arith) desc.1 d.1 in
    (
      top',
      e,
      record {
        few = omega (arith, a.few, length-insert_le cid kept top);
        old = λ k out. ground (arith, a.old k out, lookup-insert cid k kept top);
        from = λ k s e f. from_step cid k kept r seq top top' s a e f;
        largest = λ j k t s in_seq out also_in in' fresh. ground (
          arith,
          a.old j out,
          a.largest j k t s,
          desc.0 j t,
          lookup-insert cid j kept top,
          lookup-insert cid k kept top,
        );
      },
    )

-- What `top` and the buffer are after the selection: `top` holds as many containers as
-- there are, up to the capping level, and the pending
-- chunks refer to none outside it more, in bytes, than to one in it.
pub record Selected (cfg : Config) (b : RewriteBuffer) (top : Records) (b' : RewriteBuffer)
    : Type 0 where
  pub number : length top ≡ min cfg.rewrite_capping_level (length b.container_record_seq)
  pub largest :
      (j k : ℕ)
      → lookup j top ≡ none
      → lookup k top ≢ none
      → sum_by (share j) b.chunk_queue ≤ sum_by (share k) b.chunk_queue
  pub balanced : IsBalanced b'
  pub same_queue : b'.chunk_queue ≡ b.chunk_queue

module _ (cfg : Config) (b : RewriteBuffer) (v : IsBalanced b) (sorts : Sorts cfg) where
  abbrev sorted : Records
  sorted = cfg.by_length.sort b.container_record_seq

  same_lookup : (k : ℕ) → lookup k sorted ≡ lookup k b.container_record_seq
  same_lookup k = cfg.by_length.lookup-sort k b.container_record_seq v.distinct

  of_record : (k : ℕ) → IsRecordOf (sum_by (share k) b.chunk_queue) (lookup k sorted)
  of_record k = rw (same_lookup k) (v.records k)

  largest_share :
      (j k : ℕ) (top : Records) {num : ℕ}
      → Added num sorted [] top
      → lookup j top ≡ none
      → lookup k top ≢ none
      → sum_by (share j) b.chunk_queue ≤ sum_by (share k) b.chunk_queue
  unfolding lookup
  largest_share j k top a out in' = elim (Option-cases (lookup k top)) [
    | inl gone ↦ absurd (in' gone)
    | inr (r, found) ↦
        let (s, also) = a.from k r found refl in
        let of_k : IsRecordOf (sum_by (share k) b.chunk_queue) (some s) =
          let h = of_record k in rw also at h in
        elim (Option-cases (lookup j sorted)) [
          | inl absent ↦
              let of_j : IsRecordOf (sum_by (share j) b.chunk_queue) none =
                let h = of_record j in rw absent at h in
              omega (arith, of_j)
          | inr (t, there) ↦
              let of_j : IsRecordOf (sum_by (share j) b.chunk_queue) (some t) =
                let h = of_record j in rw there at h in
              omega (arith, of_j.0, of_k.0, a.largest j k t s there out also in' refl)
        ]
  ]

  pub cap_segment_get_top-Selected :
      (top : Records) × (b' : RewriteBuffer) × (cap_segment_get_top cfg b ≡ some (top, b'))
      × Selected cfg b top b'
  unfolding cap_segment_get_top lookup
  cap_segment_get_top-Selected =
      let distinct = cfg.by_length.sort-Distinct b.container_record_seq v.distinct in
      let (top, e, a) =
        add_top-Added (top_num cfg sorted) sorted [] (ground arith)
          (sorts.descending b.container_record_seq v.distinct) distinct in
      let all : length top ≡ top_num cfg sorted =
        length-add_top (top_num cfg sorted) sorted [] top distinct (λ k r found. refl) e
        ∙ ground arith in
      let same : length sorted ≡ length b.container_record_seq =
        cfg.by_length.length-sort b.container_record_seq in
      (
        top,
        record b { container_record_seq = cfg.by_id.sort sorted },
        ground (arith, e),
        record {
          number = ground (arith, all, same);
          largest = λ j k out in'. largest_share j k top a out in';
          balanced = record {
            tidy = v.tidy;
            counted = v.counted;
            sized = v.sized;
            distinct = cfg.by_id.sort-Distinct sorted distinct;
            ascending = sorts.ascending sorted distinct;
            records = λ cid.
                rw (cfg.by_id.lookup-sort cid sorted distinct, same_lookup cid) (v.records cid);
          };
          same_queue = refl;
        },
      )
