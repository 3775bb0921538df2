-- ===== src/Storage/Memory.antt =====
-- Byte-addressed storage, for C buffers and for the container pool file: a byte for each offset.
use native.Mathlib.Nat.{zero-add, add-zero, suc-add}
use mathlib.Core.Path.{fun_ext}
use native.Mathlib.Decide.{dec_lt}
use destor_lt.Prelude.{
  ℕ, zero, suc, ◌+◌, ◌-◌, ◌≤◌, ◌<◌, ◌≡◌, refl, ap, ◌∙◌, ◌++◌, List, [], ◌∷◌, ◌⊎◌, arith, length,
  ltb, leb, ◌==◌, ◌&&◌, if◌then◌else◌,
}

abbrev pub Memory : Type 0
Memory = ℕ → ℕ

-- `calloc`, and the part of a file that nothing was written to.
abbrev pub zeros : Memory
zeros p = 0

abbrev put : ℕ → ℕ → Memory → Memory
put off b m p = if p == off then b else m p

-- `memcpy` or `fwrite` of these bytes at an offset.
unfoldable pub store : ℕ → List ℕ → Memory → Memory
store off [] m = m
store off (b ∷ bs) m = put off b (store (off + 1) bs m)

-- `memcpy` or `fread` of `n` bytes from an offset.
unfoldable pub load : ℕ → ℕ → Memory → List ℕ
load off zero m = []
load off (suc n) m = m off ∷ load (off + 1) n m

-- `fwrite` of a buffer's first `n` bytes at an offset.
unfoldable pub copy : ℕ → ℕ → Memory → Memory → Memory
copy off n src m p = if leb off p && ltb p (off + n) then src (p - off) else m p

pub length-load : (off n : ℕ) (m : Memory) → length (load off n m) ≡ n
unfolding load
length-load off zero m = refl
length-load off (suc n) m = ap suc (length-load (off + 1) n m)

load-put_below : (p n off b : ℕ) (m : Memory) → off < p → load p n (put off b m) ≡ load p n m
unfolding load
load-put_below p zero off b m h = refl
load-put_below p (suc n) off b m h = ground (arith, load-put_below (p + 1) n off b m (omega arith))

load-put_above : (p n off b : ℕ) (m : Memory) → p + n ≤ off → load p n (put off b m) ≡ load p n m
unfolding load
load-put_above p zero off b m h = refl
load-put_above p (suc n) off b m h = ground (arith, load-put_above (p + 1) n off b m (omega arith))

pub load-store_self :
    (off : ℕ) (bs : List ℕ) (m : Memory) → load off (length bs) (store off bs m) ≡ bs
unfolding load store
load-store_self off [] m = refl
load-store_self off (b ∷ bs) m = ground (
  arith,
  load-put_below (off + 1) (length bs) off b (store (off + 1) bs m) (omega arith),
  load-store_self (off + 1) bs m,
)

pub load-store_above :
    (p n off : ℕ) (bs : List ℕ) (m : Memory) → p + n ≤ off → load p n (store off bs m) ≡ load p n m
unfolding store
load-store_above p n off [] m h = refl
load-store_above p n off (b ∷ bs) m h =
    load-put_above p n off b (store (off + 1) bs m) h
    ∙ load-store_above p n (off + 1) bs m (omega arith)

pub load-store_below :
    (p n off : ℕ) (bs : List ℕ) (m : Memory)
    → off + length bs ≤ p
    → load p n (store off bs m) ≡ load p n m
unfolding store
load-store_below p n off [] m h = refl
load-store_below p n off (b ∷ bs) m h =
    load-put_below p n off b (store (off + 1) bs m) (omega arith)
    ∙ load-store_below p n (off + 1) bs m (omega arith)

pub load-copy :
    (off k n len : ℕ) (src m : Memory)
    → k + n ≤ len
    → load (off + k) n (copy off len src m) ≡ load k n src
unfolding load copy
load-copy off k zero len src m h = refl
load-copy off k (suc n) len src m h = ground (
  arith,
  ap src (let e : off + k - off ≡ k = omega arith in e),
  ap (λ p. load p n (copy off len src m)) (let e : off + k + 1 ≡ off + (k + 1) = omega arith in e),
  load-copy off (k + 1) n len src m (omega arith),
)

pub load-copy_outside :
    (off len p n : ℕ) (src m : Memory)
    → (p + n ≤ off) ⊎ (off + len ≤ p)
    → load p n (copy off len src m) ≡ load p n m
unfolding load copy
load-copy_outside off len p zero src m h = refl
load-copy_outside off len p (suc n) src m h =
    ground (arith, load-copy_outside off len (p + 1) n src m (omega arith))

-- A load in two parts.
pub load-add : (p a b : ℕ) (m : Memory) → load p (a + b) m ≡ load p a m ++ load (p + a) b m
unfolding load
load-add p zero b m = rw (zero-add, add-zero) refl
load-add p (suc a) b m =
    rw (suc-add, load)
      (ap (◌∷◌ (m p))
        (load-add (p + 1) a b m ∙ ap (λ q. load (p + 1) a m ++ load q b m) (omega arith)))

-- A load through a buffer that a file was read into.
pub load-copy_from :
    (base k n len : ℕ) (f m : Memory)
    → k + n ≤ len
    → load k n (copy 0 len (λ p. f (base + p)) m) ≡ load (base + k) n f
unfolding load copy
load-copy_from base k zero len f m h = refl
load-copy_from base k (suc n) len f m h = ground (
  arith,
  ap f (let e : base + (k - 0) ≡ base + k = omega arith in e),
  ap (λ p. load p n f) (let e : base + k + 1 ≡ base + (k + 1) = omega arith in e),
  load-copy_from base (k + 1) n len f m (omega arith),
)

-- A load depends on the bytes of its range alone.
pub load_congr :
    (a n : ℕ) (f g : Memory) → ((p : ℕ) → a ≤ p → p < a + n → f p ≡ g p) → load a n f ≡ load a n g
unfolding load
load_congr a zero f g h = refl
load_congr a (suc n) f g h =
    let first : f a ≡ g a = h a (omega arith) (omega arith) in
    let rest = load_congr (a + 1) n f g (λ p below above. h p (omega arith) (omega arith)) in cc

-- So does a buffer that a file was read into.
pub copy_congr :
    (n : ℕ) (f g m : Memory) → ((p : ℕ) → p < n → f p ≡ g p) → copy 0 n f m ≡ copy 0 n g m
unfolding copy
copy_congr n f g m h = fun_ext λ p. elim (dec_lt p n) [
  | yes q ↦ ground (
    arith,
    h p q,
    ap f (let e : p - 0 ≡ p = omega arith in e),
    ap g (let e : p - 0 ≡ p = omega arith in e),
  )
  | no q ↦ ground arith
]
