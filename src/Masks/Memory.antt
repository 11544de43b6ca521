-- ===== src/Masks/Memory.antt =====
-- Blocks of memory as lists: bounded copies, and reallocation.
use diag.Base.{
  ℕ, zero, suc, ◌+◌, ◌-◌, ◌≤◌, ◌<◌, ◌≡◌, refl, ap, ◌&&◌, Option, none, some, List, [], ◌∷◌, ◌++◌,
  arith, leb, if◌then◌else◌, length, take, drop, replicate, length-append, length-take, length-drop,
  length-replicate,
}

-- What an operation on a mask returns: 0, 1, or -ENOMEM.
pub data Result : Type 0 where
  done absent failed : Result

abbrev pub mask_invalid : ℕ
mask_invalid = 0

abbrev pub mask_all_disabled : ℕ
mask_all_disabled = 1

abbrev pub mask_all_enabled : ℕ
mask_all_enabled = 2

abbrev pub mask_valid : ℕ
mask_valid = 3

-- `memcpy(dst + at, src, n)`, or `none` if it leaves a block.
unfoldable pub copy_in : List ℕ → ℕ → List ℕ → ℕ → Option (List ℕ)
copy_in dst at src n =
    if leb (at + n) (length dst) && leb n (length src)
    then some (take at dst ++ (take n src ++ drop (at + n) dst))
    else none

-- `memset(dst, v, n)` by elements.
unfoldable pub fill : List ℕ → ℕ → ℕ → Option (List ℕ)
fill dst v n = if leb n (length dst) then some (replicate n v ++ drop n dst) else none

-- A copy of the first `n` elements of a block.
unfoldable pub copy_out : List ℕ → ℕ → Option (List ℕ)
copy_out src n = if leb n (length src) then some (take n src) else none

-- What stands in `n` elements that nobody has written, from element `i` on.
unfoldable pub unwritten : (ℕ → ℕ) → ℕ → ℕ → List ℕ
unwritten junk i zero = []
unwritten junk i (suc n) = junk i ∷ unwritten junk (suc i) n

-- `realloc` keeps the elements that fit.
unfoldable pub resize : (ℕ → ℕ) → List ℕ → ℕ → List ℕ
unfolding unwritten
resize junk old n = take n old ++ unwritten junk (length old) (n - length old)

length-unwritten : (junk : ℕ → ℕ) (i n : ℕ) → length (unwritten junk i n) ≡ n
unfolding unwritten
length-unwritten junk i zero = refl
length-unwritten junk i (suc n) = ap suc (length-unwritten junk (suc i) n)

pub length-resize : (junk : ℕ → ℕ) (old : List ℕ) (n : ℕ) → length (resize junk old n) ≡ n
unfolding resize
length-resize junk old n = omega (
  arith,
  length-append {0} (take n old) (unwritten junk (length old) (n - length old)),
  length-take {0} n old,
  length-unwritten junk (length old) (n - length old),
)

pub length-copy_in :
    (dst : List ℕ) (at : ℕ) (src : List ℕ) (n : ℕ) {out : List ℕ}
    → copy_in dst at src n ≡ some out
    → length out ≡ length dst
unfolding copy_in
length-copy_in dst at src n h = ground (
  arith,
  length-append (take at dst) (take n src ++ drop (at + n) dst),
  length-append (take n src) (drop (at + n) dst),
  length-take at dst,
  length-take n src,
  length-drop (at + n) dst,
)

pub copy_in_fits :
    (dst : List ℕ) (at : ℕ) (src : List ℕ) (n : ℕ)
    → at + n ≤ length dst
    → n ≤ length src
    → copy_in dst at src n ≡ some (take at dst ++ (take n src ++ drop (at + n) dst))
unfolding copy_in
copy_in_fits dst at src n h k = ground arith

pub copy_out_fits : (src : List ℕ) (n : ℕ) → n ≤ length src → copy_out src n ≡ some (take n src)
unfolding copy_out
copy_out_fits src n h = ground arith

pub copy_out_beyond : (src : List ℕ) (n : ℕ) → length src < n → copy_out src n ≡ none
unfolding copy_out
copy_out_beyond src n h = ground arith

pub fill_fits :
    (dst : List ℕ) (v n : ℕ) → n ≤ length dst → fill dst v n ≡ some (replicate n v ++ drop n dst)
unfolding fill
fill_fits dst v n h = ground arith

pub length_filled :
    (dst : List ℕ) (v n : ℕ) → n ≤ length dst → length (replicate n v ++ drop n dst) ≡ length dst
length_filled dst v n h = omega (
  arith,
  length-append {0} (replicate n v) (drop n dst),
  length-replicate {0} n v,
  length-drop {0} n dst,
)

-- Reading back what was copied to the start of a block.
pub take-copied :
    (src : List ℕ) (n : ℕ) (rest : List ℕ)
    → n ≤ length src
    → take n (take n src ++ rest) ≡ take n src
take-copied src zero rest h = refl
take-copied [] (suc n) rest h = absurd (omega arith)
take-copied (x ∷ src) (suc n) rest h = ap (λ t. x ∷ t) (take-copied src n rest (omega arith))
