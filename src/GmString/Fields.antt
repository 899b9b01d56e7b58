-- ===== src/GmString/Fields.antt =====
-- Places of a block that memprint writes to.
use gmonitor.Base.{
  ℕ, zero, suc, ◌+◌, ◌≤◌, ◌≡◌, refl, ap, List, [], ◌∷◌, ◌++◌, arith, take, drop, length,
}
use gmonitor.GmString.{overwrite, memprint, padded}

-- The bytes at a place.
abbrev pub slice : ℕ → ℕ → List ℕ → List ℕ
slice at w block = take w (drop at block)

length-overwrite : (block bs : List ℕ) → length (overwrite block bs) ≡ length block
unfolding overwrite
length-overwrite [] bs = refl
length-overwrite (x ∷ block) [] = refl
length-overwrite (x ∷ block) (b ∷ bs) = ap suc (length-overwrite block bs)

pub length-memprint : (at : ℕ) (bs block : List ℕ) → length (memprint at bs block) ≡ length block
unfolding memprint
length-memprint zero bs block = length-overwrite block bs
length-memprint (suc at) bs [] = refl
length-memprint (suc at) bs (x ∷ block) = ap suc (length-memprint at bs block)

take-overwrite :
    (bs block : List ℕ) → length bs ≤ length block → take (length bs) (overwrite block bs) ≡ bs
unfolding overwrite
take-overwrite [] [] h = refl
take-overwrite [] (x ∷ block) h = refl
take-overwrite (b ∷ bs) [] h = elim h [ ]
take-overwrite (b ∷ bs) (x ∷ block) h = ap (◌∷◌ b) (take-overwrite bs block (omega arith))

-- What was written is read.
pub slice-memprint :
    (at w : ℕ) (bs block : List ℕ)
    → length bs ≡ w
    → at + w ≤ length block
    → slice at w (memprint at bs block) ≡ bs
unfolding memprint
slice-memprint zero w bs block e h = rw (← e) (take-overwrite bs block (omega arith))
slice-memprint (suc at) w bs [] e h = absurd (omega arith)
slice-memprint (suc at) w bs (x ∷ block) e h = slice-memprint at w bs block e (omega arith)

drop-overwrite :
    (q : ℕ) (bs block : List ℕ) → length bs ≤ q → drop q (overwrite block bs) ≡ drop q block
unfolding overwrite
drop-overwrite q bs [] h = refl
drop-overwrite q [] (x ∷ block) h = refl
drop-overwrite zero (b ∷ bs) (x ∷ block) h = elim h [ ]
drop-overwrite (suc q) (b ∷ bs) (x ∷ block) h = drop-overwrite q bs block (omega arith)

drop-memprint :
    (at q : ℕ) (bs block : List ℕ)
    → at + length bs ≤ q
    → drop q (memprint at bs block) ≡ drop q block
unfolding memprint
drop-memprint zero q bs block h = drop-overwrite q bs block (omega arith)
drop-memprint (suc at) zero bs block h = absurd (omega arith)
drop-memprint (suc at) (suc q) bs [] h = refl
drop-memprint (suc at) (suc q) bs (x ∷ block) h = drop-memprint at q bs block (omega arith)

-- A place behind what was written.
pub slice-memprint_before :
    (at q w : ℕ) (bs block : List ℕ)
    → at + length bs ≤ q
    → slice q w (memprint at bs block) ≡ slice q w block
slice-memprint_before at q w bs block h = ap (take w) (drop-memprint at q bs block h)

take-memprint :
    (at w : ℕ) (bs block : List ℕ) → w ≤ at → take w (memprint at bs block) ≡ take w block
unfolding memprint
take-memprint at zero bs block h = refl
take-memprint zero (suc w) bs block h = elim h [ ]
take-memprint (suc at) (suc w) bs [] h = refl
take-memprint (suc at) (suc w) bs (x ∷ block) h =
    ap (◌∷◌ x) (take-memprint at w bs block (omega arith))

-- A place before what was written.
pub slice-memprint_behind :
    (at q w : ℕ) (bs block : List ℕ)
    → q + w ≤ at
    → slice q w (memprint at bs block) ≡ slice q w block
unfolding memprint
slice-memprint_behind at zero w bs block h = take-memprint at w bs block (omega arith)
slice-memprint_behind zero (suc q) w bs block h = absurd (omega arith)
slice-memprint_behind (suc at) (suc q) w bs [] h = refl
slice-memprint_behind (suc at) (suc q) w bs (x ∷ block) h =
    slice-memprint_behind at q w bs block (omega arith)

pub length-padded : (w : ℕ) (s : List ℕ) → length (padded w s) ≡ w
unfolding padded
length-padded zero s = refl
length-padded (suc w) [] = ap suc (length-padded w [])
length-padded (suc w) (c ∷ s) = ap suc (length-padded w s)

drop-overwrite_append :
    (q : ℕ) (xs ys block : List ℕ)
    → q ≡ length xs
    → drop q (overwrite block (xs ++ ys)) ≡ overwrite (drop q block) ys
unfolding overwrite
drop-overwrite_append zero [] ys block e = refl
drop-overwrite_append (suc q) [] ys block e = absurd (omega arith)
drop-overwrite_append zero (x ∷ xs) ys block e = absurd (omega arith)
drop-overwrite_append (suc q) (x ∷ xs) ys [] e = refl
drop-overwrite_append (suc q) (x ∷ xs) ys (b ∷ block) e =
    drop-overwrite_append q xs ys block (omega arith)

-- What is longer than its place goes on behind it.
pub drop-memprint_append :
    (at q : ℕ) (xs ys block : List ℕ)
    → q ≡ at + length xs
    → drop q (memprint at (xs ++ ys) block) ≡ overwrite (drop q block) ys
unfolding memprint overwrite
drop-memprint_append zero q xs ys block e = drop-overwrite_append q xs ys block (omega arith)
drop-memprint_append (suc at) zero xs ys block e = absurd (omega arith)
drop-memprint_append (suc at) (suc q) xs ys [] e = refl
drop-memprint_append (suc at) (suc q) xs ys (b ∷ block) e =
    drop-memprint_append at q xs ys block (omega arith)

take-overwrite_long :
    (w : ℕ) (bs block : List ℕ)
    → w ≤ length bs
    → w ≤ length block
    → take w (overwrite block bs) ≡ take w bs
unfolding overwrite
take-overwrite_long zero bs block h k = refl
take-overwrite_long (suc w) [] block h k = elim h [ ]
take-overwrite_long (suc w) (b ∷ bs) [] h k = elim k [ ]
take-overwrite_long (suc w) (b ∷ bs) (x ∷ block) h k =
    ap (◌∷◌ b) (take-overwrite_long w bs block (omega arith) (omega arith))

pub slice-memprint_long :
    (at w : ℕ) (bs block : List ℕ)
    → w ≤ length bs
    → at + w ≤ length block
    → slice at w (memprint at bs block) ≡ take w bs
unfolding memprint
slice-memprint_long zero w bs block h k = take-overwrite_long w bs block h (omega arith)
slice-memprint_long (suc at) w bs [] h k = absurd (omega arith)
slice-memprint_long (suc at) w bs (x ∷ block) h k =
    slice-memprint_long at w bs block h (omega arith)
