-- ===== src/SafFile/Counts.antt =====
-- The number of entries of the index that data_count counts.
use gmonitor.Base.{
  ℕ, zero, suc, ◌≡◌, refl, true, false, List, [], ◌∷◌, ◌++◌, some, arith, if◌then◌else◌, set,
  erase_at, get_elem?,
}
use gmonitor.SafFile.{Entry, is_live}

abbrev pub live : List Entry → ℕ
live [] = 0
live (e ∷ es) = if is_live e.status then suc (live es) else live es

pub live-append :
    (xs : List Entry) (e : Entry) → is_live e.status ≡ true → live (xs ++ e ∷ []) ≡ suc (live xs)
live-append [] e h = rw h refl
live-append (x ∷ xs) e h = ground (arith, live-append xs e)

pub live-erase_at :
    (xs : List Entry) (i : ℕ) (e : Entry)
    → get_elem? xs i ≡ some e
    → is_live e.status ≡ false
    → live (erase_at xs i) ≡ live xs
live-erase_at [] i e g h = refl
live-erase_at (x ∷ xs) zero e g h = ground arith
live-erase_at (x ∷ xs) (suc i) e g h = ground (arith, live-erase_at xs i e)

-- A counted entry that is replaced by another counted one.
pub live-set_same :
    (xs : List Entry) (i : ℕ) (e y : Entry)
    → get_elem? xs i ≡ some e
    → is_live e.status ≡ true
    → is_live y.status ≡ true
    → live (set xs i y) ≡ live xs
live-set_same [] i e y g h k = refl
live-set_same (x ∷ xs) zero e y g h k = ground arith
live-set_same (x ∷ xs) (suc i) e y g h k = ground (arith, live-set_same xs i e y)

-- A counted entry that is replaced by one that is not.
pub live-set_less :
    (xs : List Entry) (i : ℕ) (e y : Entry)
    → get_elem? xs i ≡ some e
    → is_live e.status ≡ true
    → is_live y.status ≡ false
    → live xs ≡ suc (live (set xs i y))
live-set_less [] i e y g h k = cc
live-set_less (x ∷ xs) zero e y g h k = ground arith
live-set_less (x ∷ xs) (suc i) e y g h k = ground (arith, live-set_less xs i e y)
