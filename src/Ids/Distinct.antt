-- ===== src/Ids/Distinct.antt =====
-- Lists of distinct identifiers.
use gmonitor.Base.{
  ℕ, zero, suc, ◌≤◌, ◌≡◌, refl, false, ◌||◌, List, [], ◌∷◌, ◌++◌, arith, ◌==◌, erase_at,
}
use gmonitor.Ids.{max_id, is_used}

-- Each identifier stands once, and lies in 1 .. 8192.
abbrev pub Distinct : List ℕ → Type 0
Distinct [] = Unit {0}
Distinct (x ∷ xs) = (is_used x xs ≡ false) × (1 ≤ x) × (x ≤ max_id) × Distinct xs

is_used-append : (d c : ℕ) (xs : List ℕ) → is_used d (xs ++ c ∷ []) ≡ (is_used d xs || (c == d))
unfolding is_used
is_used-append d c [] = ground arith
is_used-append d c (x ∷ xs) = ground (arith, is_used-append d c xs)

pub Distinct-append :
    (c : ℕ) (xs : List ℕ)
    → is_used c xs ≡ false
    → 1 ≤ c
    → c ≤ max_id
    → Distinct xs
    → Distinct (xs ++ c ∷ [])
unfolding is_used
Distinct-append c [] f lo hi d = (refl, lo, hi, tt)
Distinct-append c (x ∷ xs) f lo hi d = ground (arith, Distinct-append c xs, is_used-append x c xs)

is_used-erase : (d i : ℕ) (xs : List ℕ) → is_used d xs ≡ false → is_used d (erase_at xs i) ≡ false
unfolding is_used
is_used-erase d i [] h = h
is_used-erase d zero (x ∷ xs) h = ground arith
is_used-erase d (suc i) (x ∷ xs) h = ground (arith, is_used-erase d i xs)

pub Distinct-erase : (i : ℕ) (xs : List ℕ) → Distinct xs → Distinct (erase_at xs i)
Distinct-erase i [] d = d
Distinct-erase zero (x ∷ xs) d = d.3
Distinct-erase (suc i) (x ∷ xs) d = (is_used-erase x i xs d.0, d.1, d.2, Distinct-erase i xs d.3)
