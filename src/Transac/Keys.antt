-- ===== src/Transac/Keys.antt =====
-- The table of the transactions: keys of four bytes, each once.
use gmonitor.Base.{
  str_eq_comm, ℕ, zero, suc, ◌≤◌, ◌≡◌, refl, false, ◌||◌, List, [], ◌∷◌, ◌++◌, arith, All, erase_at,
}
use gmonitor.Service.{le_word}
use gmonitor.Transac.{Timer, Transac, has_key, exist, word4, max_trans}

-- The number of a key.
abbrev pub number : Timer → ℕ
number x = le_word 4 x.key

pub number-word4 : (n : ℕ) → n ≤ max_trans → le_word 4 (word4 n) ≡ n
unfolding le_word word4
number-word4 n h = omega arith

-- A key of a transaction between 1 and 9999.
abbrev pub IsKey : Timer → Type 0
IsKey x = (x.key ≡ word4 (number x)) × (1 ≤ number x) × (number x ≤ max_trans)

abbrev pub Distinct : List Timer → Type 0
Distinct [] = Unit {0}
Distinct (x ∷ xs) = (exist x.key xs ≡ false) × Distinct xs

pub record IsValid (s : Transac) : Type 0 where
  pub keys : All IsKey s.timers
  pub distinct : Distinct s.timers
  pub low : 1 ≤ s.trans_count
  pub high : s.trans_count ≤ max_trans

pub exist-append :
    (key : List ℕ) (xs : List Timer) (x : Timer)
    → exist key (xs ++ x ∷ []) ≡ (exist key xs || has_key key x)
unfolding exist
exist-append key [] x = ground arith
exist-append key (y ∷ xs) x = ground (arith, exist-append key xs x)

pub Distinct-append :
    (xs : List Timer) (x : Timer) → exist x.key xs ≡ false → Distinct xs → Distinct (xs ++ x ∷ [])
unfolding exist
Distinct-append [] x e d = (refl, tt)
Distinct-append (y ∷ xs) x e d =
    ground (arith, Distinct-append xs x, exist-append y.key xs x, str_eq_comm y.key x.key)

pub exist-erase :
    (key : List ℕ) (i : ℕ) (xs : List Timer)
    → exist key xs ≡ false
    → exist key (erase_at xs i) ≡ false
unfolding exist
exist-erase key i [] h = h
exist-erase key zero (x ∷ xs) h = ground arith
exist-erase key (suc i) (x ∷ xs) h = ground (arith, exist-erase key i xs)

pub Distinct-erase : (i : ℕ) (xs : List Timer) → Distinct xs → Distinct (erase_at xs i)
Distinct-erase i [] d = d
Distinct-erase zero (x ∷ xs) d = d.1
Distinct-erase (suc i) (x ∷ xs) d = (exist-erase x.key i xs d.0, Distinct-erase i xs d.1)
