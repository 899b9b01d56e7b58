-- ===== src/Timers/Transactions.antt =====
-- DelTrans takes one timer of the transaction away.
use gmonitor.Base.{
  ℕ, zero, suc, ◌+◌, ◌-◌, ◌≡◌, ◌≢◌, refl, inl, inr, List, [], ◌∷◌, none, some, arith, ◌==◌,
  if◌then◌else◌, erase_at, Option-cases, success, failure,
}
use gmonitor.Timers.{Timer, Table, by_trans, del_trans}

-- The timers of a transaction.
unfoldable pub count_trans : ℕ → List Timer → ℕ
count_trans trans [] = 0
count_trans trans (x ∷ xs) = (if x.trans == trans then 1 else 0) + count_trans trans xs

count-erase :
    (trans i : ℕ) (xs : List Timer)
    → by_trans trans xs ≡ some i
    → count_trans trans xs ≡ count_trans trans (erase_at xs i) + 1
unfolding count_trans
count-erase trans i [] e = cc
count-erase trans zero (x ∷ xs) e = ground arith
count-erase trans (suc i) (x ∷ xs) e = ground (arith, count-erase trans i xs)

count-none : (trans : ℕ) (xs : List Timer) → by_trans trans xs ≡ none → count_trans trans xs ≡ 0
unfolding count_trans
count-none trans [] e = refl
count-none trans (x ∷ xs) e = ground (arith, count-none trans xs)

count-erase_other :
    (trans other i : ℕ) (xs : List Timer)
    → other ≢ trans
    → by_trans trans xs ≡ some i
    → count_trans other (erase_at xs i) ≡ count_trans other xs
unfolding count_trans
count-erase_other trans other i [] ne e = cc
count-erase_other trans other zero (x ∷ xs) ne e = ground arith
count-erase_other trans other (suc i) (x ∷ xs) ne e =
    ground (arith, count-erase_other trans other i xs)

-- At the end of a transaction one of its timers goes, however many it has, and no timer of another
-- transaction; the answer is -1 exactly if it has none.
pub del_trans_one :
    (trans other : ℕ) (s : Table)
    → trans ≢ 0
    → other ≢ trans
    → (count_trans trans (del_trans trans s).0.timers ≡ count_trans trans s.timers - 1)
      × ((del_trans trans s).1 ≡ (if count_trans trans s.timers == 0 then failure else success))
      × (count_trans other (del_trans trans s).0.timers ≡ count_trans other s.timers)
unfolding del_trans
del_trans_one trans other s nz ne = elim (Option-cases (by_trans trans s.timers)) [
  | inl e ↦ ground (arith, count-none trans s.timers e)
  | inr (i, e) ↦
      ground (arith, count-erase trans i s.timers e, count-erase_other trans other i s.timers ne e)
]
