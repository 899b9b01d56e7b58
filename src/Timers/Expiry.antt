-- ===== src/Timers/Expiry.antt =====
-- Check and Get: which timer is served, and what is delivered for it.
use gmonitor.Base.{
  ℕ, zero, suc, ◌≤◌, ◌≡◌, refl, ◌⊎◌, inl, inr, true, false, List, [], ◌∷◌, some, arith,
  Option-cases, All, take, get_elem?, find_index, find_index-some, find_index-none,
  find_index_first,
}
use gmonitor.Ids.{max_id, is_used}
use gmonitor.Ids.Distinct.{Distinct}
use gmonitor.Timers.{Timer, Table, ids, by_id, expired, id_at, check}
use gmonitor.Timers.Invariant.{IsValid}

is_used-get :
    (xs : List Timer) (i : ℕ) (x : Timer) → get_elem? xs i ≡ some x → is_used x.id (ids xs) ≡ true
unfolding is_used
is_used-get [] i x e = cc
is_used-get (y ∷ xs) zero x e = ground arith
is_used-get (y ∷ xs) (suc i) x e = ground (arith, is_used-get xs i x)

-- With distinct identifiers the identifier of an entry leads back to its place.
pub by_id-get :
    (xs : List Timer) (i : ℕ) (x : Timer)
    → Distinct (ids xs)
    → get_elem? xs i ≡ some x
    → by_id x.id xs ≡ some i
by_id-get [] i x d e = cc
by_id-get (y ∷ xs) zero x d e = ground arith
by_id-get (y ∷ xs) (suc i) x d e = ground (arith, by_id-get xs i x d.3, is_used-get xs i x)

id-in-range :
    (xs : List Timer) (i : ℕ) (x : Timer)
    → Distinct (ids xs)
    → get_elem? xs i ≡ some x
    → (1 ≤ x.id) × (x.id ≤ max_id)
id-in-range [] i x d e = cc
id-in-range (y ∷ xs) zero x d e = ground arith
id-in-range (y ∷ xs) (suc i) x d e = id-in-range xs i x d.3 e

-- What Check says: 0, and no timer has expired; or the identifier of the first expired timer, by
-- which the other operations find that timer.
abbrev pub Checked : ℕ → Table → Type 0
Checked t s =
    ((check t s ≡ 0) × All (λ x. expired t x ≡ false) s.timers)
    ⊎ ((i : ℕ) × (x : Timer) × (check t s ≡ x.id)
        × (1 ≤ x.id)
        × (get_elem? s.timers i ≡ some x)
        × (by_id x.id s.timers ≡ some i)
        × (x.end_t ≤ t)
        × All (λ y. expired t y ≡ false) (take i s.timers))

pub check_lem : (t : ℕ) (s : Table) → IsValid s → Checked t s
unfolding check
check_lem t s v = elim (Option-cases (find_index (expired t) s.timers)) [
  | inl e ↦ inl (rw e refl, find_index-none (expired t) s.timers e)
  | inr (i, e) ↦
      let (x, at, over, below) = find_index-some (expired t) s.timers i e in
      inr (
        i,
        x,
        rw (e, id_at) (rw (at, id_at) refl),
        (id-in-range s.timers i x v.distinct at).0,
        at,
        by_id-get s.timers i x v.distinct at,
        ground arith,
        find_index_first (expired t) s.timers i e,
      )
]
