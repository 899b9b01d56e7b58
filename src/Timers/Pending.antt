-- ===== src/Timers/Pending.antt =====
-- Serving an expired timer brings the table closer to one without expired timers.
use gmonitor.Base.{
  ℕ, zero, suc, ◌+◌, ◌-◌, ◌≤◌, ◌<◌, ◌≡◌, refl, List, [], ◌∷◌, some, arith, get_elem?,
}
use gmonitor.Ids.Fresh.{ne-zero}
use gmonitor.Timers.{Timer, Table, delivery, get, finish, ok, by_id}

-- The seconds by which the timers are late at the time `limit`, one more for each that has expired.
unfoldable pub pending : ℕ → List Timer → ℕ
pending limit [] = 0
pending limit (x ∷ xs) = (limit + 1 - x.end_t) + pending limit xs

pending-finish :
    (limit : ℕ) (xs : List Timer) (i : ℕ) (x : Timer)
    → x.end_t ≤ limit
    → get_elem? xs i ≡ some x
    → pending limit (finish xs i (some x)) < pending limit xs
unfolding pending finish
pending-finish limit [] i x h e = cc
pending-finish limit (y ∷ xs) zero x h e = ground arith
pending-finish limit (y ∷ xs) (suc i) x h e = ground (arith, pending-finish limit xs i x)

-- Ok on an expired timer lowers the measure; Get delivers that timer.
pub pending-ok :
    (limit : ℕ) (s : Table) (i : ℕ) (x : Timer)
    → 1 ≤ x.id
    → get_elem? s.timers i ≡ some x
    → by_id x.id s.timers ≡ some i
    → x.end_t ≤ limit
    → (pending limit (ok x.id s).0.timers < pending limit s.timers)
      × (get x.id s ≡ some (delivery x))
unfolding ok get
pending-ok limit s i x nz at by h = (
  rw (ne-zero x.id nz) (rw by (rw at (pending-finish limit s.timers i x h at))),
  rw (ne-zero x.id nz) (rw by (rw at refl)),
)
