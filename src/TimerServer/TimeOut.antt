-- ===== src/TimerServer/TimeOut.antt =====
-- The loop of TimeOut ends, and leaves no expired timer.
use gmonitor.Base.{
  ℕ, zero, suc, ◌+◌, ◌≤◌, ◌<◌, ◌≡◌, refl, ◌∙◌, inl, inr, false, [], some, arith, All,
}
use gmonitor.Service.{Client}
use gmonitor.Timers.{Timer, expired, check, get, delivery}
use gmonitor.Timers.Invariant.{IsValid, removal-IsValid}
use gmonitor.Timers.Expiry.{check_lem}
use gmonitor.Timers.Pending.{pending, pending-ok}
use gmonitor.TimerServer.{Round, serve, time_out_loop}

nobody : Client
nobody = record { user = []; client = []; key = []; group = [] }

after : Timer → Round → Round
unfolding serve
after x r = serve x.id (delivery x) (record r { reads = r.reads + 1 })

-- A round that serves the expired timer `x`.
loop-step :
    (fuel : ℕ) (clock : ℕ → ℕ) (r : Round) (x : Timer)
    → check (clock r.reads) r.table ≡ x.id
    → 1 ≤ x.id
    → get x.id r.table ≡ some (delivery x)
    → time_out_loop (suc fuel) clock r ≡ time_out_loop fuel clock (after x r)
unfolding time_out_loop after
loop-step fuel clock r x e nz g =
    let g' : get (check (clock r.reads) r.table) r.table ≡ some (delivery x) = rw e g in
    ground arith

-- While the clock stays within `limit`, the loop of TimeOut ends, whatever the periods of the
-- timers: it makes at most one round for each second that a timer is late. It keeps the table
-- well formed, and when it ends no timer has expired at the last reading of the clock.
pub time_out_loop_ends :
    (fuel : ℕ) (clock : ℕ → ℕ) (limit : ℕ) (r : Round)
    → ((n : ℕ) → clock n ≤ limit)
    → IsValid r.table
    → pending limit r.table.timers < fuel
    → (q : Round) × (time_out_loop fuel clock r ≡ some q)
      × IsValid q.table
      × (m : ℕ) × (q.reads ≡ m + 1)
      × All (λ x. expired (clock m) x ≡ false) q.table.timers
unfolding time_out_loop after serve
time_out_loop_ends zero clock limit r bound v h = absurd (omega arith)
time_out_loop_ends (suc fuel) clock limit r bound v h = elim (check_lem (clock r.reads) r.table v) [
  | inl (e, none_left) ↦
      (record r { reads = r.reads + 1 }, rw (e, time_out_loop) refl, v, r.reads, refl, none_left)
  | inr (i, x, e, nz, at, by, over, first) ↦
      let late : x.end_t ≤ limit = omega (arith, bound r.reads) in
      let (less, got) = pending-ok limit r.table i x nz at by late in
      let kept = (removal-IsValid x.id nobody r.table v).0 in
      let (q, runs, valid, m, last, done) =
        time_out_loop_ends fuel clock limit (after x r) bound kept (omega arith) in
      (q, loop-step fuel clock r x e nz got ∙ runs, valid, m, last, done)
]
