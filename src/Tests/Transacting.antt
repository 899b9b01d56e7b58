-- ===== src/Tests/Transacting.antt =====
-- Runs of the transaction server.
use gmonitor.Base.{str_eq, ℕ, ◌≡◌, refl, [], ◌∷◌, some, arith, codes}
use gmonitor.Service.{le_word}
use gmonitor.Transac.{Transac, Timer, message, word4, exist, Sweep, sweep}
use gmonitor.Transac.Keys.{IsValid}
use gmonitor.Transac.Numbers.{transac_message-IsValid}
use gmonitor.Transac.Sweeping.{Swept, sweep_lem}

abbrev timer : ℕ → ℕ → Timer
timer end_time n = record { end_time = end_time; key = word4 n; value = [] }

-- Transaction 9999 ends at 50 and transaction 1 at 90.
abbrev two : Transac
two = record { trans_count = 9999; timers = timer 50 9999 ∷ timer 90 1 ∷ [] }

two-IsValid : IsValid two
unfolding word4 le_word exist str_eq
two-IsValid = record {
  keys = ((refl, omega arith, omega arith), ((refl, omega arith, omega arith), tt));
  distinct = (refl, (refl, tt));
  low = omega arith;
  high = omega arith;
}

transac_message-IsValid_example : IsValid (message 60 (codes ".begintrans") 0 30 two).transac
transac_message-IsValid_example =
    transac_message-IsValid 60 (codes ".begintrans") 0 30 two two-IsValid

abbrev start : Sweep
start = record { transac = two; reads = 0; aborted = [] }

abbrev clock : ℕ → ℕ
clock n = 60

sweep_lem_example :
    (after : Sweep) × (sweep 3 clock 0 start ≡ some after) × Swept clock 9999 start after
sweep_lem_example = sweep_lem 3 clock 0 9999 start two-IsValid (omega arith)
