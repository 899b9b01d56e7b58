-- ===== src/Timers/Remaining.antt =====
-- Rest against its description: the time to the earliest expiry.
use gmonitor.Base.{ℕ, ◌-◌, ◌*◌, List, [], ◌∷◌, Option, none, some, min, ℤ, pos, negsuc}
use gmonitor.Timers.{Timer}

-- The earliest expiry of a list of timers, starting from one that is already known.
abbrev earlier : ℕ → List Timer → ℕ
earlier e [] = e
earlier e (x ∷ xs) = earlier (min e x.end_t) xs

abbrev pub earliest : List Timer → Option ℕ
earliest [] = none
earliest (x ∷ xs) = some (earlier x.end_t xs)

-- The remaining time in hundredths of a second, 0 if it is over, -1 without a timer.
abbrev pub remaining : ℕ → Option ℕ → ℤ
remaining t none = negsuc 0
remaining t (some e) = pos ((e - t) * 100)
