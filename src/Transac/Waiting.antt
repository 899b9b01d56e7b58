-- ===== src/Transac/Waiting.antt =====
-- NextTo: how long the transaction server may wait.
use gmonitor.Base.{
  ℕ, ◌+◌, ◌-◌, ◌≡◌, refl, inl, inr, List, [], ◌∷◌, Option, none, some, arith, ◌==◌, ltb,
  if◌then◌else◌, Bool-cases, pos, negsuc, min,
}
use gmonitor.Transac.{Timer, next_to}

-- The least of a time and the expiries of the timers that have one.
abbrev pub earliest_from : ℕ → List Timer → ℕ
earliest_from e [] = e
earliest_from e (x ∷ xs) =
    if x.end_time == 0 then earliest_from e xs else earliest_from (min e x.end_time) xs

-- The earliest expiry.
abbrev pub earliest : List Timer → Option ℕ
earliest [] = none
earliest (x ∷ xs) = if x.end_time == 0 then earliest xs else some (earliest_from x.end_time xs)

next_to-earliest_from :
    (now e : ℕ) (xs : List Timer) → next_to now (pos (e - now)) xs ≡ pos (earliest_from e xs - now)
unfolding next_to
next_to-earliest_from now e [] = refl
next_to-earliest_from now e (x ∷ xs) = elim (Bool-cases (x.end_time == 0)) [
  | inl z ↦ rw (next_to, z) (next_to-earliest_from now e xs)
  | inr nz ↦ elim (Bool-cases (ltb x.end_time (e - now + now))) [
    | inl sooner ↦
        let least : x.end_time - now ≡ min e x.end_time - now = ground arith in
        rw (next_to, nz, sooner, least) (next_to-earliest_from now (min e x.end_time) xs)
    | inr later ↦
        let least : e - now ≡ min e x.end_time - now = ground arith in
        rw (next_to, nz, later, least) (next_to-earliest_from now (min e x.end_time) xs)
  ]
]

-- NextTo without a limit is the number of seconds to the earliest expiry, 0 if that is over, and
-- -1 if no transaction expires.
pub next_to-earliest :
    (now : ℕ) (xs : List Timer)
    → next_to now (negsuc 0) xs ≡ (elim (earliest xs) [ none ↦ negsuc 0 | some e ↦ pos (e - now) ])
unfolding next_to
next_to-earliest now [] = refl
next_to-earliest now (x ∷ xs) = elim (Bool-cases (x.end_time == 0)) [
  | inl z ↦ rw (next_to, z) (next_to-earliest now xs)
  | inr nz ↦ rw (next_to, nz) (next_to-earliest_from now x.end_time xs)
]
