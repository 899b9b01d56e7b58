-- ===== src/Transac/Sweeping.antt =====
-- The loop over Check: it ends, and each transaction is aborted or kept.
use gmonitor.Base.{
  ltb, ◌-◌, ℕ, zero, suc, ◌+◌, ◌≤◌, ◌<◌, ◌≡◌, ◌≢◌, ◌⊎◌, refl, ap, sym, ◌∙◌, subst, inl, inr, true,
  false, not, ◌&&◌, List, [], ◌∷◌, ◌++◌, some, arith, ◌==◌, if◌then◌else◌, length, All,
  All-erase_at, All-get_elem?, Option-cases, find_index, find_index-some, find_index-none,
  get_elem?, erase_at,
}
use native.Mathlib.Decide.{ℕ_discrete}
use gmonitor.Transac.{Timer, Transac, word4, check, check_trans, is_due, Sweep, sweep}
use gmonitor.Transac.Keys.{number, IsKey, IsValid, Distinct-erase}

abbrev pub count : ℕ → List ℕ → ℕ
count n [] = 0
count n (x ∷ xs) = if x == n then suc (count n xs) else count n xs

abbrev pub numbers : List Timer → List ℕ
numbers [] = []
numbers (x ∷ xs) = number x ∷ numbers xs

count-append : (n m : ℕ) (xs : List ℕ) → count n (xs ++ m ∷ []) ≡ count n xs + count n (m ∷ [])
count-append n m [] = omega arith
count-append n m (x ∷ xs) = ground (arith, count-append n m xs)

count-erase_at :
    (n i : ℕ) (xs : List Timer) (x : Timer)
    → get_elem? xs i ≡ some x
    → count n (numbers xs) ≡ count n (numbers (erase_at xs i)) + count n (number x ∷ [])
count-erase_at n i [] x g = cc
count-erase_at n zero (y ∷ xs) x g = let same : number y ≡ number x = ground arith in ground arith
count-erase_at n (suc i) (y ∷ xs) x g = ground (arith, count-erase_at n i xs x)

length-erase_at :
    (i : ℕ) (xs : List Timer) (x : Timer)
    → get_elem? xs i ≡ some x
    → length xs ≡ suc (length (erase_at xs i))
length-erase_at i [] x g = cc
length-erase_at zero (y ∷ xs) x g = refl
length-erase_at (suc i) (y ∷ xs) x g = ground (arith, length-erase_at i xs x)

abbrev pub removed : ℕ → Transac → Transac
removed i s = record { trans_count = s.trans_count; timers = erase_at s.timers i }

pub removed-IsValid : (i : ℕ) (s : Transac) → IsValid s → IsValid (removed i s)
removed-IsValid i s v = record {
  keys = All-erase_at IsKey s.timers i v.keys;
  distinct = Distinct-erase i s.timers v.distinct;
  low = v.low;
  high = v.high;
}

length-word4 : (n : ℕ) → length (word4 n) ≡ 4
unfolding word4
length-word4 n = refl

-- The outcomes of CTransac::Check on a well formed table.
check_trans_cases {ℓ} :
    (P : Transac × ℕ → Type ℓ) (junk now : ℕ) (s : Transac)
    → IsValid s
    → (All (λ x. is_due now x ≡ false) s.timers → P (s, 0))
    → ((i : ℕ) (x : Timer)
        → get_elem? s.timers i ≡ some x
        → is_due now x ≡ true
        → 1 ≤ number x
        → P (removed i s, number x))
    → P (check_trans junk now s)
unfolding check_trans check
check_trans_cases P junk now s v none_due one_due =
    elim (Option-cases (find_index (is_due now) s.timers)) [
      | inl e ↦ rw (check_trans, check, e) (none_due (find_index-none (is_due now) s.timers e))
      | inr (i, e) ↦
          let (x, at, hit, below) = find_index-some (is_due now) s.timers i e in
          let (key, lo, hi) = All-get_elem? IsKey s.timers i x v.keys at in
          let fits : ltb 4 (length x.key) ≡ false = rw (key, length-word4 (number x)) refl in
          let no_limit : (ltb 0 (length x.value) && not (0 == 0)) ≡ false = ground arith in
          rw (check_trans, check, e, at, fits, no_limit) (one_due i x at hit lo)
    ]

append_nil : (xs : List ℕ) → xs ++ [] ≡ xs
append_nil [] = refl
append_nil (x ∷ xs) = ap (◌∷◌ x) (append_nil xs)

append_assoc : (xs ys zs : List ℕ) → (xs ++ ys) ++ zs ≡ xs ++ (ys ++ zs)
append_assoc [] ys zs = refl
append_assoc (x ∷ xs) ys zs = ap (◌∷◌ x) (append_assoc xs ys zs)

-- The time of a timer has come, or it has none or it is still to come.
abbrev pub IsExpired : ℕ → Timer → Type 0
IsExpired now x = (x.end_time ≢ 0) × (x.end_time ≤ now)

abbrev pub IsRunning : ℕ → Timer → Type 0
IsRunning now x = (x.end_time ≡ 0) ⊎ (now < x.end_time)

is_due-IsExpired : (now : ℕ) (x : Timer) → is_due now x ≡ true → IsExpired now x
is_due-IsExpired now x h = ((λ z. absurd (ground (arith, z, h))), ground (arith, h))

is_due-IsRunning : (now : ℕ) (x : Timer) → is_due now x ≡ false → IsRunning now x
is_due-IsRunning now x h = elim (ℕ_discrete x.end_time 0) [
  | yes z ↦ inl z
  | no nz ↦ inr (ground (arith, h))
]

All-IsRunning :
    (now : ℕ) (xs : List Timer) → All (λ x. is_due now x ≡ false) xs → All (IsRunning now) xs
All-IsRunning now [] h = tt
All-IsRunning now (x ∷ xs) h = (is_due-IsRunning now x h.0, All-IsRunning now xs h.1)

-- The number `m` is that of a timer of the list whose time had come at a reading of the clock, one
-- of those from `first` to before `last`.
pub record Aborted (clock : ℕ → ℕ) (first last : ℕ) (xs : List Timer) (m : ℕ) : Type 0 where
  pub timer : Timer
  pub place : ℕ
  pub at : get_elem? xs place ≡ some timer
  pub its_number : number timer ≡ m
  pub reading : ℕ
  pub within : (first ≤ reading) × (reading < last)
  pub expired : IsExpired (clock reading) timer

get_elem?-erase_at :
    (i j : ℕ) (xs : List Timer) (x : Timer)
    → get_elem? (erase_at xs i) j ≡ some x
    → (k : ℕ) × (get_elem? xs k ≡ some x)
get_elem?-erase_at i j [] x h = (j, h)
get_elem?-erase_at zero j (y ∷ xs) x h = (suc j, h)
get_elem?-erase_at (suc i) zero (y ∷ xs) x h = (0, h)
get_elem?-erase_at (suc i) (suc j) (y ∷ xs) x h =
    let (k, at) = get_elem?-erase_at i j xs x h in (suc k, at)

All-Aborted :
    (clock : ℕ → ℕ) (first last i : ℕ) (xs : List Timer) (ms : List ℕ)
    → All (Aborted clock (first + 1) last (erase_at xs i)) ms
    → All (Aborted clock first last xs) ms
All-Aborted clock first last i xs [] h = tt
All-Aborted clock first last i xs (m ∷ ms) h =
    let a = h.0 in
    let (k, at) = get_elem?-erase_at i a.place xs a.timer a.at in
    (
      record {
        timer = a.timer;
        place = k;
        at = at;
        its_number = a.its_number;
        reading = a.reading;
        within = (omega (arith, a.within.0), a.within.1);
        expired = a.expired;
      },
      All-Aborted clock first last i xs ms h.1,
    )

-- What the loop leaves: `n` is any number.
pub record Swept (clock : ℕ → ℕ) (n : ℕ) (before after : Sweep) : Type 0 where
  pub valid : IsValid after.transac
  pub goes_on : before.reads < after.reads
  pub none_due : All (IsRunning (clock (after.reads - 1))) after.transac.timers
  pub new : List ℕ
  pub appended : after.aborted ≡ before.aborted ++ new
  pub due : All (Aborted clock before.reads after.reads before.transac.timers) new
  pub kept :
      count n after.aborted + count n (numbers after.transac.timers)
      ≡ count n before.aborted + count n (numbers before.transac.timers)

-- With more fuel than there are transactions the loop over Check ends on a well formed table. At
-- its last reading of the clock the time of no transaction that is left has come; each transaction
-- that it aborts is one of the table whose time had come at a reading of the loop; and each number
-- is aborted as often as it has left the table.
pub sweep_lem :
    (fuel : ℕ) (clock : ℕ → ℕ) (junk n : ℕ) (r : Sweep)
    → IsValid r.transac
    → length r.transac.timers < fuel
    → (after : Sweep) × (sweep fuel clock junk r ≡ some after) × Swept clock n r after
unfolding sweep
sweep_lem zero clock junk n r v h = elim h [ ]
sweep_lem (suc fuel) clock junk n r v h =
    check_trans_cases
      (λ found.
        (after : Sweep) × (elim (found.1 == 0) [
          | true ↦ some (record { transac = found.0; reads = r.reads + 1; aborted = r.aborted })
          | false ↦ sweep fuel clock junk (record {
            transac = found.0;
            reads = r.reads + 1;
            aborted = r.aborted ++ found.1 ∷ [];
          })
        ]
          ≡ some after)
        × Swept clock n r after)
      junk (clock r.reads) r.transac v
      (λ none_due. (
        record { transac = r.transac; reads = r.reads + 1; aborted = r.aborted },
        refl,
        record {
          valid = v;
          goes_on = omega arith;
          none_due =
              subst (λ k. All (IsRunning (clock k)) r.transac.timers) (omega arith)
                (All-IsRunning (clock r.reads) r.transac.timers none_due);
          new = [];
          appended = sym (append_nil r.aborted);
          due = tt;
          kept = refl;
        },
      ))
      (λ i x at hit lo.
        let next : Sweep = record {
          transac = removed i r.transac;
          reads = r.reads + 1;
          aborted = r.aborted ++ number x ∷ [];
        } in
        let (after, run, swept) =
          sweep_lem fuel clock junk n next (removed-IsValid i r.transac v)
            (omega (arith, length-erase_at i r.transac.timers x at)) in
        let goes_on : (number x == 0) ≡ false = ground arith in
        (
          after,
          rw goes_on run,
          record {
            valid = swept.valid;
            goes_on = omega (arith, swept.goes_on);
            none_due = swept.none_due;
            new = number x ∷ swept.new;
            appended = swept.appended ∙ append_assoc r.aborted (number x ∷ []) swept.new;
            due = (
              record {
                timer = x;
                place = i;
                at = at;
                its_number = refl;
                reading = r.reads;
                within = (omega arith, omega (arith, swept.goes_on));
                expired = is_due-IsExpired (clock r.reads) x hit;
              },
              All-Aborted clock r.reads after.reads i r.transac.timers swept.new swept.due,
            );
            kept = omega (
              arith,
              swept.kept,
              count-append n (number x) r.aborted,
              count-erase_at n i r.transac.timers x at,
            );
          },
        ))
