-- ===== src/Router/Choice.antt =====
-- Which queue SelectQueue returns.
use gmonitor.Base.{
  ℕ, zero, suc, ◌+◌, ◌-◌, ◌<◌, ◌≡◌, refl, ◌∙◌, inl, inr, true, false, List, [], ◌∷◌, arith, ltb,
  if◌then◌else◌, Bool-cases, length, ℤ, pos, negsuc,
}
use gmonitor.Tables.Queues.{In}
use gmonitor.Router.{queue_at, is_negative, next_index, is_better, rotate}

pub In-queue_at : (colas : List ℤ) (qi : ℕ) → qi < length colas → In (queue_at colas qi) colas
unfolding queue_at
In-queue_at [] qi h = elim h [ ]
In-queue_at (c ∷ colas) zero h = inl refl
In-queue_at (c ∷ colas) (suc qi) h = inr (In-queue_at colas qi (omega arith))

next_index_below : (vlen qi : ℕ) → qi < vlen → next_index vlen qi < vlen
unfolding next_index
next_index_below vlen qi h = ground arith

pub In-rotate :
    (counts : ℤ → ℤ) (colas : List ℤ) (n qi : ℕ) (candidate : ℤ)
    → qi < length colas
    → In candidate colas
    → In (rotate counts colas n qi candidate) colas
unfolding rotate
In-rotate counts colas zero qi candidate h m = m
In-rotate counts colas (suc n) qi candidate h m =
    let below = next_index_below (length colas) qi h in
    let c = queue_at colas (next_index (length colas) qi) in
    elim (Bool-cases (is_better (counts c) (counts candidate))) [
      | inl e ↦ rw e (
          In-rotate counts colas n (next_index (length colas) qi) c below
            (In-queue_at colas (next_index (length colas) qi) below))
      | inr e ↦ rw e (In-rotate counts colas n (next_index (length colas) qi) candidate below m)
    ]

no_better_trans : (a b d : ℤ) → is_better a b ≡ false → is_better d b ≡ true → is_better a d ≡ false
no_better_trans (negsuc a) b d h k = refl
no_better_trans (pos a) (pos b) (pos d) h k = ground arith
no_better_trans (pos a) (pos b) (negsuc d) h k = absurd (ground arith)
no_better_trans (pos a) (negsuc b) (pos d) h k = absurd (ground arith)
no_better_trans (pos a) (negsuc b) (negsuc d) h k = absurd (ground arith)

pub not_better : (a : ℤ) → is_better a a ≡ false
not_better (pos n) = ground arith
not_better (negsuc n) = refl

-- The candidate only gets better.
pub rotate_keeps :
    (counts : ℤ → ℤ) (colas : List ℤ) (n qi : ℕ) (candidate c : ℤ)
    → is_better (counts c) (counts candidate) ≡ false
    → is_better (counts c) (counts (rotate counts colas n qi candidate)) ≡ false
unfolding rotate
rotate_keeps counts colas zero qi candidate c h = h
rotate_keeps counts colas (suc n) qi candidate c h =
    let next = next_index (length colas) qi in
    let d = queue_at colas next in
    elim (Bool-cases (is_better (counts d) (counts candidate))) [
      | inl e ↦ rw e (
          rotate_keeps counts colas n next d c
            (no_better_trans (counts c) (counts candidate) (counts d) h e))
      | inr e ↦ rw e (rotate_keeps counts colas n next candidate c h)
    ]

better_readable :
    (counts : ℤ → ℤ) (c d : ℤ)
    → is_better (counts c) (counts d) ≡ true
    → is_negative (counts c) ≡ false
better_readable counts c d h = ground arith

-- A candidate that can be read is replaced by such ones only.
pub rotate_readable :
    (counts : ℤ → ℤ) (colas : List ℤ) (n qi : ℕ) (candidate : ℤ)
    → is_negative (counts candidate) ≡ false
    → is_negative (counts (rotate counts colas n qi candidate)) ≡ false
unfolding rotate
rotate_readable counts colas zero qi candidate h = h
rotate_readable counts colas (suc n) qi candidate h =
    let next = next_index (length colas) qi in
    let d = queue_at colas next in
    elim (Bool-cases (is_better (counts d) (counts candidate))) [
      | inl e ↦ rw e (rotate_readable counts colas n next d (better_readable counts d candidate e))
      | inr e ↦ rw e (rotate_readable counts colas n next candidate h)
    ]

-- Where the index stands after some rounds.
abbrev pub walk : ℕ → ℕ → ℕ → ℕ
walk vlen qi zero = qi
walk vlen qi (suc t) = walk vlen (next_index vlen qi) t

walk_lem :
    (vlen qi t : ℕ)
    → qi < vlen
    → t < vlen
    → walk vlen qi t ≡ (if ltb (qi + t) vlen then qi + t else qi + t - vlen)
unfolding next_index
walk_lem vlen qi zero h k = ground arith
walk_lem vlen qi (suc t) h k =
    ground (arith, walk_lem vlen (next_index vlen qi) t (next_index_below vlen qi h) (omega arith))

-- No queue that the loop has read is better than its result.
pub rotate_visits :
    (counts : ℤ → ℤ) (colas : List ℤ) (n qi : ℕ) (candidate : ℤ) (t : ℕ)
    → t < n
    → is_better
        (counts (queue_at colas (walk (length colas) qi (suc t))))
        (counts (rotate counts colas n qi candidate))
      ≡ false
unfolding rotate
rotate_visits counts colas zero qi candidate t h = elim h [ ]
rotate_visits counts colas (suc n) qi candidate zero h =
    let next = next_index (length colas) qi in
    let d = queue_at colas next in
    elim (Bool-cases (is_better (counts d) (counts candidate))) [
      | inl e ↦ rw e (rotate_keeps counts colas n next d d (not_better (counts d)))
      | inr e ↦ rw e (rotate_keeps counts colas n next candidate d e)
    ]
rotate_visits counts colas (suc n) qi candidate (suc t) h =
    let next = next_index (length colas) qi in
    let d = queue_at colas next in
    rotate_visits counts colas n next
      (if is_better (counts d) (counts candidate) then d else candidate) t (omega arith)

-- The round in which the index stands at `m`.
abbrev pub round_of : ℕ → ℕ → ℕ → ℕ
round_of vlen qi m = if ltb m qi then m + vlen - qi else m - qi

pub walk-round_of : (vlen qi m : ℕ) → qi < vlen → m < vlen → walk vlen qi (round_of vlen qi m) ≡ m
walk-round_of vlen qi m h k =
    let small : round_of vlen qi m < vlen = ground arith in
    walk_lem vlen qi (round_of vlen qi m) h small ∙ ground arith
