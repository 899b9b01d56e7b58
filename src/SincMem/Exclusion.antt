-- ===== src/SincMem/Exclusion.antt =====
-- Writers are alone: no process reads or writes while another one writes.
use gmonitor.Base.{
  ℕ, zero, suc, ◌+◌, ◌-◌, ◌≤◌, ◌≡◌, refl, subst, true, false, Bool, inl, inr, Option, none, some,
  arith, set, replicate, get_elem?, ◌==◌, All, All-set, All-get_elem?, Bool-cases, min,
}
use gmonitor.SincMem.{
  Place, idle, writing, entering, first_reader, storing_in, entered, reading, leaving, storing_out,
  left, Shared, System, Step, runs, advance, create,
}
use gmonitor.SincMem.Sums.{
  sum, sum-set, writes, holds, counted, active, reads, reads-le-active, counted_active,
  sum-get_elem?, agrees, agrees_alone,
}

-- The semaphores and the counter agree with where the processes stand.
pub record IsValid (s : System) : Type 0 where
  pub counter : s.shared.read_sem + sum holds s.places ≡ 1
  pub count : s.shared.count ≡ sum counted s.places
  pub lock : s.shared.write_sem + sum writes s.places + min 1 (sum active s.places) ≡ 1
  pub agree : All (λ p. agrees s.shared.count p ≡ true) s.places

abbrev Kept : System → ℕ → Option (Place × Shared) → Type 0
Kept s i none = Unit {0}
Kept s i (some r) = IsValid (record { shared = r.1; places = set s.places i r.0 })

-- Behind a process at the counter stand none but readers that count.
pub record Alone (s : System) (p : Place) : Type 0 where
  pub one : sum holds s.places ≡ holds p
  pub others : sum counted s.places + active p ≡ sum active s.places + counted p

pub alone_lem :
    (s : System) (i : ℕ) (p : Place)
    → IsValid s
    → get_elem? s.places i ≡ some p
    → holds p ≡ 1
    → Alone s p
alone_lem s i p v g h =
    let at_least = sum-get_elem? holds s.places i p g in
    let one : sum holds s.places ≡ holds p = omega (arith, v.counter) in
    let rest : sum holds (set s.places i idle) ≡ 0 =
      omega (arith, sum-set holds s.places i p idle g) in
    record {
      one = one;
      others = omega (
        arith,
        counted_active (set s.places i idle) rest,
        sum-set counted s.places i p idle g,
        sum-set active s.places i p idle g,
      );
    }

-- A process goes from `p` to `q`, and the semaphores and the counter with it.
moved :
    (s : System) (i : ℕ) (p q : Place) (m : Shared)
    → IsValid s
    → get_elem? s.places i ≡ some p
    → m.read_sem + holds q ≡ s.shared.read_sem + holds p
    → m.count + counted p ≡ s.shared.count + counted q
    → m.write_sem + writes q + min 1 (sum active s.places + active q - active p)
      ≡ s.shared.write_sem + writes p + min 1 (sum active s.places)
    → All (λ r. agrees m.count r ≡ true) (set s.places i q)
    → IsValid (record { shared = m; places = set s.places i q })
moved s i p q m v g counter count lock agree =
    let active_set = sum-set active s.places i p q g in
    let after : sum active (set s.places i q) ≡ sum active s.places + active q - active p =
      omega arith in
    record {
      counter = omega (arith, v.counter, sum-set holds s.places i p q g);
      count = omega (arith, v.count, sum-set counted s.places i p q g);
      lock = omega (arith, v.lock, sum-set writes s.places i p q g);
      agree = agree;
    }

-- The agreement where the count stays.
agree_same :
    (s : System) (i : ℕ) (q : Place)
    → IsValid s
    → agrees s.shared.count q ≡ true
    → All (λ r. agrees s.shared.count r ≡ true) (set s.places i q)
agree_same s i q v a = All-set (λ r. agrees s.shared.count r ≡ true) s.places i q a v.agree

-- What a process knows of the count.
pub agrees_at :
    (s : System) (i : ℕ) (p : Place)
    → IsValid s
    → get_elem? s.places i ≡ some p
    → agrees s.shared.count p ≡ true
agrees_at s i p v g = All-get_elem? (λ r. agrees s.shared.count r ≡ true) s.places i p v.agree g

advance-IsValid :
    (s : System) (i : ℕ) (sets : Bool) (p : Place)
    → IsValid s
    → get_elem? s.places i ≡ some p
    → Kept s i (advance sets p s.shared)
unfolding advance
advance-IsValid s i true idle v g = elim (Bool-cases (s.shared.write_sem == 0)) [
  | inl z ↦ rw (advance, z) tt
  | inr z ↦
      rw (advance, z)
        (moved s i idle writing _ v g (omega arith) (omega arith) (ground (arith, v.lock))
          (agree_same s i writing v refl))
]
advance-IsValid s i false idle v g = elim (Bool-cases (s.shared.read_sem == 0)) [
  | inl z ↦ rw (advance, z) tt
  | inr z ↦
      rw (advance, z)
        (moved s i idle entering _ v g (ground arith) (omega arith) (omega arith)
          (agree_same s i entering v refl))
]
advance-IsValid s i sets writing v g =
    moved s i writing idle _ v g (omega arith) (omega arith) (omega arith)
      (agree_same s i idle v refl)
advance-IsValid s i sets entering v g =
    let alone = alone_lem s i entering v g refl in
    elim (Bool-cases (s.shared.count + 1 == 1)) [
      | inl z ↦
          rw (advance, z)
            (moved s i entering (first_reader (s.shared.count + 1)) s.shared v g (omega arith)
              (omega arith) (omega arith)
              (agree_same s i (first_reader (s.shared.count + 1)) v (ground arith)))
      | inr z ↦
          rw (advance, z)
            (moved s i entering (storing_in (s.shared.count + 1)) s.shared v g (omega arith)
              (omega arith) (ground (arith, alone.others, v.count))
              (agree_same s i (storing_in (s.shared.count + 1)) v (ground arith)))
    ]
advance-IsValid s i sets (first_reader c) v g =
    let alone = alone_lem s i (first_reader c) v g refl in
    let known = agrees_at s i (first_reader c) v g in
    elim (Bool-cases (s.shared.write_sem == 0)) [
      | inl z ↦ rw (advance, z) tt
      | inr z ↦
          rw (advance, z)
            (moved s i (first_reader c) (storing_in c) _ v g (omega arith) (omega arith)
              (ground (arith, alone.others, v.count))
              (agree_same s i (storing_in c) v (ground arith)))
    ]
advance-IsValid s i sets (storing_in c) v g =
    let alone = alone_lem s i (storing_in c) v g refl in
    let known = agrees_at s i (storing_in c) v g in
    moved s i (storing_in c) entered _ v g (omega arith) (ground arith) (omega arith)
      (agrees_alone c s.places i (storing_in c) entered g alone.one refl)
advance-IsValid s i sets entered v g =
    moved s i entered reading _ v g (omega arith) (omega arith) (omega arith)
      (agree_same s i reading v refl)
advance-IsValid s i sets reading v g = elim (Bool-cases (s.shared.read_sem == 0)) [
  | inl z ↦ rw (advance, z) tt
  | inr z ↦
      rw (advance, z)
        (moved s i reading leaving _ v g (ground arith) (omega arith) (omega arith)
          (agree_same s i leaving v refl))
]
advance-IsValid s i sets leaving v g =
    let alone = alone_lem s i leaving v g refl in
    let at_least = sum-get_elem? counted s.places i leaving g in
    let some_count : (s.shared.count == 0) ≡ false = ground (arith, v.count) in
    elim (Bool-cases (s.shared.count - 1 == 0)) [
      | inl z ↦
          rw (advance, some_count, z)
            (moved s i leaving (storing_out (s.shared.count - 1)) _ v g (omega arith) (omega arith)
              (ground (arith, alone.others, v.count))
              (agree_same s i (storing_out (s.shared.count - 1)) v (ground arith)))
      | inr z ↦
          rw (advance, some_count, z)
            (moved s i leaving (storing_out (s.shared.count - 1)) s.shared v g (omega arith)
              (omega arith) (ground (arith, alone.others, v.count))
              (agree_same s i (storing_out (s.shared.count - 1)) v (ground arith)))
    ]
advance-IsValid s i sets (storing_out c) v g =
    let alone = alone_lem s i (storing_out c) v g refl in
    let known = agrees_at s i (storing_out c) v g in
    moved s i (storing_out c) left _ v g (omega arith) (ground arith) (omega arith)
      (agrees_alone c s.places i (storing_out c) left g alone.one refl)
advance-IsValid s i sets left v g =
    moved s i left idle _ v g (omega arith) (omega arith) (omega arith) (agree_same s i idle v refl)

-- The systems that the steps reach from a memory that was created, with every process idle.
pub data Reachable : System → Type 0 where
  created : (n : ℕ) → Reachable (create (replicate n idle))
  then_step : (s s' : System) → Reachable s → Step s s' → Reachable s'

all_idle : (f : Place → ℕ) (n : ℕ) → f idle ≡ 0 → sum f (replicate n idle) ≡ 0
all_idle f zero h = refl
all_idle f (suc n) h = omega (arith, all_idle f n h)

all_agree : (n : ℕ) → All (λ p. agrees 0 p ≡ true) (replicate n idle)
all_agree zero = tt
all_agree (suc n) = (refl, all_agree n)

create-IsValid : (n : ℕ) → IsValid (create (replicate n idle))
unfolding create
create-IsValid n = record {
  counter = omega (arith, all_idle holds n refl);
  count = omega (arith, all_idle counted n refl);
  lock = omega (arith, all_idle writes n refl, all_idle active n refl);
  agree = all_agree n;
}

pub Reachable-IsValid : (s : System) → Reachable s → IsValid s
Reachable-IsValid s (created n) = create-IsValid n
Reachable-IsValid s (then_step before _ r (runs _ i sets p q m g e)) =
    subst (Kept before i) e (advance-IsValid before i sets p (Reachable-IsValid before r) g)

-- However the steps of the processes interleave, at most one process writes, and none reads
-- meanwhile.
pub writers_alone :
    (s : System) → Reachable s → sum writes s.places + min 1 (sum reads s.places) ≤ 1
writers_alone s r = let v = Reachable-IsValid s r in omega (arith, v.lock, reads-le-active s.places)
