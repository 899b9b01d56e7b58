-- ===== src/SincMem/Progress.antt =====
-- The processes cannot block one another for ever.
use gmonitor.Base.{
  ℕ, suc, ◌+◌, ◌-◌, ◌≤◌, ◌≡◌, refl, true, false, Bool, inl, inr, List, [], ◌∷◌, some, arith,
  get_elem?, ◌==◌, Bool-cases,
}
use gmonitor.SincMem.{
  Place, idle, writing, entering, first_reader, storing_in, entered, reading, leaving, storing_out,
  left, Shared, System, advance,
}
use gmonitor.SincMem.Sums.{sum, writes, holds}
use gmonitor.SincMem.Exclusion.{IsValid, alone_lem, agrees_at, Reachable, Reachable-IsValid}

-- A process in the middle of SetAt or GetAt.
abbrev pub is_busy : Place → Bool
is_busy idle = false
is_busy _ = true

-- A busy process that can make its next step.
pub record Runs (s : System) : Type 0 where
  pub index : ℕ
  pub place : Place
  pub result : Place × Shared
  pub there : get_elem? s.places index ≡ some place
  pub busy : is_busy place ≡ true
  pub goes : advance false place s.shared ≡ some result

at_some :
    (f : Place → ℕ) (ps : List Place)
    → 1 ≤ sum f ps
    → (i : ℕ) × (p : Place) × (get_elem? ps i ≡ some p) × (1 ≤ f p)
at_some f [] h = absurd (omega arith)
at_some f (p ∷ ps) h = elim (Bool-cases (f p == 0)) [
  | inl z ↦ let (i, q, g, k) = at_some f ps (ground arith) in (suc i, q, g, k)
  | inr z ↦ (0, p, refl, ground arith)
]

writer-Runs :
    (s : System) (i : ℕ) (p : Place) → get_elem? s.places i ≡ some p → 1 ≤ writes p → Runs s
unfolding advance
writer-Runs s i writing g k = record {
  index = i;
  place = writing;
  result = _;
  there = g;
  busy = refl;
  goes = refl;
}
writer-Runs s i idle g k = absurd (omega arith)
writer-Runs s i entering g k = absurd (omega arith)
writer-Runs s i (first_reader c) g k = absurd (omega arith)
writer-Runs s i (storing_in c) g k = absurd (omega arith)
writer-Runs s i entered g k = absurd (omega arith)
writer-Runs s i reading g k = absurd (omega arith)
writer-Runs s i leaving g k = absurd (omega arith)
writer-Runs s i (storing_out c) g k = absurd (omega arith)
writer-Runs s i left g k = absurd (omega arith)

-- A process at the counter runs, unless it is the first reader and waits for a writer, who runs.
holder-Runs :
    (s : System) (i : ℕ) (p : Place)
    → IsValid s
    → get_elem? s.places i ≡ some p
    → 1 ≤ holds p
    → Runs s
unfolding advance
holder-Runs s i entering v g k = record {
  index = i;
  place = entering;
  result = _;
  there = g;
  busy = refl;
  goes = refl;
}
holder-Runs s i (first_reader c) v g k =
    let alone = alone_lem s i (first_reader c) v g refl in
    let known = agrees_at s i (first_reader c) v g in
    elim (Bool-cases (s.shared.write_sem == 0)) [
      | inl z ↦
          let no_count : s.shared.count ≡ 0 = ground arith in
          let shut : s.shared.write_sem ≡ 0 = ground arith in
          let (j, q, there, writer) =
            at_some writes s.places (omega (arith, alone.others, v.count, v.lock)) in
          writer-Runs s j q there writer
      | inr z ↦ record {
        index = i;
        place = first_reader c;
        result = (storing_in c, record s.shared { write_sem = s.shared.write_sem - 1 });
        there = g;
        busy = refl;
        goes = rw (advance, z) refl;
      }
    ]
holder-Runs s i (storing_in c) v g k = record {
  index = i;
  place = storing_in c;
  result = _;
  there = g;
  busy = refl;
  goes = refl;
}
holder-Runs s i entered v g k = record {
  index = i;
  place = entered;
  result = _;
  there = g;
  busy = refl;
  goes = refl;
}
holder-Runs s i leaving v g k = elim (Bool-cases (s.shared.count == 0)) [
  | inl z ↦ record {
    index = i;
    place = leaving;
    result = (left, s.shared);
    there = g;
    busy = refl;
    goes = rw (advance, z) refl;
  }
  | inr z ↦ elim (Bool-cases (s.shared.count - 1 == 0)) [
    | inl y ↦ record {
      index = i;
      place = leaving;
      result = (
        storing_out (s.shared.count - 1),
        record s.shared { write_sem = s.shared.write_sem + 1 },
      );
      there = g;
      busy = refl;
      goes = rw (advance, z, y) refl;
    }
    | inr y ↦ record {
      index = i;
      place = leaving;
      result = (storing_out (s.shared.count - 1), s.shared);
      there = g;
      busy = refl;
      goes = rw (advance, z, y) refl;
    }
  ]
]
holder-Runs s i (storing_out c) v g k = record {
  index = i;
  place = storing_out c;
  result = _;
  there = g;
  busy = refl;
  goes = refl;
}
holder-Runs s i left v g k = record {
  index = i;
  place = left;
  result = _;
  there = g;
  busy = refl;
  goes = refl;
}
holder-Runs s i idle v g k = absurd (omega arith)
holder-Runs s i writing v g k = absurd (omega arith)
holder-Runs s i reading v g k = absurd (omega arith)

busy-Runs :
    (s : System) (i : ℕ) (p : Place)
    → IsValid s
    → get_elem? s.places i ≡ some p
    → is_busy p ≡ true
    → Runs s
unfolding advance
busy-Runs s i idle v g b = cc
busy-Runs s i writing v g b = writer-Runs s i writing g (omega arith)
busy-Runs s i reading v g b = elim (Bool-cases (s.shared.read_sem == 0)) [
  | inl z ↦
      let shut : s.shared.read_sem ≡ 0 = ground arith in
      let (j, q, there, holder) = at_some holds s.places (omega (arith, v.counter)) in
      holder-Runs s j q v there holder
  | inr z ↦ record {
    index = i;
    place = reading;
    result = (leaving, record s.shared { read_sem = s.shared.read_sem - 1 });
    there = g;
    busy = refl;
    goes = rw (advance, z) refl;
  }
]
busy-Runs s i entering v g b = holder-Runs s i entering v g (omega arith)
busy-Runs s i (first_reader c) v g b = holder-Runs s i (first_reader c) v g (omega arith)
busy-Runs s i (storing_in c) v g b = holder-Runs s i (storing_in c) v g (omega arith)
busy-Runs s i entered v g b = holder-Runs s i entered v g (omega arith)
busy-Runs s i leaving v g b = holder-Runs s i leaving v g (omega arith)
busy-Runs s i (storing_out c) v g b = holder-Runs s i (storing_out c) v g (omega arith)
busy-Runs s i left v g b = holder-Runs s i left v g (omega arith)

-- However the steps of the processes interleave, as long as a process is in the middle of SetAt or
-- GetAt there is one in such a place that does not have to wait.
pub no_deadlock :
    (s : System) (i : ℕ) (p : Place)
    → Reachable s
    → get_elem? s.places i ≡ some p
    → is_busy p ≡ true
    → Runs s
no_deadlock s i p r = busy-Runs s i p (Reachable-IsValid s r)
