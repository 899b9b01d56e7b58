-- ===== src/SincMem/Sums.antt =====
-- The numbers of processes at places.
use gmonitor.Base.{
  ℕ, zero, suc, ◌+◌, ◌≤◌, ◌≡◌, refl, true, ◌&&◌, Bool, List, [], ◌∷◌, some, arith, set, get_elem?,
  ◌==◌, All,
}
use gmonitor.SincMem.{
  Place, idle, writing, entering, first_reader, storing_in, entered, reading, leaving, storing_out,
  left,
}

abbrev pub sum : (Place → ℕ) → List Place → ℕ
sum f [] = 0
sum f (p ∷ ps) = f p + sum f ps

pub sum-set :
    (f : Place → ℕ) (ps : List Place) (i : ℕ) (p q : Place)
    → get_elem? ps i ≡ some p
    → sum f (set ps i q) + f p ≡ sum f ps + f q
sum-set f [] i p q g = cc
sum-set f (x ∷ ps) zero p q g = let same : f x ≡ f p = ground arith in omega (arith, same)
sum-set f (x ∷ ps) (suc i) p q g = omega (arith, sum-set f ps i p q g)

-- A writer behind its Wait.
abbrev pub writes : Place → ℕ
writes writing = 1
writes _ = 0

-- A process between Wait and Signal of the semaphore of the counter.
abbrev pub holds : Place → ℕ
holds idle = 0
holds writing = 0
holds reading = 0
holds _ = 1

-- A reader that the stored count has in it.
abbrev pub counted : Place → ℕ
counted entered = 1
counted reading = 1
counted leaving = 1
counted (storing_out _) = 1
counted _ = 0

-- A reader for which the writers are shut out.
abbrev pub active : Place → ℕ
active (storing_in _) = 1
active entered = 1
active reading = 1
active leaving = 1
active _ = 0

-- A reader in the middle of GetAt.
abbrev pub reads : Place → ℕ
reads reading = 1
reads _ = 0

reads_here : (x : Place) → reads x ≤ active x
reads_here idle = omega arith
reads_here writing = omega arith
reads_here entering = omega arith
reads_here (first_reader _) = omega arith
reads_here (storing_in _) = omega arith
reads_here entered = omega arith
reads_here reading = omega arith
reads_here leaving = omega arith
reads_here (storing_out _) = omega arith
reads_here left = omega arith

pub reads-le-active : (ps : List Place) → sum reads ps ≤ sum active ps
reads-le-active [] = omega arith
reads-le-active (p ∷ ps) = omega (arith, reads-le-active ps, reads_here p)

counted_here : (x : Place) → holds x ≡ 0 → counted x ≡ active x
counted_here idle h = refl
counted_here writing h = refl
counted_here reading h = refl
counted_here entering h = absurd (omega arith)
counted_here (first_reader _) h = absurd (omega arith)
counted_here (storing_in _) h = absurd (omega arith)
counted_here entered h = absurd (omega arith)
counted_here leaving h = absurd (omega arith)
counted_here (storing_out _) h = absurd (omega arith)
counted_here left h = absurd (omega arith)

-- Without a process at the counter, the readers that count are those that read.
pub counted_active : (ps : List Place) → sum holds ps ≡ 0 → sum counted ps ≡ sum active ps
counted_active [] h = refl
counted_active (p ∷ ps) h =
    omega (arith, counted_active ps (omega arith), counted_here p (omega arith))

pub sum-get_elem? :
    (f : Place → ℕ) (ps : List Place) (i : ℕ) (p : Place) → get_elem? ps i ≡ some p → f p ≤ sum f ps
sum-get_elem? f [] i p g = cc
sum-get_elem? f (x ∷ ps) zero p g = let same : f x ≡ f p = ground arith in omega (arith, same)
sum-get_elem? f (x ∷ ps) (suc i) p g = omega (arith, sum-get_elem? f ps i p g)

-- A variable of a process that agrees with the stored count.
abbrev pub agrees : ℕ → Place → Bool
agrees count (first_reader c) = c == 1 && count == 0
agrees count (storing_in c) = c == count + 1
agrees count (storing_out c) = c + 1 == count
agrees count idle = true
agrees count writing = true
agrees count entering = true
agrees count entered = true
agrees count reading = true
agrees count leaving = true
agrees count left = true

agrees_here : (count : ℕ) (x : Place) → holds x ≡ 0 → agrees count x ≡ true
agrees_here count idle h = refl
agrees_here count writing h = refl
agrees_here count reading h = refl
agrees_here count entering h = refl
agrees_here count (first_reader _) h = absurd (omega arith)
agrees_here count (storing_in _) h = absurd (omega arith)
agrees_here count entered h = refl
agrees_here count leaving h = refl
agrees_here count (storing_out _) h = absurd (omega arith)
agrees_here count left h = refl

agrees_all : (count : ℕ) (ps : List Place) → sum holds ps ≡ 0 → All (λ p. agrees count p ≡ true) ps
agrees_all count [] h = tt
agrees_all count (p ∷ ps) h = (agrees_here count p (omega arith), agrees_all count ps (omega arith))

-- The only process at the counter may store another count.
pub agrees_alone :
    (count : ℕ) (ps : List Place) (i : ℕ) (p q : Place)
    → get_elem? ps i ≡ some p
    → sum holds ps ≡ holds p
    → agrees count q ≡ true
    → All (λ r. agrees count r ≡ true) (set ps i q)
agrees_alone count [] i p q g h a = tt
agrees_alone count (x ∷ ps) zero p q g h a =
    let same : holds x ≡ holds p = ground arith in (a, agrees_all count ps (omega (arith, same)))
agrees_alone count (x ∷ ps) (suc i) p q g h a =
    let at_least = sum-get_elem? holds ps i p g in
    (agrees_here count x (omega arith), agrees_alone count ps i p q g (omega arith) a)
