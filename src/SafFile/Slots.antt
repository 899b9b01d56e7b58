-- ===== src/SafFile/Slots.antt =====
-- Reading a record after one is written over or behind the others.
use gmonitor.Base.{ℕ, ◌-◌, ◌≤◌, ◌<◌, ◌≡◌, List, [], ◌∷◌, some, arith, ◌==◌, if◌then◌else◌, All}
use gmonitor.SafFile.{Slot, slot_at, write_at, size}

-- Every record has a length.
abbrev pub Sized : List Slot → Type 0
Sized = All (λ (x : Slot). 1 ≤ x.record_len)

-- A record that is replaced by one of its length is the only one that changes.
pub slot_at-write_at :
    (p q : ℕ) (x y : Slot) (file : List Slot)
    → Sized file
    → slot_at p file ≡ some x
    → y.record_len ≡ x.record_len
    → slot_at q (write_at p y file) ≡ (if p == q then some y else slot_at q file)
unfolding slot_at write_at
slot_at-write_at p q x y [] z e h = absurd (ground arith)
slot_at-write_at p q x y (s ∷ file) z e h =
    ground (arith, slot_at-write_at (p - s.record_len) (q - s.record_len) x y file)

pub slot_at-below :
    (p : ℕ) (x : Slot) (file : List Slot) → Sized file → slot_at p file ≡ some x → p < size file
unfolding slot_at size
slot_at-below p x [] z e = absurd (ground arith)
slot_at-below p x (s ∷ file) z e = ground (arith, slot_at-below (p - s.record_len) x file)

-- A record that is written at the end.
pub slot_at-write_at-size :
    (q : ℕ) (y : Slot) (file : List Slot)
    → Sized file
    → 1 ≤ y.record_len
    → slot_at q (write_at (size file) y file) ≡ (if size file == q then some y else slot_at q file)
unfolding slot_at write_at size
slot_at-write_at-size q y [] z h = ground arith
slot_at-write_at-size q y (s ∷ file) z h =
    ground (arith, slot_at-write_at-size (q - s.record_len) y file)

pub Sized-write_at :
    (p : ℕ) (y : Slot) (file : List Slot)
    → Sized file
    → 1 ≤ y.record_len
    → Sized (write_at p y file)
unfolding write_at
Sized-write_at p y [] z h = (h, tt)
Sized-write_at p y (s ∷ file) z h = ground (arith, Sized-write_at (p - s.record_len) y file)

pub slot_at-Sized :
    (p : ℕ) (x : Slot) (file : List Slot) → Sized file → slot_at p file ≡ some x → 1 ≤ x.record_len
unfolding slot_at
slot_at-Sized p x [] z e = absurd (ground arith)
slot_at-Sized p x (s ∷ file) z e = ground (arith, slot_at-Sized (p - s.record_len) x file)
