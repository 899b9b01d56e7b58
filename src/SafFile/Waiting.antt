-- ===== src/SafFile/Waiting.antt =====
-- The abstract view of a store-and-forward file: the queue of the messages that wait in it.
use gmonitor.Base.{
  ℕ, zero, suc, ◌≡◌, refl, inl, inr, true, false, List, [], ◌∷◌, ◌++◌, Option, none, some, arith,
  ◌==◌, if◌then◌else◌, Bool-cases, All, length, get_elem?, set, erase_at, ap, ◌∙◌, subst, take,
}
use gmonitor.SafFile.{Slot, Entry, slot_at, size, deliverable}

abbrev pub content_of : Option Slot → List ℕ
content_of none = []
content_of (some x) = x.content

unfoldable pub content_at : List Slot → ℕ → List ℕ
content_at file p = content_of (slot_at p file)

-- The identifiers and bytes of the entries that Get may deliver, in its order.
abbrev pub waiting : List Slot → List Entry → List (ℕ × List ℕ)
waiting file [] = []
waiting file (e ∷ es) =
    if deliverable e
    then (e.id, content_at file e.header_pos) ∷ waiting file es
    else waiting file es

-- The record that an entry of the index speaks of.
abbrev pub Tracks : List Slot → Entry → Type 0
Tracks file e =
    (x : Slot) × (slot_at e.header_pos file ≡ some x)
    × (x.id ≡ e.id)
    × (x.record_len ≡ e.record_len)
    × (x.status ≡ e.status)
    × (x.trans ≡ e.trans)
    × (x.data_len ≡ length x.content)

abbrev pub NotAt : ℕ → List Entry → Type 0
NotAt p = All (λ (e : Entry). (e.header_pos == p) ≡ false)

-- No two entries speak of one position.
abbrev pub Apart : List Entry → Type 0
Apart [] = Unit {0}
Apart (e ∷ es) = NotAt e.header_pos es × Apart es

-- One record was written.
abbrev pub Written : ℕ → Slot → List Slot → List Slot → Type 0
Written p y file file' = (q : ℕ) → slot_at q file' ≡ (if p == q then some y else slot_at q file)

pub elsewhere :
    (p q : ℕ) (y : Slot) (file file' : List Slot)
    → Written p y file file'
    → (q == p) ≡ false
    → slot_at q file' ≡ slot_at q file
elsewhere p q y file file' w h = w q ∙ ground arith

content-elsewhere :
    (p q : ℕ) (y : Slot) (file file' : List Slot)
    → Written p y file file'
    → (q == p) ≡ false
    → content_at file' q ≡ content_at file q
unfolding content_at
content-elsewhere p q y file file' w h = ap content_of (elsewhere p q y file file' w h)

pub Tracks-frame :
    (p : ℕ) (y : Slot) (file file' : List Slot) (xs : List Entry)
    → Written p y file file'
    → NotAt p xs
    → All (Tracks file) xs
    → All (Tracks file') xs
Tracks-frame p y file file' [] w n t = tt
Tracks-frame p y file file' (e ∷ xs) w n t =
    let (x, at, id, len, state, owner, size) = t.0 in
    (
      (x, elsewhere p e.header_pos y file file' w n.0 ∙ at, id, len, state, owner, size),
      Tracks-frame p y file file' xs w n.1 t.1,
    )

pub waiting-frame :
    (p : ℕ) (y : Slot) (file file' : List Slot) (xs : List Entry)
    → Written p y file file'
    → NotAt p xs
    → waiting file' xs ≡ waiting file xs
waiting-frame p y file file' [] w n = refl
waiting-frame p y file file' (e ∷ xs) w n =
    let frame = waiting-frame p y file file' xs w n.1 in
    let same = content-elsewhere p e.header_pos y file file' w n.0 in
    elim (Bool-cases (deliverable e)) [
      | inl k ↦ rw (k, same, frame) refl
      | inr k ↦ rw (k, frame) refl
    ]

pub waiting-append :
    (file : List Slot) (xs : List Entry) (e : Entry)
    → deliverable e ≡ true
    → waiting file (xs ++ e ∷ []) ≡ waiting file xs ++ (e.id, content_at file e.header_pos) ∷ []
waiting-append file [] e h = rw h refl
waiting-append file (x ∷ xs) e h = elim (Bool-cases (deliverable x)) [
  | inl k ↦ rw (k, waiting-append file xs e h) refl
  | inr k ↦ rw (k, waiting-append file xs e h) refl
]

pub waiting-erase_at :
    (file : List Slot) (xs : List Entry) (i : ℕ) (e : Entry)
    → get_elem? xs i ≡ some e
    → deliverable e ≡ false
    → waiting file (erase_at xs i) ≡ waiting file xs
waiting-erase_at file [] i e g h = refl
waiting-erase_at file (x ∷ xs) zero e g h = ground arith
waiting-erase_at file (x ∷ xs) (suc i) e g h = ground (arith, waiting-erase_at file xs i e)

pub NotAt-get_elem? :
    (p i : ℕ) (xs : List Entry) (e : Entry)
    → NotAt p xs
    → get_elem? xs i ≡ some e
    → (e.header_pos == p) ≡ false
NotAt-get_elem? p i [] e n g = cc
NotAt-get_elem? p zero (x ∷ xs) e n g = ground arith
NotAt-get_elem? p (suc i) (x ∷ xs) e n g = NotAt-get_elem? p i xs e n.1 g

pub NotAt-erase_at : (p i : ℕ) (xs : List Entry) → NotAt p xs → NotAt p (erase_at xs i)
NotAt-erase_at p i [] n = n
NotAt-erase_at p zero (x ∷ xs) n = n.1
NotAt-erase_at p (suc i) (x ∷ xs) n = (n.0, NotAt-erase_at p i xs n.1)

pub Apart-erase_at :
    (i : ℕ) (xs : List Entry) (e : Entry)
    → Apart xs
    → get_elem? xs i ≡ some e
    → Apart (erase_at xs i) × NotAt e.header_pos (erase_at xs i)
Apart-erase_at i [] e a g = (a, tt)
Apart-erase_at zero (x ∷ xs) e a g = (a.1, ground arith)
Apart-erase_at (suc i) (x ∷ xs) e a g =
    let (apart, not_at) = Apart-erase_at i xs e a.1 g in
    (
      (NotAt-erase_at x.header_pos i xs a.0, apart),
      (ground (arith, NotAt-get_elem? x.header_pos i xs e a.0 g), not_at),
    )

pub Apart-append :
    (xs : List Entry) (e : Entry) → Apart xs → NotAt e.header_pos xs → Apart (xs ++ e ∷ [])
Apart-append [] e a n = (tt, tt)
Apart-append (x ∷ xs) e a n =
    (NotAt-append x.header_pos xs e a.0 (ground arith), Apart-append xs e a.1 n.1)
  where
    NotAt-append :
        (p : ℕ) (ys : List Entry) (z : Entry)
        → NotAt p ys
        → (z.header_pos == p) ≡ false
        → NotAt p (ys ++ z ∷ [])
    NotAt-append p [] z n h = (h, tt)
    NotAt-append p (y ∷ ys) z n h = (n.0, NotAt-append p ys z n.1 h)

NotAt-set :
    (p i : ℕ) (xs : List Entry) (e y : Entry)
    → get_elem? xs i ≡ some e
    → y.header_pos ≡ e.header_pos
    → NotAt p xs
    → NotAt p (set xs i y)
NotAt-set p i [] e y g h n = n
NotAt-set p zero (x ∷ xs) e y g h n = ground arith
NotAt-set p (suc i) (x ∷ xs) e y g h n = (n.0, NotAt-set p i xs e y g h n.1)

pub Apart-set :
    (i : ℕ) (xs : List Entry) (e y : Entry)
    → get_elem? xs i ≡ some e
    → y.header_pos ≡ e.header_pos
    → Apart xs
    → Apart (set xs i y)
Apart-set i [] e y g h a = a
Apart-set zero (x ∷ xs) e y g h a = ground arith
Apart-set (suc i) (x ∷ xs) e y g h a =
    (NotAt-set x.header_pos i xs e y g h a.0, Apart-set i xs e y g h a.1)

-- An entry that is marked, with the record that it speaks of.
pub Tracks-set :
    (p i : ℕ) (y : Slot) (file file' : List Slot) (xs : List Entry) (e z : Entry)
    → Written p y file file'
    → get_elem? xs i ≡ some e
    → e.header_pos ≡ p
    → Apart xs
    → Tracks file' z
    → All (Tracks file) xs
    → All (Tracks file') (set xs i z)
Tracks-set p i y file file' [] e z w g h a tz t = tt
Tracks-set p zero y file file' (x ∷ xs) e z w g h a tz t =
    (tz, Tracks-frame p y file file' xs w (subst (λ q. NotAt q xs) (ground arith) a.0) t.1)
Tracks-set p (suc i) y file file' (x ∷ xs) e z w g h a tz t =
    let (r, at, id, len, state, owner, size) = t.0 in
    let apart = NotAt-get_elem? x.header_pos i xs e a.0 g in
    (
      (r, elsewhere p x.header_pos y file file' w (ground arith) ∙ at, id, len, state, owner, size),
      Tracks-set p i y file file' xs e z w g h a.1 tz t.1,
    )

-- A record that stays out of the queue.
pub waiting-set_out :
    (p i : ℕ) (y : Slot) (file file' : List Slot) (xs : List Entry) (e z : Entry)
    → Written p y file file'
    → get_elem? xs i ≡ some e
    → e.header_pos ≡ p
    → Apart xs
    → deliverable e ≡ false
    → deliverable z ≡ false
    → waiting file' (set xs i z) ≡ waiting file xs
waiting-set_out p i y file file' [] e z w g h a k l = refl
waiting-set_out p zero y file file' (x ∷ xs) e z w g h a k l =
    let frame = waiting-frame p y file file' xs w (subst (λ q. NotAt q xs) (ground arith) a.0) in
    ground arith
waiting-set_out p (suc i) y file file' (x ∷ xs) e z w g h a k l =
    let apart = NotAt-get_elem? x.header_pos i xs e a.0 g in
    let same = content-elsewhere p x.header_pos y file file' w (ground arith) in
    let rest = waiting-set_out p i y file file' xs e z w g h a.1 k l in
    elim (Bool-cases (deliverable x)) [
      | inl j ↦ rw (j, same, rest) refl
      | inr j ↦ rw (j, rest) refl
    ]

-- The record at the head of the queue leaves it.
pub waiting-set_first :
    (p i : ℕ) (y : Slot) (file file' : List Slot) (xs : List Entry) (e z : Entry)
    → Written p y file file'
    → get_elem? xs i ≡ some e
    → e.header_pos ≡ p
    → Apart xs
    → All (λ (x : Entry). deliverable x ≡ false) (take i xs)
    → deliverable e ≡ true
    → deliverable z ≡ false
    → waiting file xs ≡ (e.id, content_at file e.header_pos) ∷ waiting file' (set xs i z)
waiting-set_first p i y file file' [] e z w g h a f k l = cc
waiting-set_first p zero y file file' (x ∷ xs) e z w g h a f k l =
    let frame = waiting-frame p y file file' xs w (subst (λ q. NotAt q xs) (ground arith) a.0) in
    let same : x ≡ e = ground arith in rw (same, k, l, frame) refl
waiting-set_first p (suc i) y file file' (x ∷ xs) e z w g h a f k l =
    rw f.0 (waiting-set_first p i y file file' xs e z w g h a.1 f.1 k l)

pub content_at-slot_at :
    (file : List Slot) (p : ℕ) (x : Slot) → slot_at p file ≡ some x → content_at file p ≡ x.content
unfolding content_at
content_at-slot_at file p x h = ap content_of h
