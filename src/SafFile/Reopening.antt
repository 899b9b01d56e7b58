-- ===== src/SafFile/Reopening.antt =====
-- Open on a file that exists: GetSafInfo builds the index that describes it.
use gmonitor.Base.{
  ℕ, suc, ◌+◌, ◌-◌, ◌≤◌, ◌<◌, ◌≡◌, refl, inl, inr, true, false, Bool, ◌&&◌, List, [], ◌∷◌, none,
  some, arith, ◌==◌, ltb, if◌then◌else◌, Bool-cases, All, length, ◌∙◌, subst, ℤ, success,
}
use gmonitor.SafFile.{
  Slot, Entry, Saf, Stdio, slot_at, is_live, entry_of, inc64, is_control, fresh, insert_index, scan,
  get_saf_info, open_existing, open_file,
}
use gmonitor.SafFile.Slots.{Sized}
use gmonitor.SafFile.Counts.{live}
use gmonitor.SafFile.Waiting.{Tracks, NotAt, Apart}
use gmonitor.SafFile.Invariant.{IsValid, is_control_entry}

-- The records stand one behind the other from a position on.
abbrev At : ℕ → List Slot → List Slot → Type 0
At p [] file = Unit {0}
At p (x ∷ xs) file = (slot_at p file ≡ some x) × At (p + x.record_len) xs file

At-shift :
    (p : ℕ) (xs : List Slot) (y : Slot) (file : List Slot)
    → 1 ≤ y.record_len
    → At p xs file
    → At (p + y.record_len) xs (y ∷ file)
unfolding slot_at
At-shift p [] y file h a = tt
At-shift p (x ∷ xs) y file h a =
    let back : p + y.record_len - y.record_len ≡ p = omega arith in
    let later : (p + y.record_len == 0) ≡ false = ground arith in
    let behind : ltb (p + y.record_len) y.record_len ≡ false = ground arith in
    (
      rw (later, behind, back) a.0,
      subst (λ q. At q xs (y ∷ file)) (omega arith) (At-shift (p + x.record_len) xs y file h a.1),
    )

At-start : (file : List Slot) → Sized file → At 0 file file
unfolding slot_at
At-start [] z = tt
At-start (x ∷ file) z = (refl, At-shift 0 file x file z.0 (At-start file z.1))

All-insert_index :
    (P : Entry → Type 0) (e : Entry) (xs : List Entry) → P e → All P xs → All P (insert_index e xs)
unfolding insert_index
All-insert_index P e [] p a = (p, tt)
All-insert_index P e (x ∷ xs) p a = elim (Bool-cases (ltb e.id x.id)) [
  | inl h ↦ rw h (p, a)
  | inr h ↦ rw h (a.0, All-insert_index P e xs p a.1)
]

Apart-insert_index :
    (e : Entry) (xs : List Entry) → NotAt e.header_pos xs → Apart xs → Apart (insert_index e xs)
unfolding insert_index
Apart-insert_index e [] n a = (tt, tt)
Apart-insert_index e (x ∷ xs) n a = elim (Bool-cases (ltb e.id x.id)) [
  | inl h ↦ rw h (n, a)
  | inr h ↦ rw h (
    All-insert_index (λ y. (y.header_pos == x.header_pos) ≡ false) e xs (ground arith) a.0,
    Apart-insert_index e xs n.1 a.1,
  )
]

live-insert_index :
    (e : Entry) (xs : List Entry)
    → live (insert_index e xs) ≡ (if is_live e.status then suc (live xs) else live xs)
unfolding insert_index
live-insert_index e [] = refl
live-insert_index e (x ∷ xs) = ground (arith, live-insert_index e xs)

-- The records that data_count counts.
abbrev pub live_slots : List Slot → ℕ
live_slots [] = 0
live_slots (x ∷ xs) = if is_live x.status then suc (live_slots xs) else live_slots xs

-- A record with a length that holds all of its data, and that is the control record if it has
-- that status.
abbrev pub is_sound : Stdio → Slot → Bool
is_sound env x =
    ltb 0 x.record_len && (x.data_len == length x.content && is_control_entry env (entry_of 0 x))

before_all :
    (p q : ℕ) (xs : List Entry)
    → p ≤ q
    → All (λ (e : Entry). e.header_pos < p) xs
    → All (λ (e : Entry). e.header_pos < q) xs
before_all p q [] h a = tt
before_all p q (e ∷ xs) h a = (omega arith, before_all p q xs h a.1)

NotAt-before : (p : ℕ) (xs : List Entry) → All (λ (e : Entry). e.header_pos < p) xs → NotAt p xs
NotAt-before p [] a = tt
NotAt-before p (e ∷ xs) a = (ground arith, NotAt-before p xs a.1)

-- The object after GetSafInfo has read a record at a position.
abbrev scanned : ℕ → Slot → Saf → Saf
scanned pos x s = record {
  disk = s.disk;
  m_fd = s.m_fd;
  last_id = if ltb s.last_id x.id then x.id else s.last_id;
  record_count = inc64 s.record_count;
  data_count = if is_live x.status then inc64 s.data_count else s.data_count;
  index = insert_index (entry_of pos x) s.index;
}

scanned-IsValid :
    (env : Stdio) (pos : ℕ) (x : Slot) (file : List Slot) (s : Saf)
    → slot_at pos file ≡ some x
    → is_sound env x ≡ true
    → All (λ e. e.header_pos < pos) s.index
    → IsValid env file s
    → IsValid env file (scanned pos x s)
scanned-IsValid env pos x file s at sound before v =
    let e = entry_of pos x in
    record {
      is_open = v.is_open;
      sized = v.sized;
      tracked =
          All-insert_index (Tracks file) e s.index (x, at, refl, refl, refl, refl, ground arith)
            v.tracked;
      apart = Apart-insert_index e s.index (NotAt-before pos s.index before) v.apart;
      counted = elim (Bool-cases (is_live x.status)) [
        | inl h ↦
            let more : live (insert_index e s.index) ≡ suc (live s.index) =
              ground (arith, live-insert_index e s.index) in
            rw h (omega (arith, v.counted, more))
        | inr h ↦
            let same : live (insert_index e s.index) ≡ live s.index =
              ground (arith, live-insert_index e s.index) in
            rw h (omega (arith, v.counted, same))
      ];
      control =
          All-insert_index (λ u. is_control_entry env u ≡ true) e s.index (ground arith) v.control;
    }

scan_lem :
    (env : Stdio) (pos : ℕ) (xs file : List Slot) (s : Saf)
    → At pos xs file
    → All (λ x. is_sound env x ≡ true) xs
    → All (λ e. e.header_pos < pos) s.index
    → IsValid env file s
    → IsValid env file (scan pos xs s) × (live (scan pos xs s).index ≡ live s.index + live_slots xs)
unfolding scan
scan_lem env pos [] file s at sound before v = (v, omega arith)
scan_lem env pos (x ∷ xs) file s at sound before v =
    let e = entry_of pos x in
    let next = scanned pos x s in
    let lo : 1 ≤ x.record_len = ground (arith, sound.0) in
    let (valid, counts) =
      scan_lem env (pos + x.record_len) xs file next at.1 sound.1
        (All-insert_index (λ u. u.header_pos < pos + x.record_len) e s.index (omega arith)
          (before_all pos (pos + x.record_len) s.index (omega arith) before))
        (scanned-IsValid env pos x file s at.0 sound.0 before v) in
    (valid, counts ∙ ground (arith, live-insert_index e s.index))

sound-Sized : (env : Stdio) (xs : List Slot) → All (λ x. is_sound env x ≡ true) xs → Sized xs
sound-Sized env [] a = tt
sound-Sized env (x ∷ xs) a = (ground (arith, a.0), sound-Sized env xs a.1)

-- What Open leaves of a file that exists.
pub record Opened (env : Stdio) (file : List Slot) (r : Saf × ℤ) : Type 0 where
  pub succeeds : r.1 ≡ success
  pub valid : IsValid env file r.0
  pub counts : live r.0.index ≡ live_slots file

-- Open on a file that begins with the control record, and whose records hold their data,
-- succeeds and leaves the records as they are. It builds an index whose entries each speak of a
-- record of their own, and counts as many records as the file has that are neither deleted nor
-- the control record.
pub open_existing_lem :
    (env : Stdio) (header : Slot) (rest : List Slot) (s : Saf)
    → s.m_fd ≡ none
    → s.disk ≡ some (header ∷ rest)
    → is_control header ≡ true
    → All (λ x. is_sound env x ≡ true) (header ∷ rest)
    → Opened env (header ∷ rest) (open_file env s)
unfolding open_file open_existing get_saf_info
open_existing_lem env header rest s closed there first sound =
    let file = header ∷ rest in
    let start : Saf = fresh none (some file) in
    let empty : IsValid env file start = record {
      is_open = refl;
      sized = sound-Sized env file sound;
      tracked = tt;
      apart = tt;
      counted = refl;
      control = tt;
    } in
    let (valid, counts) =
      scan_lem env 0 file file start (At-start file (sound-Sized env file sound)) sound tt empty in
    rw (open_file, closed, there, open_existing, first)
      (record { succeeds = refl; valid = valid; counts = counts ∙ omega arith })
