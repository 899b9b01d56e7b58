-- ===== src/SafFile/Invariant.antt =====
-- The file and its index agree, through every operation but AbortGet.
use gmonitor.Base.{
  ℕ, ◌%◌, ◌≤◌, ◌≡◌, refl, inl, inr, true, false, Bool, not, ◌&&◌, ◌||◌, List, [], ◌∷◌, some, arith,
  ◌==◌, Option-cases, All, All-append, All-set, All-get_elem?, length, get_elem?, set, take,
  length-take, find_index, find_index-some, find_index_first, ◌∙◌, subst,
}
use gmonitor.SafFile.{
  Slot, Entry, Saf, Stdio, slot_at, write_at, size, status_x, find, put, mark, new_slot, gen_id,
  entry_of,
}
use gmonitor.SafFile.Slots.{Sized, Sized-write_at, slot_at-write_at, slot_at-Sized}
use gmonitor.SafFile.Counts.{live, live-append}
use gmonitor.SafFile.Waiting.{
  Tracks, NotAt, Apart, Written, Tracks-frame, Tracks-set, Apart-append, Apart-set,
}

-- Only the control record has the status X, with its identifier and transaction.
abbrev pub is_control_entry : Stdio → Entry → Bool
is_control_entry env e = not (e.status == status_x) || (e.id == 0 && e.trans == env.junk)

pub record IsValid (env : Stdio) (file : List Slot) (s : Saf) : Type 0 where
  pub is_open : s.m_fd ≡ some file
  pub sized : Sized file
  pub tracked : All (Tracks file) s.index
  pub apart : Apart s.index
  pub counted : s.data_count ≡ live s.index % 18446744073709551616
  pub control : All (λ e. is_control_entry env e ≡ true) s.index

-- The object is open on a file that its index describes.
abbrev pub Ready : Stdio → Saf → Type 0
Ready env s = (file : List Slot) × IsValid env file s

pub find_lem :
    (p : Entry → Bool) (xs : List Entry) (i : ℕ) (e : Entry)
    → find p xs ≡ some (i, e)
    → (get_elem? xs i ≡ some e) × (p e ≡ true) × All (λ x. p x ≡ false) (take i xs)
unfolding find
find_lem p xs i e h = elim (Option-cases (find_index p xs)) [
  | inl f ↦ absurd (ground arith)
  | inr (j, f) ↦
      let (y, at, hit, below) = find_index-some p xs j f in
      let first = find_index_first p xs j f in
      let place : j ≡ i = ground arith in
      (
        ground arith,
        ground arith,
        subst (λ (k : ℕ). All (λ x. p x ≡ false) (take k xs)) place first,
      )
]

pub Tracks-get_elem? :
    (file : List Slot) (xs : List Entry) (i : ℕ) (e : Entry)
    → All (Tracks file) xs
    → get_elem? xs i ≡ some e
    → Tracks file e
Tracks-get_elem? file = All-get_elem? (Tracks file)

-- A new record at a position that no entry of the rest of the index has.
pub put-IsValid :
    (content : List ℕ) (len trans : ℕ) (file : List Slot) (pos record_len record_count : ℕ)
    (index : List Entry) (s : Saf) (env : Stdio)
    → len ≤ length content
    → 1 ≤ record_len
    → Written pos
        (new_slot content len trans (gen_id s.last_id) record_len)
        file
        (write_at pos (new_slot content len trans (gen_id s.last_id) record_len) file)
    → Sized file
    → All (Tracks file) index
    → Apart index
    → NotAt pos index
    → s.data_count ≡ live index % 18446744073709551616
    → All (λ e. is_control_entry env e ≡ true) index
    → Ready env (put content len trans file pos record_len record_count index s)
unfolding put
put-IsValid content len trans file pos record_len record_count index s env fits lo w z t a n c k =
    let y = new_slot content len trans (gen_id s.last_id) record_len in
    let e = entry_of pos y in
    let file' = write_at pos y file in
    (
      file',
      record {
        is_open = refl;
        sized = Sized-write_at pos y file z lo;
        tracked =
            All-append (Tracks file') index (e ∷ []) (Tracks-frame pos y file file' index w n t) (
              (
                y,
                w pos ∙ ground arith,
                refl,
                refl,
                refl,
                refl,
                omega (arith, length-take len content),
              ),
              tt,
            );
        apart = Apart-append index e a n;
        counted = omega (arith, live-append index e refl);
        control = All-append (λ x. is_control_entry env x ≡ true) index (e ∷ []) k (refl, tt);
      },
    )

abbrev pub marked : ℕ → ℕ → Slot → Slot
marked status trans x = record {
  id = x.id;
  trans = trans;
  record_len = x.record_len;
  data_len = x.data_len;
  status = status;
  content = x.content;
}

abbrev pub marked_entry : ℕ → ℕ → Entry → Entry
marked_entry status trans e = record {
  id = e.id;
  trans = trans;
  record_len = e.record_len;
  status = status;
  header_pos = e.header_pos;
}

-- The file and the index after a mark, the counter apart.
pub mark-IsValid :
    (status trans i : ℕ) (e : Entry) (x : Slot) (file : List Slot) (data_count : ℕ) (s : Saf)
    (env : Stdio)
    → IsValid env file s
    → get_elem? s.index i ≡ some e
    → slot_at e.header_pos file ≡ some x
    → (status == status_x) ≡ false
    → data_count ≡ live (set s.index i (marked_entry status trans e)) % 18446744073709551616
    → Ready env (mark status trans i e x file data_count s)
unfolding mark
mark-IsValid status trans i e x file data_count s env v g at nx c =
    let y = marked status trans x in
    let z = marked_entry status trans e in
    let file' = write_at e.header_pos y file in
    let w : Written e.header_pos y file file' =
      λ q. slot_at-write_at e.header_pos q x y file v.sized at refl in
    let (r, at', id, len, state, owner, size) = Tracks-get_elem? file s.index i e v.tracked g in
    let same : r ≡ x = ground arith in
    (
      file',
      record {
        is_open = refl;
        sized =
            Sized-write_at e.header_pos y file v.sized
              (slot_at-Sized e.header_pos x file v.sized at);
        tracked =
            Tracks-set e.header_pos i y file file' s.index e z w g refl v.apart
              (
                y,
                w e.header_pos ∙ ground arith,
                ground arith,
                ground arith,
                refl,
                refl,
                ground arith,
              )
              v.tracked;
        apart = Apart-set i s.index e z g refl v.apart;
        counted = c;
        control = All-set (λ u. is_control_entry env u ≡ true) s.index i z (rw nx refl) v.control;
      },
    )
