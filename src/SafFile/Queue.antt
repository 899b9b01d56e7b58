-- ===== src/SafFile/Queue.antt =====
-- A store-and-forward file is a queue: Add puts messages behind it, Get takes its head, and
-- CommitGet leaves it as it is.
use gmonitor.Base.{
  ℕ, ◌+◌, ◌%◌, ◌≤◌, ◌≡◌, refl, ap, inl, inr, true, false, List, [], ◌∷◌, ◌++◌, none, some, arith,
  ◌==◌, Option-cases, All, All-erase_at, length, set, erase_at, take, ◌∙◌, sym, ℤ, success,
}
use gmonitor.SafFile.{
  Slot, Entry, Saf, Stdio, write_at, size, find, put, mark, new_slot, gen_id, entry_of, header_size,
  inc64, reusable, add,
}
use gmonitor.SafFile.Slots.{
  Sized, slot_at-write_at, slot_at-write_at-size, slot_at-below, slot_at-Sized,
}
use gmonitor.SafFile.Counts.{live-erase_at}
use gmonitor.SafFile.Waiting.{
  Tracks, NotAt, Written, Apart-erase_at, waiting, waiting-frame, waiting-append, waiting-erase_at,
  content_at-slot_at,
}
use gmonitor.SafFile.Invariant.{
  Ready, find_lem, Tracks-get_elem?, put-IsValid, marked, marked_entry, is_control_entry,
}

-- The messages that wait, with their identifiers.
abbrev pub queue : Saf → List (ℕ × List ℕ)
queue s = elim s.m_fd [ none ↦ [] | some file ↦ waiting file s.index ]

pub queue-put :
    (content : List ℕ) (len trans : ℕ) (file : List Slot) (pos record_len record_count : ℕ)
    (index : List Entry) (s : Saf)
    → Written pos
        (new_slot content len trans (gen_id s.last_id) record_len)
        file
        (write_at pos (new_slot content len trans (gen_id s.last_id) record_len) file)
    → NotAt pos index
    → queue (put content len trans file pos record_len record_count index s)
      ≡ waiting file index ++ (gen_id s.last_id, take len content) ∷ []
unfolding put
queue-put content len trans file pos record_len record_count index s w n =
    let y = new_slot content len trans (gen_id s.last_id) record_len in
    let e = entry_of pos y in
    let file' = write_at pos y file in
    let read = content_at-slot_at file' pos y (w pos ∙ ground arith) in
    let step = waiting-append file' index e refl in
    let frame = waiting-frame pos y file file' index w n in step ∙ rw (frame, read) refl

NotAt-size :
    (file : List Slot) (xs : List Entry) → Sized file → All (Tracks file) xs → NotAt (size file) xs
NotAt-size file [] z t = tt
NotAt-size file (e ∷ xs) z t =
    let (x, at, id, len, state, owner, measure) = t.0 in
    (ground (arith, slot_at-below e.header_pos x file z at), NotAt-size file xs z t.1)

-- What a successful Add does to the queue.
pub record Added (env : Stdio) (item : ℕ × List ℕ) (s : Saf) (r : Saf × ℤ) : Type 0 where
  pub succeeds : r.1 ≡ success
  pub ready : Ready env r.0
  pub behind : queue r.0 ≡ queue s ++ item ∷ []

-- Add of bytes, not none of them, to a file that its index describes succeeds, keeps the file and
-- the index in agreement, and puts the bytes behind the queue under the next identifier, whether
-- it uses a deleted record again or extends the file.
pub queue-add :
    (content : List ℕ) (len trans : ℕ) (s : Saf) (env : Stdio)
    → Ready env s
    → len ≤ length content
    → (len == 0) ≡ false
    → Added env (gen_id s.last_id, take len content) s (add (some content) len trans s)
unfolding add
queue-add content len trans s env (file, v) fits nz =
    elim (Option-cases (find (reusable len) s.index)) [
      | inl none_free ↦
          let y = new_slot content len trans (gen_id s.last_id) (len + header_size) in
          let w : Written (size file) y file (write_at (size file) y file) =
            λ q. slot_at-write_at-size q y file v.sized (omega arith) in
          let n = NotAt-size file s.index v.sized v.tracked in
          rw (nz, v.is_open, none_free)
            (record {
              succeeds = refl;
              ready =
                  put-IsValid content len trans file (size file) (len + header_size)
                    (inc64 s.record_count) s.index s env fits (omega arith) w v.sized v.tracked
                    v.apart n v.counted v.control;
              behind =
                  queue-put content len trans file (size file) (len + header_size)
                    (inc64 s.record_count) s.index s w n;
            })
      | inr ((i, e), f) ↦
          let (g, hit, before) = find_lem (reusable len) s.index i e f in
          let (x, at, id, fit, state, owner, measure) =
            Tracks-get_elem? file s.index i e v.tracked g in
          let y = new_slot content len trans (gen_id s.last_id) x.record_len in
          let w : Written e.header_pos y file (write_at e.header_pos y file) =
            λ q. slot_at-write_at e.header_pos q x y file v.sized at refl in
          let (apart, n) = Apart-erase_at i s.index e v.apart g in
          let rest = waiting-erase_at file s.index i e g (ground arith) in
          rw (nz, v.is_open, f, at)
            (record {
              succeeds = refl;
              ready =
                  put-IsValid content len trans file e.header_pos x.record_len s.record_count
                    (erase_at s.index i) s env fits (slot_at-Sized e.header_pos x file v.sized at) w
                    v.sized (All-erase_at (Tracks file) s.index i v.tracked) apart n
                    (v.counted
                      ∙ ap (λ k. k % 18446744073709551616)
                          (sym (live-erase_at s.index i e g (ground arith))))
                    (All-erase_at (λ u. is_control_entry env u ≡ true) s.index i v.control);
              behind =
                  queue-put content len trans file e.header_pos x.record_len s.record_count
                    (erase_at s.index i) s w n
                  ∙ rw rest refl;
            })
    ]

pub queue-mark :
    (status trans i : ℕ) (e : Entry) (x : Slot) (file : List Slot) (data_count : ℕ) (s : Saf)
    → queue (mark status trans i e x file data_count s)
      ≡ waiting
          (write_at e.header_pos (marked status trans x) file)
          (set s.index i (marked_entry status trans e))
unfolding mark
queue-mark status trans i e x file data_count s = refl

-- The queue of an open object.
pub queue_open : (s : Saf) (file : List Slot) → s.m_fd ≡ some file → queue s ≡ waiting file s.index
queue_open s file h = rw h refl
