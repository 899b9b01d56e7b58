-- ===== src/SafFile/Delivery.antt =====
-- Get takes the head of the queue.
use gmonitor.Base.{
  ℕ, ◌%◌, ◌≡◌, refl, ap, inl, inr, false, Bool, List, [], ◌∷◌, none, arith, ◌==◌, Option-cases, All,
  length, find_index, find_index-some, find_index-none, set, take, ◌∙◌, sym, min,
}
use gmonitor.SafFile.{Slot, Entry, Saf, Stdio, write_at, status_s, find, deliverable, get}
use gmonitor.SafFile.Slots.{slot_at-write_at}
use gmonitor.SafFile.Counts.{live-set_same}
use gmonitor.SafFile.Waiting.{Written, waiting, waiting-set_first, content_at-slot_at}
use gmonitor.SafFile.Invariant.{
  Ready, find_lem, Tracks-get_elem?, mark-IsValid, marked, marked_entry,
}
use gmonitor.SafFile.Queue.{queue, queue-mark, queue_open}

find-none : (p : Entry → Bool) (xs : List Entry) → find p xs ≡ none → All (λ x. p x ≡ false) xs
unfolding find
find-none p xs e = elim (Option-cases (find_index p xs)) [
  | inl f ↦ find_index-none p xs f
  | inr (j, f) ↦ let (y, at, hit, below) = find_index-some p xs j f in absurd (ground arith)
]

waiting-none :
    (file : List Slot) (xs : List Entry)
    → All (λ (x : Entry). deliverable x ≡ false) xs
    → waiting file xs ≡ []
waiting-none file [] h = refl
waiting-none file (x ∷ xs) h = rw h.0 (waiting-none file xs h.1)

-- What a successful Get does to the queue, from the head that it delivers and the rest.
pub record Taken (env : Stdio) (id : ℕ) (sent : List ℕ) (rest : List (ℕ × List ℕ))
    (r : Saf × ℕ × List ℕ) : Type 0 where
  pub ready : Ready env r.0
  pub id_is : r.1 ≡ id
  pub sent_is : r.2 ≡ sent
  pub rest_is : queue r.0 ≡ rest

-- Get on a file that its index describes, with space for at least a byte, returns the identifier
-- at the head of the queue with as many bytes of that message as there is space for, if the
-- message has any, and leaves the rest of the queue.
pub queue-get :
    (max_len trans : ℕ) (s : Saf) (env : Stdio) (id : ℕ) (content : List ℕ)
    (rest : List (ℕ × List ℕ))
    → Ready env s
    → queue s ≡ (id, content) ∷ rest
    → (min max_len (length content) == 0) ≡ false
    → Taken env id (take (min max_len (length content)) content) rest (get max_len trans s)
unfolding get
queue-get max_len trans s env id content rest (file, v) q nz =
    let q' = sym (queue_open s file v.is_open) ∙ q in
    elim (Option-cases (find deliverable s.index)) [
      | inl empty ↦
          let none_left = waiting-none file s.index (find-none deliverable s.index empty) in
          absurd (ground arith)
      | inr ((i, e), f) ↦
          let (g, hit, before) = find_lem deliverable s.index i e f in
          let (x, at, same_id, fit, state, owner, measure) =
            Tracks-get_elem? file s.index i e v.tracked g in
          let y = marked status_s trans x in
          let z = marked_entry status_s trans e in
          let w : Written e.header_pos y file (write_at e.header_pos y file) =
            λ p. slot_at-write_at e.header_pos p x y file v.sized at refl in
          let split =
            waiting-set_first e.header_pos i y file (write_at e.header_pos y file) s.index e z w g
              refl v.apart before hit refl in
          let read = content_at-slot_at file e.header_pos x at in
          let split' : (id, content) ∷ rest
              ≡ (e.id, x.content) ∷ waiting (write_at e.header_pos y file) (set s.index i z) =
            sym q' ∙ split ∙ rw read refl in
          let ids : id ≡ x.id = ground arith in
          let bytes : content ≡ x.content = ground arith in
          let rests : rest ≡ waiting (write_at e.header_pos y file) (set s.index i z) =
            ground arith in
          let some_left : (min max_len x.data_len == 0) ≡ false = rw (measure, sym bytes) nz in
          rw (get, v.is_open, f, at, some_left)
            (record {
              ready = mark-IsValid status_s trans i e x file s.data_count s env v g at refl (
                  v.counted
                  ∙ ap (λ k. k % 18446744073709551616)
                      (sym (live-set_same s.index i e z g (ground arith) refl)));
              id_is = sym ids;
              sent_is = rw (measure, bytes) refl;
              rest_is = queue-mark status_s trans i e x file s.data_count s ∙ sym rests;
            })
    ]
