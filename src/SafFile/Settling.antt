-- ===== src/SafFile/Settling.antt =====
-- CommitGet, AbortGet and Delete, and the drop of a file without data.
use gmonitor.Base.{
  ℕ, ◌≤◌, ◌<◌, ◌≡◌, refl, inl, inr, ◌⊎◌, true, false, Bool, ◌&&◌, List, [], ◌∷◌, none, some, arith,
  ◌==◌, Bool-cases, Option-cases, length, get_elem?, length-set, ◌∙◌, sym, ℤ, success, failure,
}
use gmonitor.SafFile.{
  Slot, Entry, Saf, Stdio, slot_at, status_d, is_live, locate, mark, entry_of, dec64, settle, clean,
  open_file, close_file, get_saf_info, scan, insert_index, control_record,
}
use gmonitor.SafFile.Counts.{live, live-set_less}
use gmonitor.SafFile.Waiting.{waiting}
use gmonitor.SafFile.Invariant.{
  IsValid, Ready, find_lem, Tracks-get_elem?, mark-IsValid, marked_entry,
}
use gmonitor.SafFile.Queue.{queue, queue_open}

live-waiting : (file : List Slot) (xs : List Entry) → live xs ≡ 0 → waiting file xs ≡ []
live-waiting file [] h = refl
live-waiting file (x ∷ xs) h = ground (arith, live-waiting file xs)

pub live-le : (xs : List Entry) → live xs ≤ length xs
live-le [] = omega arith
live-le (x ∷ xs) = ground (arith, live-le xs)

-- The object after a drop: open on a new file.
abbrev pub emptied : Stdio → Saf
emptied env = record {
  disk = none;
  m_fd = some (control_record env ∷ []);
  last_id = 0;
  record_count = 1;
  data_count = 0;
  index = entry_of 0 (control_record env) ∷ [];
}

pub clean_zero :
    (env : Stdio) (s : Saf) (file : List Slot)
    → env.creates ≡ true
    → s.m_fd ≡ some file
    → s.data_count ≡ 0
    → clean env s ≡ emptied env
unfolding clean close_file open_file get_saf_info scan insert_index
clean_zero env s file c o h = rw (h, o, c) refl

pub emptied-IsValid : (env : Stdio) → Ready env (emptied env)
unfolding slot_at
emptied-IsValid env = (
  control_record env ∷ [],
  record {
    is_open = refl;
    sized = (omega arith, tt);
    tracked = ((control_record env, refl, refl, refl, refl, refl, refl), tt);
    apart = (tt, tt);
    counted = refl;
    control = (ground arith, tt);
  },
)

-- Without anything to deliver, a drop loses nothing.
pub clean-queue :
    (env : Stdio) (s : Saf)
    → env.creates ≡ true
    → length s.index < 18446744073709551616
    → Ready env s
    → Ready env (clean env s) × (queue (clean env s) ≡ queue s)
unfolding clean
clean-queue env s c small (file, v) = elim (Bool-cases (s.data_count == 0)) [
  | inl h ↦
      let zero_count : s.data_count ≡ 0 = ground arith in
      let none_live : live s.index ≡ 0 = omega (arith, v.counted, live-le s.index) in
      rw (clean_zero env s file c v.is_open zero_count) (
        emptied-IsValid env,
        sym (queue_open s file v.is_open ∙ live-waiting file s.index none_live),
      )
  | inr h ↦ rw (clean, h) ((file, v), refl)
]

-- The entry that a search finds: by its identifier, or by its transaction.
pub locate_lem :
    (id trans : ℕ) (xs : List Entry) (i : ℕ) (e : Entry)
    → locate id trans xs ≡ some (i, e)
    → (get_elem? xs i ≡ some e)
      × ((((id == 0) ≡ false) × (e.id ≡ id)) ⊎ (((id == 0) ≡ true) × (e.trans ≡ trans)))
unfolding locate
locate_lem id trans xs i e h = elim (Bool-cases (id == 0)) [
  | inl k ↦
      let (g, hit, before) = find_lem (λ x. x.trans == trans) xs i e (ground arith) in
      (g, inr (k, ground arith))
  | inr k ↦
      let (g, hit, before) = find_lem (λ x. x.id == id) xs i e (ground arith) in
      (g, inl (k, ground arith))
]

-- The outcomes of CommitGet, AbortGet and Delete on an open object: a refusal that changes
-- nothing, or a record that is marked.
pub settle_cases {ℓ} :
    (P : Saf × ℤ → Type ℓ) (allowed : ℕ → Bool) (status : ℕ) (env : Stdio) (id trans : ℕ) (s : Saf)
    (file : List Slot)
    → IsValid env file s
    → P (s, failure)
    → ((i : ℕ) (e : Entry) (x : Slot)
        → locate id trans s.index ≡ some (i, e)
        → get_elem? s.index i ≡ some e
        → allowed e.status ≡ true
        → slot_at e.header_pos file ≡ some x
        → (id == 0 && trans == 0) ≡ false
        → P (clean env (mark status 0 i e x file (dec64 s.data_count) s), success))
    → P (settle allowed status env id trans s)
unfolding settle
settle_cases P allowed status env id trans s file v refused done =
    elim (Bool-cases (id == 0 && trans == 0)) [
      | inl nothing ↦ rw (settle, v.is_open, nothing) refused
      | inr some_key ↦ elim (Option-cases (locate id trans s.index)) [
        | inl missing ↦ rw (settle, v.is_open, some_key, missing) refused
        | inr ((i, e), found) ↦
            let (g, by) = locate_lem id trans s.index i e found in
            let (x, at, same_id, fit, state, owner, measure) =
              Tracks-get_elem? file s.index i e v.tracked g in
            elim (Bool-cases (allowed e.status)) [
              | inl granted ↦
                  rw (settle, v.is_open, some_key, found, granted, at)
                    (done i e x found g granted at some_key)
              | inr denied ↦ rw (settle, v.is_open, some_key, found, denied) refused
            ]
      ]
    ]

-- A counted record that is marked as deleted.
pub mark_deleted-Ready :
    (i : ℕ) (e : Entry) (x : Slot) (file : List Slot) (s : Saf) (env : Stdio)
    → IsValid env file s
    → get_elem? s.index i ≡ some e
    → slot_at e.header_pos file ≡ some x
    → is_live e.status ≡ true
    → Ready env (mark status_d 0 i e x file (dec64 s.data_count) s)
mark_deleted-Ready i e x file s env v g at l =
    let less = live-set_less s.index i e (marked_entry status_d 0 e) g l refl in
    mark-IsValid status_d 0 i e x file (dec64 s.data_count) s env v g at refl
      (omega (arith, v.counted, less))

pub mark_small :
    (status trans i : ℕ) (e : Entry) (x : Slot) (file : List Slot) (data_count : ℕ) (s : Saf)
    → length s.index < 18446744073709551616
    → length (mark status trans i e x file data_count s).index < 18446744073709551616
unfolding mark
mark_small status trans i e x file data_count s h =
    omega (arith, length-set s.index i (marked_entry status trans e))
