-- ===== src/SafFile/Reachable.antt =====
-- The states that the operations reach from a new file.
use gmonitor.Base.{
  ℕ, ◌%◌, ◌≤◌, ◌<◌, ◌≡◌, refl, ap, inl, inr, true, false, List, none, some, arith, ◌==◌, Bool-cases,
  Option-cases, length, ◌∙◌, subst, sym, min,
}
use gmonitor.SafFile.{
  Saf, Stdio, status_s, find, fresh, deliverable, add, get, commit_get, delete, open_file,
  get_saf_info, scan, insert_index,
}
use gmonitor.SafFile.Counts.{live-set_same}
use gmonitor.SafFile.Invariant.{Ready, find_lem, Tracks-get_elem?, mark-IsValid, marked_entry}
use gmonitor.SafFile.Queue.{queue-add}
use gmonitor.SafFile.Settling.{emptied, emptied-IsValid}
use gmonitor.SafFile.Commits.{queue-commit_get, delete-Ready}

-- The index has fewer entries than data_count can count.
abbrev Small : Saf → Type 0
Small s = length s.index < 18446744073709551616

-- One call of an operation other than AbortGet. A Delete does not name the transaction of the
-- control record.
pub data Step (env : Stdio) : Saf → Saf → Type 0 where
  adds :
      (s : Saf) (content : List ℕ) (len trans : ℕ)
      → len ≤ length content
      → Step env s (add (some content) len trans s).0
  gets : (s : Saf) (max_len trans : ℕ) → Step env s (get max_len trans s).0
  commits : (s : Saf) (id trans : ℕ) → Small s → Step env s (commit_get env id trans s).0
  deletes :
      (s : Saf) (id trans : ℕ)
      → Small s
      → (trans == env.junk) ≡ false
      → Step env s (delete env id trans s).0

-- Calls from a file that Open has just created.
pub data Reachable (env : Stdio) : Saf → Type 0 where
  created : Reachable env (open_file env (fresh none none)).0
  then_step : (s s' : Saf) → Reachable env s → Step env s s' → Reachable env s'

add-Ready :
    (content : List ℕ) (len trans : ℕ) (s : Saf) (env : Stdio)
    → Ready env s
    → len ≤ length content
    → Ready env (add (some content) len trans s).0
unfolding add
add-Ready content len trans s env r fits = elim (Bool-cases (len == 0)) [
  | inl z ↦ rw (add, z) r
  | inr nz ↦ (queue-add content len trans s env r fits nz).ready
]

get-Ready :
    (max_len trans : ℕ) (s : Saf) (env : Stdio) → Ready env s → Ready env (get max_len trans s).0
unfolding get
get-Ready max_len trans s env (file, v) = elim (Option-cases (find deliverable s.index)) [
  | inl empty ↦ rw (get, v.is_open, empty) (file, v)
  | inr ((i, e), f) ↦
      let (g, hit, before) = find_lem deliverable s.index i e f in
      let (x, at, same_id, fit, state, owner, measure) =
        Tracks-get_elem? file s.index i e v.tracked g in
      elim (Bool-cases (min max_len x.data_len == 0)) [
        | inl z ↦ rw (get, v.is_open, f, at, z) (file, v)
        | inr nz ↦
            rw (get, v.is_open, f, at, nz)
              (mark-IsValid status_s trans i e x file s.data_count s env v g at refl (
                v.counted
                ∙ ap (λ k. k % 18446744073709551616)
                    (sym (
                      live-set_same s.index i e (marked_entry status_s trans e) g (ground arith)
                        refl))))
      ]
]

created_emptied :
    (env : Stdio) → env.creates ≡ true → (open_file env (fresh none none)).0 ≡ emptied env
unfolding open_file get_saf_info scan insert_index
created_emptied env c = rw c refl

Step-Ready :
    (env : Stdio) (s s' : Saf) → env.creates ≡ true → Ready env s → Step env s s' → Ready env s'
Step-Ready env s s' c r (adds _ content len trans fits) = add-Ready content len trans s env r fits
Step-Ready env s s' c r (gets _ max_len trans) = get-Ready max_len trans s env r
Step-Ready env s s' c r (commits _ id trans small) = (queue-commit_get id trans s env r small c).0
Step-Ready env s s' c r (deletes _ id trans small other) =
    delete-Ready id trans s env r small c other

-- After any calls of Add, Get, CommitGet and Delete on a file that was created, the object is
-- open, each index entry speaks of a record of its own with its identifier, transaction, status
-- and length, and data_count is the number of index entries that are neither deleted nor the
-- control record, modulo 2^64; provided that files can be created, that at each CommitGet and
-- Delete the index has fewer than 2^64 entries, and that no Delete names the transaction of the
-- control record.
pub Reachable-Ready : (env : Stdio) (s : Saf) → env.creates ≡ true → Reachable env s → Ready env s
Reachable-Ready env s c created =
    subst (Ready env) (sym (created_emptied env c)) (emptied-IsValid env)
Reachable-Ready env s c (then_step before _ r step) =
    Step-Ready env before s c (Reachable-Ready env before c r) step
