-- ===== src/SafFile/Commits.antt =====
-- Settling what was delivered: CommitGet leaves the queue alone, and AbortGet can lose it.
use gmonitor.Base.{
  ℕ, ◌<◌, ◌≡◌, refl, inl, inr, true, false, not, ◌&&◌, [], some, arith, ◌==◌, All-get_elem?, length,
  ◌∙◌, sym, success,
}
use gmonitor.SafFile.{
  Entry, Saf, Stdio, write_at, status_s, status_f, status_d, is_live, locate, mark, dec64, settle,
  commit_get, abort_get, delete,
}
use gmonitor.SafFile.Slots.{slot_at-write_at}
use gmonitor.SafFile.Counts.{live}
use gmonitor.SafFile.Waiting.{Written, waiting-set_out}
use gmonitor.SafFile.Invariant.{Ready, Tracks-get_elem?, marked, marked_entry, is_control_entry}
use gmonitor.SafFile.Queue.{queue, queue-mark, queue_open}
use gmonitor.SafFile.Settling.{
  emptied, clean_zero, clean-queue, locate_lem, settle_cases, mark_deleted-Ready, mark_small,
}

-- CommitGet, accepted or not, keeps the file, the index and the counter in agreement and leaves
-- the queue as it is, the drop of an empty file included, if the index has fewer than 2^64
-- entries and the new file can be created.
pub queue-commit_get :
    (id trans : ℕ) (s : Saf) (env : Stdio)
    → Ready env s
    → length s.index < 18446744073709551616
    → env.creates ≡ true
    → Ready env (commit_get env id trans s).0 × (queue (commit_get env id trans s).0 ≡ queue s)
unfolding commit_get
queue-commit_get id trans s env (file, v) small c =
    settle_cases (λ r. Ready env r.0 × (queue r.0 ≡ queue s)) (λ status. status == status_s)
      status_d env id trans s file v ((file, v), refl)
      (λ i e x found g granted at some_key.
        let y = marked status_d 0 x in
        let w : Written e.header_pos y file (write_at e.header_pos y file) =
          λ p. slot_at-write_at e.header_pos p x y file v.sized at refl in
        let out =
          waiting-set_out e.header_pos i y file (write_at e.header_pos y file) s.index e
            (marked_entry status_d 0 e) w g refl v.apart (ground arith) refl in
        let made = mark status_d 0 i e x file (dec64 s.data_count) s in
        let (ready, same) =
          clean-queue env made c (mark_small status_d 0 i e x file (dec64 s.data_count) s small)
            (mark_deleted-Ready i e x file s env v g at (ground arith)) in
        (
          ready,
          same
              ∙ queue-mark status_d 0 i e x file (dec64 s.data_count) s
              ∙ out
              ∙ sym (queue_open s file v.is_open),
        ))

-- Delete keeps the file, the index and the counter in agreement, if the transaction is not the
-- one of the control record, the index has fewer than 2^64 entries and a new file can be
-- created.
pub delete-Ready :
    (id trans : ℕ) (s : Saf) (env : Stdio)
    → Ready env s
    → length s.index < 18446744073709551616
    → env.creates ≡ true
    → (trans == env.junk) ≡ false
    → Ready env (delete env id trans s).0
unfolding delete
delete-Ready id trans s env (file, v) small c other =
    settle_cases (λ r. Ready env r.0) (λ status. not (status == status_d)) status_d env id trans s
      file v (file, v)
      (λ i e x found g granted at some_key.
        let key = (locate_lem id trans s.index i e found).1 in
        let control = All-get_elem? (λ u. is_control_entry env u ≡ true) s.index i e v.control g in
        let l : is_live e.status ≡ true = elim key [
          | inl (k, same) ↦ ground arith
          | inr (k, same) ↦ ground arith
        ] in
        (clean-queue env (mark status_d 0 i e x file (dec64 s.data_count) s) c
          (mark_small status_d 0 i e x file (dec64 s.data_count) s small)
          (mark_deleted-Ready i e x file s env v g at l)).0)

-- AbortGet of the only record that data_count counts, when it is sent and is the one that the
-- search finds, succeeds and removes the file with that record, if a new file can be created:
-- nothing waits in the new file, though an aborted record is meant to be sent again.
pub abort_get_loses :
    (id trans i : ℕ) (e : Entry) (s : Saf) (env : Stdio)
    → Ready env s
    → env.creates ≡ true
    → locate id trans s.index ≡ some (i, e)
    → e.status ≡ status_s
    → (id == 0 && trans == 0) ≡ false
    → live s.index ≡ 1
    → ((abort_get env id trans s).1 ≡ success)
      × ((abort_get env id trans s).0 ≡ emptied env)
      × (queue (abort_get env id trans s).0 ≡ [])
unfolding abort_get settle
abort_get_loses id trans i e s env (file, v) c found sent some_key one =
    let (g, by) = locate_lem id trans s.index i e found in
    let (x, at, same_id, fit, state, owner, measure) =
      Tracks-get_elem? file s.index i e v.tracked g in
    let granted : (e.status == status_s) ≡ true = ground arith in
    rw
      (
        v.is_open,
        some_key,
        found,
        granted,
        at,
        clean_zero env (mark status_f 0 i e x file (dec64 s.data_count) s)
            (write_at e.header_pos (marked status_f 0 x) file) c refl (omega (arith, v.counted)),
      )
      (refl, refl, refl)
