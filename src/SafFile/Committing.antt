-- ===== src/SafFile/Committing.antt =====
-- CommitGet: what it does to the record that it finds.
use gmonitor.Base.{
  ℕ, zero, suc, ◌<◌, ◌≡◌, ◌≢◌, ◌⊎◌, refl, sym, subst, inl, inr, true, false, ◌&&◌, List, [], ◌∷◌,
  some, arith, ◌==◌, length, get_elem?, set, Bool-cases, ℤ, success, failure,
}
use gmonitor.SafFile.{
  Slot, Entry, Saf, Stdio, write_at, status_s, status_d, locate, mark, dec64, clean, settle,
  commit_get,
}
use gmonitor.SafFile.Counts.{live}
use gmonitor.SafFile.Invariant.{IsValid, Ready, Tracks-get_elem?, marked, marked_entry}
use gmonitor.SafFile.Queue.{queue}
use gmonitor.SafFile.Settling.{emptied, clean_zero, live-le, locate_lem, settle_cases}
use gmonitor.SafFile.Commits.{queue-commit_get}

-- The object behind a mark: the entry is marked, or the file had no other data and was made anew.
abbrev pub MarkedAt : Stdio → ℕ → Entry → Saf → Saf → Type 0
MarkedAt env i e s s' =
    (get_elem? s'.index i ≡ some (marked_entry status_d 0 e))
    ⊎ ((live s.index ≡ 1) × (s' ≡ emptied env))

-- What CommitGet does: to a record that was delivered, and to one that is in another state.
pub record Committed (env : Stdio) (id trans : ℕ) (s : Saf) (r : Saf × ℤ) : Type 0 where
  pub ready : Ready env r.0
  pub waits : queue r.0 ≡ queue s
  pub marks :
      (i : ℕ) (e : Entry)
      → locate id trans s.index ≡ some (i, e)
      → (id == 0 && trans == 0) ≡ false
      → e.status ≡ status_s
      → (r.1 ≡ success) × MarkedAt env i e s r.0
  pub refuses :
      (i : ℕ) (e : Entry)
      → locate id trans s.index ≡ some (i, e)
      → e.status ≢ status_s
      → r ≡ (s, failure)

get_elem?-set :
    (xs : List Entry) (i : ℕ) (x y : Entry)
    → get_elem? xs i ≡ some x
    → get_elem? (set xs i y) i ≡ some y
get_elem?-set [] i x y g = cc
get_elem?-set (z ∷ xs) zero x y g = refl
get_elem?-set (z ∷ xs) (suc i) x y g = get_elem?-set xs i x y g

clean_kept : (env : Stdio) (s : Saf) → (s.data_count == 0) ≡ false → clean env s ≡ s
unfolding clean
clean_kept env s h = rw h refl

clean-MarkedAt :
    (env : Stdio) (i : ℕ) (e : Entry) (x : Slot) (s : Saf) (file : List Slot)
    → IsValid env file s
    → length s.index < 18446744073709551616
    → env.creates ≡ true
    → get_elem? s.index i ≡ some e
    → MarkedAt env i e s (clean env (mark status_d 0 i e x file (dec64 s.data_count) s))
unfolding mark
clean-MarkedAt env i e x s file v small c g =
    let made = mark status_d 0 i e x file (dec64 s.data_count) s in
    let few = live-le s.index in
    elim (Bool-cases (dec64 s.data_count == 0)) [
      | inl h ↦
          let zero_count : dec64 s.data_count ≡ 0 = ground arith in
          inr (
            omega (arith, zero_count, v.counted, few),
            clean_zero env made (write_at e.header_pos (marked status_d 0 x) file) c refl
                zero_count,
          )
      | inr h ↦ inl (
          subst (λ (k : Saf). get_elem? k.index i ≡ some (marked_entry status_d 0 e))
            (sym (clean_kept env made h)) (get_elem?-set s.index i e (marked_entry status_d 0 e) g))
    ]

-- CommitGet keeps the file, its index and the counter in agreement, statuses and transactions
-- included, and leaves the queue as it is. If the record that it finds by its identifier or its
-- transaction is one that was delivered, it succeeds and marks the record as deleted, or the file had
-- no other data and is made anew; if the record is in another state, it fails and changes nothing.
-- The index has fewer than 2^64 entries and a new file can be created.
pub commit_get_lem :
    (id trans : ℕ) (s : Saf) (env : Stdio)
    → Ready env s
    → length s.index < 18446744073709551616
    → env.creates ≡ true
    → Committed env id trans s (commit_get env id trans s)
unfolding commit_get settle
commit_get_lem id trans s env (file, v) small c =
    let (ready, same) = queue-commit_get id trans s env (file, v) small c in
    record {
      ready = ready;
      waits = same;
      marks = λ i e found some_key sent.
          let (g, by) = locate_lem id trans s.index i e found in
          let (x, at, same_id, fit, state, owner, measure) =
            Tracks-get_elem? file s.index i e v.tracked g in
          let granted : (e.status == status_s) ≡ true = ground arith in
          rw (v.is_open, some_key, found, granted, at)
            (refl, clean-MarkedAt env i e x s file v small c g);
      refuses = λ i e found other.
          settle_cases (λ r. r ≡ (s, failure)) (λ status. status == status_s) status_d env id trans
            s file v refl
            (λ j u x found_too g granted at some_key.
              let sent : e.status ≡ status_s = ground (arith, found, found_too, granted) in
              absurd (other sent));
    }
