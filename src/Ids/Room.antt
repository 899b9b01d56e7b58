-- ===== src/Ids/Room.antt =====
-- While fewer than 8191 identifiers are in use, GetNewId finds one: a pigeonhole argument.
use gmonitor.Base.{
  ℕ, zero, suc, ◌+◌, ◌≤◌, ◌<◌, ◌≡◌, ◌≢◌, refl, inl, inr, true, List, [], ◌∷◌, none, arith,
  Option-cases, length, ◌==◌, if◌then◌else◌,
}
use gmonitor.Ids.{max_id, is_used, candidate, scan, rounds, get_new_id}
use gmonitor.Ids.Fresh.{Ready, scan_fresh}

remove : ℕ → List ℕ → List ℕ
remove c [] = []
remove c (x ∷ xs) = if x == c then xs else x ∷ remove c xs

length-remove : (c : ℕ) (xs : List ℕ) → is_used c xs ≡ true → length xs ≡ suc (length (remove c xs))
unfolding is_used remove
length-remove c [] h = cc
length-remove c (x ∷ xs) h = ground (arith, length-remove c xs)

is_used-remove :
    (d c : ℕ) (xs : List ℕ) → d ≢ c → is_used d xs ≡ true → is_used d (remove c xs) ≡ true
unfolding is_used remove
is_used-remove d c [] n h = h
is_used-remove d c (x ∷ xs) n h = ground (arith, is_used-remove d c xs)

candidate-injective :
    (last i j : ℕ) → last ≤ max_id → i < j → j < max_id → candidate last j ≢ candidate last i
unfolding candidate
candidate-injective last i j hl h hj = ground arith

scan-remove :
    (ids : List ℕ) (last i j n : ℕ)
    → last ≤ max_id
    → i < j
    → j + n ≤ max_id
    → scan ids last j n ≡ none
    → scan (remove (candidate last i) ids) last j n ≡ none
unfolding scan
scan-remove ids last i j zero hl h hn e = refl
scan-remove ids last i j (suc n) hl h hn e = ground (
  arith,
  scan-remove ids last i (j + 1) n,
  candidate-injective last i j,
  is_used-remove (candidate last j) (candidate last i) ids,
)

-- A scan that finds nothing has met as many identifiers as it made rounds.
scan-none :
    (n : ℕ) (ids : List ℕ) (last i : ℕ)
    → last ≤ max_id
    → i + n ≤ max_id
    → scan ids last i n ≡ none
    → n ≤ length ids
unfolding scan
scan-none zero ids last i hl hn e = omega arith
scan-none (suc n) ids last i hl hn e = ground (
  arith,
  scan-none n (remove (candidate last i) ids) last (i + 1),
  scan-remove ids last i (i + 1) n,
  length-remove (candidate last i) ids,
)

-- With fewer than 8191 entries the result is not 0.
pub get_new_id-ne-zero :
    (ids : List ℕ) (last : ℕ) → Ready ids last → length ids < rounds → get_new_id ids last ≢ 0
unfolding get_new_id rounds
get_new_id-ne-zero [] last hl h = omega arith
get_new_id-ne-zero (x ∷ xs) last (inl e) h = cc
get_new_id-ne-zero (x ∷ xs) last (inr hl) h = elim (Option-cases (scan (x ∷ xs) last 1 rounds)) [
  | inl e ↦ absurd (omega (arith, scan-none rounds (x ∷ xs) last 1 hl (omega arith) e))
  | inr (r, e) ↦ ground (arith, scan_fresh (x ∷ xs) last 1 rounds r)
]
