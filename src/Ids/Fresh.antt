-- ===== src/Ids/Fresh.antt =====
-- The identifier that GetNewId returns is new and in range.
use gmonitor.Base.{
  ℕ, zero, suc, ◌+◌, ◌≤◌, ◌<◌, ◌≡◌, refl, ◌==◌, ◌⊎◌, inl, inr, false, List, [], ◌∷◌, some, arith,
  Option-cases,
}
use gmonitor.Ids.{max_id, is_used, candidate, scan, rounds, get_new_id}

-- The loop reads `m_last_id` only if there is an entry.
abbrev pub Ready : List ℕ → ℕ → Type 0
Ready ids last = (ids ≡ []) ⊎ (last ≤ max_id)

pub ne-zero : (n : ℕ) → 1 ≤ n → (n == 0) ≡ false
ne-zero n h = ground arith

pub candidate_range :
    (last i : ℕ)
    → last ≤ max_id
    → 1 ≤ i
    → i < max_id
    → (1 ≤ candidate last i) × (candidate last i ≤ max_id)
unfolding candidate
candidate_range last i hl hi hm = ground arith

rounds-lt-max : 1 + rounds ≤ max_id
unfolding rounds
rounds-lt-max = omega arith

pub scan_fresh :
    (ids : List ℕ) (last i n r : ℕ)
    → last ≤ max_id
    → 1 ≤ i
    → i + n ≤ max_id
    → scan ids last i n ≡ some r
    → (is_used r ids ≡ false) × (1 ≤ r) × (r ≤ max_id)
unfolding scan
scan_fresh ids last i zero r hl hi hm e = cc
scan_fresh ids last i (suc n) r hl hi hm e =
    ground (arith, scan_fresh ids last (i + 1) n r, candidate_range last i)

-- A result other than 0 is not the identifier of any entry, and lies in 1 .. 8192.
pub get_new_id_fresh :
    (ids : List ℕ) (last : ℕ)
    → Ready ids last
    → (get_new_id ids last ≡ 0)
      ⊎ ((is_used (get_new_id ids last) ids ≡ false)
          × (1 ≤ get_new_id ids last)
          × (get_new_id ids last ≤ max_id))
unfolding get_new_id is_used
get_new_id_fresh [] last h = inr (refl, ground arith, ground arith)
get_new_id_fresh (x ∷ xs) last (inl e) = cc
get_new_id_fresh (x ∷ xs) last (inr h) = elim (Option-cases (scan (x ∷ xs) last 1 rounds)) [
  | inl e ↦ inl (ground arith)
  | inr (r, e) ↦
      inr (ground (arith, scan_fresh (x ∷ xs) last 1 rounds r h (omega arith) rounds-lt-max e))
]

pub get_new_id-le-max : (ids : List ℕ) (last : ℕ) → last ≤ max_id → get_new_id ids last ≤ max_id
get_new_id-le-max ids last h = ground (arith, get_new_id_fresh ids last (inr h))
