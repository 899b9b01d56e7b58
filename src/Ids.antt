-- ===== src/Ids.antt =====
-- Free identifiers. CWTimer::GetNewId (system/servers/gm_timer/wtimer.cc) and
-- CGMSBuffer::GetNewId (system/servers/gm_sbuffer/gmsbuffer.cc) run the same loop with the same
-- bound, over the identifiers of a vector and over `m_last_id`.
pub mod Distinct
pub mod Fresh
pub mod Room
use gmonitor.Base.{
  ℕ, zero, suc, ◌+◌, ◌-◌, ◌%◌, ◌^◌, Bool, true, false, ◌||◌, List, [], ◌∷◌, Option, none, some, ltb,
  ◌==◌, if◌then◌else◌,
}

-- GMTIMER_MAX_ID and GMBUFFER_MAX_ID.
abbrev pub max_id : ℕ
max_id = 8192

-- The inner loop: is the identifier in the vector?
unfoldable pub is_used : ℕ → List ℕ → Bool
is_used id [] = false
is_used id (x ∷ xs) = (x == id) || is_used id xs

-- `new_id = m_last_id + i; if(new_id > MAX_ID) new_id -= MAX_ID;` on 32 bits.
unfoldable pub candidate : ℕ → ℕ → ℕ
candidate last i =
    let new_id = (last + i) % 2 ^ 32 in if ltb max_id new_id then new_id - max_id else new_id

-- `for(; i < i + rounds; i++)`: the first free candidate, or none.
unfoldable pub scan : List ℕ → ℕ → ℕ → ℕ → Option ℕ
scan ids last i zero = none
scan ids last i (suc rounds) = elim (is_used (candidate last i) ids) [
  | true ↦ scan ids last (i + 1) rounds
  | false ↦ some (candidate last i)
]

-- The rounds of `for(i = 1; i < MAX_ID; i++)`.
unfoldable pub rounds : ℕ
rounds = max_id - 1

abbrev or_zero : Option ℕ → ℕ
or_zero none = 0
or_zero (some n) = n

-- The new `m_last_id`, which is also the result; 0 if every candidate is taken.
unfoldable pub get_new_id : List ℕ → ℕ → ℕ
unfolding scan rounds candidate is_used
get_new_id [] last = 1
get_new_id (id ∷ ids) last = or_zero (scan (id ∷ ids) last 1 rounds)
