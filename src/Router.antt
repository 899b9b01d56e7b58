-- ===== src/Router.antt =====
-- SelectQueue (system/router/gmt.cc): the choice of a queue for a service among those that Cola
-- lists. `counts` stands for GetRemoteCount, the number of messages in a queue or -1 for a queue
-- that cannot be read, and `pid` for getpid(); a queue keeps its count during the choice.
pub mod Choice
pub mod Selection
use gmonitor.Base.{
  ℕ, zero, suc, ◌+◌, ◌-◌, ◌%◌, Bool, true, false, ◌&&◌, not, List, [], ◌∷◌, Option, none, some,
  length, ◌==◌, ltb, leb, if◌then◌else◌, get_elem?, ℤ, pos, negsuc, ltb_ℤ, failure,
}
use gmonitor.Tables.{Server, Funcion, cola}

-- `lista_colas[qi]` within the list.
unfoldable pub queue_at : List ℤ → ℕ → ℤ
queue_at colas qi = elim (get_elem? colas qi) [ none ↦ pos 0 | some c ↦ c ]

abbrev pub is_negative : ℤ → Bool
is_negative (pos _) = false
is_negative (negsuc _) = true

-- `if(++qi >= vlen) qi = 0;`
unfoldable pub next_index : ℕ → ℕ → ℕ
next_index vlen qi = if leb vlen (qi + 1) then 0 else qi + 1

-- `qlen >= 0 && qlen < candidate_qlen`
abbrev pub is_better : ℤ → ℤ → Bool
is_better qlen candidate_qlen = not (is_negative qlen) && ltb_ℤ qlen candidate_qlen

-- The rounds of the loop that are left, the index and the candidate; its count is the last one
-- that was read for it.
unfoldable pub rotate : (ℤ → ℤ) → List ℤ → ℕ → ℕ → ℤ → ℤ
unfolding queue_at next_index
rotate counts colas zero qi candidate = candidate
rotate counts colas (suc n) qi candidate =
    let next = next_index (length colas) qi in
    let c = queue_at colas next in
    rotate counts colas n next (if is_better (counts c) (counts candidate) then c else candidate)

-- The first candidate.
abbrev pub first : ℕ → List ℤ → ℕ
first pid colas = pid % length colas

unfoldable pub choose : (ℤ → ℤ) → ℕ → List ℤ → ℤ
unfolding queue_at rotate
choose counts pid colas =
    if length colas == 0
    then failure
    else if ltb 1 (length colas)
    then rotate counts colas (length colas - 1) (first pid colas) (queue_at colas (first pid colas))
    else queue_at colas 0

unfoldable pub select_queue : (ℤ → ℤ) → ℕ → List ℕ → ℕ → List Funcion → List Server → ℤ
unfolding choose
select_queue counts pid funcion tipo_mensaje fs servers =
    choose counts pid (cola funcion tipo_mensaje fs servers)
