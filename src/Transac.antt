-- ===== src/Transac.antt =====
-- The transaction server: the keyed timers CWTimer (system/servers/gm_transac/wtimer.cc), the
-- transaction numbers CTransac (transac.cc) and the loop of gm_transac.cc. A key or a value is the
-- bytes of its length; `now` is the reading of the clock.
pub mod Keys
pub mod Numbers
pub mod Sweeping
pub mod Waiting
use gmonitor.Base.{
  ℕ, zero, suc, ◌+◌, ◌-◌, ◌*◌, ◌/◌, ◌%◌, Bool, true, false, ◌&&◌, ◌||◌, not, List, [], ◌∷◌, ◌++◌,
  Option, none, some, length, ◌==◌, ltb, leb, if◌then◌else◌, find_index, get_elem?, erase_at, ℤ,
  pos, negsuc, success, failure, codes, str_eq,
}
use gmonitor.Service.{le_word}

-- CWTimer::ST_WTIMER
pub record Timer : Type 0 where
  pub end_time : ℕ
  pub key : List ℕ
  pub value : List ℕ

-- The comparison of lengths and bytes.
abbrev pub has_key : List ℕ → Timer → Bool
has_key key x = str_eq x.key key

unfoldable pub exist : List ℕ → List Timer → Bool
exist key [] = false
exist key (x ∷ xs) = has_key key x || exist key xs

-- CWTimer::Add
unfoldable pub add : ℕ → List ℕ → List ℕ → ℕ → List Timer → List Timer × ℤ
unfolding exist
add now key value seconds xs =
    if exist key xs
    then (xs, failure)
    else (xs ++ record { end_time = now + seconds; key = key; value = value } ∷ [], success)

-- CWTimer::Get, the value that it copies.
unfoldable pub get : List ℕ → ℕ → List Timer → Option (List ℕ)
get key max_len [] = none
get key max_len (x ∷ xs) =
    if has_key key x
    then (if ltb max_len (length x.value) then none else some x.value)
    else get key max_len xs

-- CWTimer::Del
unfoldable pub del : List ℕ → List Timer → List Timer × ℤ
del key xs = elim (find_index (has_key key) xs) [
  | none ↦ (xs, failure)
  | some i ↦ (erase_at xs i, success)
]

abbrev pub is_due : ℕ → Timer → Bool
is_due now x = not (x.end_time == 0) && leb x.end_time now

-- What CWTimer::Check finds: 0, -1, or 1 with the key and the value.
pub data Found : Type 0 where
  nothing : Found
  too_long : Found
  due : List ℕ → List ℕ → Found

-- CWTimer::Check; a limit of 0 is none.
unfoldable pub check : ℕ → ℕ → ℕ → List Timer → List Timer × Found
check now max_key_len max_data_len xs = elim (find_index (is_due now) xs) [
  | none ↦ (xs, nothing)
  | some i ↦ elim (get_elem? xs i) [
    | none ↦ (xs, nothing)
    | some x ↦
        if ltb max_key_len (length x.key) && not (max_key_len == 0)
        then (xs, too_long)
        else if ltb max_data_len (length x.value) && not (max_data_len == 0)
        then (xs, too_long)
        else (erase_at xs i, due x.key x.value)
  ]
]

-- `m_vTimer[i].end_time - t < max_to`, or no limit yet.
abbrev pub is_sooner : ℕ → ℤ → ℕ → Bool
is_sooner now (negsuc _) end_time = true
is_sooner now (pos max_to) end_time = ltb end_time (max_to + now)

-- CWTimer::NextTo
unfoldable pub next_to : ℕ → ℤ → List Timer → ℤ
next_to now max_to [] = max_to
next_to now max_to (x ∷ xs) =
    next_to now
      (if not (x.end_time == 0) && is_sooner now max_to x.end_time
        then pos (x.end_time - now)
        else max_to)
      xs

-- CTransac
pub record Transac : Type 0 where
  pub trans_count : ℕ
  pub timers : List Timer

unfoldable pub init : Transac
init = record { trans_count = 1; timers = [] }

-- The bytes of an unsigned int.
unfoldable pub word4 : ℕ → List ℕ
word4 n = n % 256 ∷ n / 256 % 256 ∷ n / 65536 % 256 ∷ n / 16777216 % 256 ∷ []

abbrev pub max_trans : ℕ
max_trans = 9999

-- `if(++m_trans_count > 9999) m_trans_count = 1;`
unfoldable pub next_count : ℕ → ℕ
next_count n = if ltb max_trans (n + 1) then 1 else n + 1

-- CTransac::New; the time-out goes from unsigned long to unsigned int.
unfoldable pub new : ℕ → ℕ → Transac → Transac × ℕ
unfolding add
new now seconds s =
    let n = next_count s.trans_count in
    let (timers, rc) = add now (word4 n) [] (seconds % 4294967296) s.timers in
    (record { trans_count = n; timers = timers }, elim rc [ pos _ ↦ n | negsuc _ ↦ 0 ])

-- CTransac::Del
unfoldable pub del_trans : ℕ → Transac → Transac × ℤ
del_trans trans s = let r = del (word4 trans) s.timers in (record s { timers = r.0 }, r.1)

-- CTransac::Exist
unfoldable pub exist_trans : ℕ → Transac → Bool
exist_trans trans s = exist (word4 trans) s.timers

-- CTransac::Check; `junk` is the variable `trans` before the call.
unfoldable pub check_trans : ℕ → ℕ → Transac → Transac × ℕ
check_trans junk now s =
    let (timers, found) = check now 4 0 s.timers in
    (
      record s { timers = timers },
      elim found [ nothing ↦ 0 | too_long ↦ junk | due key value ↦ le_word 4 key ],
    )

-- A Post of the server: the event and the transaction.
pub record Post : Type 0 where
  pub event : List ℕ
  pub trans : ℕ

-- What a message leaves: the state, m_ClientData.m_trans, and what is posted.
pub record Outcome : Type 0 where
  pub transac : Transac
  pub client_trans : ℕ
  pub posts : List Post

-- .committrans and .aborttrans
unfoldable pub settle : List ℕ → ℕ → Transac → Outcome
unfolding del_trans
settle event client_trans s =
    let (s', rc) = del_trans client_trans s in
    record {
      transac = s';
      client_trans = client_trans;
      posts = elim rc [
        | pos _ ↦ record { event = event; trans = client_trans } ∷ []
        | negsuc _ ↦ []
      ];
    }

-- The treatment of a message; `indata` is the long at the head of its data.
unfoldable pub message : ℕ → List ℕ → ℕ → ℕ → Transac → Outcome
unfolding new settle
message now fn client_trans indata s =
    if str_eq fn (codes ".begintrans")
    then (let made = new now indata s in
        record {
          transac = made.0;
          client_trans = made.1;
          posts = record { event = codes ".begintrans"; trans = made.1 } ∷ [];
        })
    else if str_eq fn (codes ".committrans")
    then settle (codes ".committrans") client_trans s
    else if str_eq fn (codes ".aborttrans")
    then settle (codes ".aborttrans") client_trans s
    else record { transac = s; client_trans = client_trans; posts = [] }

-- The transactions that the loop over Check has aborted, and the readings of the clock.
pub record Sweep : Type 0 where
  pub transac : Transac
  pub reads : ℕ
  pub aborted : List ℕ

-- `while((trans_to = m_pTransac->Check()) > 0) Post(".aborttrans")`; none is out of fuel.
unfoldable pub sweep : ℕ → (ℕ → ℕ) → ℕ → Sweep → Option Sweep
sweep zero clock junk r = none
sweep (suc fuel) clock junk r =
    let found = check_trans junk (clock r.reads) r.transac in
    elim (found.1 == 0) [
      | true ↦ some (record { transac = found.0; reads = r.reads + 1; aborted = r.aborted })
      | false ↦
          sweep fuel clock junk
            (record { transac = found.0; reads = r.reads + 1; aborted = r.aborted ++ found.1 ∷ [] })
    ]
