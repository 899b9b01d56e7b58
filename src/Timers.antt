-- ===== src/Timers.antt =====
-- CWTimer of the timer server (system/servers/gm_timer/wtimer.cc): a vector of pending timers.
-- The clock that `time()` reads is an argument `t` of each operation; times are seconds.
pub mod Invariant
pub mod Expiry
pub mod Pending
pub mod Remaining
pub mod Insertion
pub mod Transactions
use gmonitor.Base.{
  ℕ, zero, suc, ◌+◌, ◌-◌, ◌*◌, ◌<◌, ◌≡◌, Bool, true, false, ◌&&◌, ◌||◌, List, [], ◌∷◌, ◌++◌, Option,
  none, some, map, ltb, leb, ◌==◌, if◌then◌else◌, take, find_index, get_elem?, set, erase_at, ℤ,
  pos, negsuc, ltb_ℤ, success, failure,
}
use gmonitor.Buffer.{GmBuffer, new_data}
use gmonitor.Ids.{get_new_id}
use gmonitor.Service.{Client}

-- ST_WTIMER.
pub record Timer : Type 0 where
  pub id : ℕ
  pub start_t : ℕ
  pub end_t : ℕ
  -- Seconds of the next period, 0 for a timer that fires once.
  pub restart : ℕ
  pub trans : ℕ
  pub owner : Client
  -- At most 32 bytes.
  pub servicio : List ℕ
  pub tipo : ℕ
  pub buffer : Option GmBuffer

pub record Table : Type 0 where
  pub last_id : ℕ
  pub timers : List Timer

-- m_last_id is not initialised by the constructor; it is read only behind a first GetNewId.
unfoldable pub init : ℕ → Table
init garbage = record { last_id = garbage; timers = [] }

abbrev pub ids : List Timer → List ℕ
ids = map λ x. x.id

abbrev pub by_id : ℕ → List Timer → Option ℕ
by_id id = find_index λ x. x.id == id

abbrev pub by_trans : ℕ → List Timer → Option ℕ
by_trans trans = find_index λ x. x.trans == trans

-- The entry that At and Set fill in.
unfoldable pub new_timer : ℕ → ℕ → ℕ → ℕ → List ℕ → ℕ → ℕ → Client → Option (List ℕ) → ℕ → Timer
new_timer id start_t end_t restart servicio tipo trans owner msg msg_len = record {
  id = id;
  start_t = start_t;
  end_t = end_t;
  restart = restart;
  trans = trans;
  owner = owner;
  servicio = take 32 servicio;
  tipo = tipo;
  buffer = elim msg [
    | none ↦ none
    | some block ↦ if ltb 0 msg_len then some (new_data (some block) msg_len) else none
  ];
}

-- What At and Set have in common: a new identifier, and the entry at the end.
unfoldable pub insert :
    ℕ → ℕ → ℕ → List ℕ → ℕ → ℕ → Client → Option (List ℕ) → ℕ → Table → Table × ℕ
unfolding new_timer
insert start_t end_t restart servicio tipo trans owner msg msg_len s =
    let id = get_new_id (ids s.timers) s.last_id in
    let s' : Table = record s { last_id = id } in
    let timer = new_timer id start_t end_t restart servicio tipo trans owner msg msg_len in
    if id == 0 then (s', 0) else (record s' { timers = s.timers ++ timer ∷ [] }, id)

-- At: expires at the time `end`.
unfoldable pub at : ℕ → ℕ → List ℕ → ℕ → ℕ → Client → Option (List ℕ) → ℕ → Table → Table × ℕ
unfolding insert
at t end servicio tipo trans owner msg msg_len s =
    insert t end 0 servicio tipo trans owner msg msg_len s

-- Set: expires after `seconds`, and again every `seconds` if `repeat`.
unfoldable pub set_timer :
    ℕ → ℕ → List ℕ → ℕ → ℕ → Client → Option (List ℕ) → ℕ → Bool → Table → Table × ℕ
unfolding insert
set_timer t seconds servicio tipo trans owner msg msg_len repeat s =
    insert t (t + seconds) (if repeat then seconds else 0) servicio tipo trans owner msg msg_len s

-- The tail of Ok: a periodic timer moves on by its period, another one goes.
finish : List Timer → ℕ → Option Timer → List Timer
finish timers i none = timers
finish timers i (some x) =
    if ltb 0 x.restart
    then set timers i (record x { end_t = x.end_t + x.restart })
    else erase_at timers i

-- Ok: the caller has served the timer.
unfoldable pub ok : ℕ → Table → Table × ℤ
unfolding finish
ok id s = if id == 0 then (s, failure) else elim (by_id id s.timers) [
  | none ↦ (s, failure)
  | some i ↦ (record s { timers = finish s.timers i (get_elem? s.timers i) }, success)
]

-- DelId; the identity of the caller is not looked at.
unfoldable pub del_id : ℕ → Client → Table → Table × ℤ
del_id id caller s = if id == 0 then (s, failure) else elim (by_id id s.timers) [
  | none ↦ (s, failure)
  | some i ↦ (record s { timers = erase_at s.timers i }, success)
]

-- DelTrans: the first timer of the transaction.
unfoldable pub del_trans : ℕ → Table → Table × ℤ
del_trans trans s = if trans == 0 then (s, failure) else elim (by_trans trans s.timers) [
  | none ↦ (s, failure)
  | some i ↦ (record s { timers = erase_at s.timers i }, success)
]

abbrev pub expired : ℕ → Timer → Bool
expired t x = leb x.end_t t

id_at : List Timer → Option ℕ → ℕ
id_at timers none = 0
id_at timers (some i) = elim (get_elem? timers i) [ none ↦ 0 | some x ↦ x.id ]

-- Check: the identifier of the first expired timer, or 0.
unfoldable pub check : ℕ → Table → ℕ
unfolding id_at
check t s = id_at s.timers (find_index (expired t) s.timers)

-- What Get copies out: the service, the type, and the message with its length.
pub record Delivery : Type 0 where
  pub servicio : List ℕ
  pub tipo : ℕ
  pub msg : Option (List ℕ)
  pub msg_len : ℕ

unfoldable pub delivery : Timer → Delivery
delivery x = record {
  servicio = take 32 x.servicio;
  tipo = x.tipo;
  msg = elim x.buffer [ none ↦ none | some b ↦ if b.m_len == 0 then none else b.m_buffer ];
  msg_len = elim x.buffer [ none ↦ 0 | some b ↦ b.m_len ];
}

-- Get, or none where it returns -1.
unfoldable pub get : ℕ → Table → Option Delivery
unfolding delivery
get id s = if id == 0 then none else elim (by_id id s.timers) [
  | none ↦ none
  | some i ↦ elim (get_elem? s.timers i) [ none ↦ none | some x ↦ some (delivery x) ]
]

-- The loop of Rest, over what it has not looked at, in hundredths of a second.
unfoldable pub rest_loop : ℕ → ℤ → List Timer → ℤ
rest_loop t rest [] = rest
rest_loop t rest (x ∷ xs) =
    let dif = pos ((x.end_t - t) * 100) in
    let go_on = rest_loop t (if ltb_ℤ dif rest || ltb_ℤ rest (pos 0) then dif else rest) xs in
    if ltb t x.end_t then go_on else pos 0

-- Rest: the time to the first expiry, at most `max_wait` if that is positive, -1 without a timer.
unfoldable pub rest : ℕ → ℤ → Table → ℤ
unfolding rest_loop
rest t max_wait s =
    let found = rest_loop t (negsuc 0) s.timers in
    let r = if ltb_ℤ found (pos 0) then negsuc 0 else found in
    if ltb_ℤ (pos 0) max_wait && ltb_ℤ max_wait r then max_wait else r
