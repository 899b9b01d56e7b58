-- ===== src/TimerServer.antt =====
-- CGMTimer (system/servers/gm_timer/gmtimer.cc): the messages of the timer server and the loop that
-- serves expired timers.
pub mod TimeOut
pub mod Messages
use gmonitor.Base.{
  ℕ, zero, suc, ◌+◌, ◌<◌, ◌≡◌, Bool, true, false, ◌&&◌, ◌||◌, not, List, [], ◌∷◌, ◌++◌, Option,
  none, some, ltb, ◌==◌, if◌then◌else◌, ℤ, pos, negsuc, success, codes, str_eq, set,
}
use gmonitor.Service.{Client, gme_ok, gme_undefined, gme_svc_unresolved, type_msg, type_not}
use gmonitor.Timers.{Table, at, set_timer, ok, del_id, del_trans, check, Delivery, get, rest}

-- ST_STIMER of system/shared/svcstru.h. `id` is the first word of either member of the union, and
-- of the transaction messages; `body` is what can be read from `data` on.
pub record StTimer : Type 0 where
  pub id : ℕ
  pub servicio : List ℕ
  pub modo_servicio : ℕ
  pub delay : ℕ
  pub tipo_timer : ℕ
  pub end_at : ℕ
  pub len : ℕ
  pub body : List ℕ

-- sizeof(pt->set_timer) and sizeof(pt->kill_timer), on a 64-bit target.
abbrev pub size_set_timer : ℕ
size_set_timer = 72

abbrev pub size_kill_timer : ℕ
size_kill_timer = 4

-- The answer: the code, and the message if there is one.
pub record Answer : Type 0 where
  pub table : Table
  pub code : ℕ
  pub out : Option StTimer

abbrev pub refuse : Table → ℕ → Answer
refuse s code = record { table = s; code = code; out = none }

-- The end of .set_timer: the request goes back with its new identifier.
abbrev pub answer_set : StTimer → Table × ℕ → Answer
answer_set pt (s, id) = if id == 0 then refuse s gme_undefined else record {
  table = s;
  code = gme_ok;
  out = some (record pt { id = id; len = 0; body = set pt.body 0 0 });
}

unfoldable pub on_set_timer : ℕ → StTimer → ℕ → ℕ → Client → Table → Answer
on_set_timer t pt inlen trans owner s =
    if ltb inlen size_set_timer
    then refuse s gme_undefined
    else if ltb 0 pt.delay && pt.end_at == 0
    then answer_set pt (
        set_timer t pt.delay pt.servicio pt.modo_servicio trans owner (some pt.body) pt.len
          (pt.tipo_timer == b'R') s)
    else if ltb 0 pt.end_at && pt.delay == 0
    then answer_set pt
        (at t pt.end_at pt.servicio pt.modo_servicio trans owner (some pt.body) pt.len s)
    else refuse s gme_undefined

unfoldable pub is_success : ℤ → Bool
is_success (pos zero) = true
is_success (pos (suc n)) = false
is_success (negsuc n) = false

abbrev pub answer_removal : Table × ℤ → Answer
answer_removal (s, rc) = refuse s (if is_success rc then gme_ok else gme_undefined)

-- Message(funcion, in, inlen, ..., pClientData).
unfoldable pub message : ℕ → List ℕ → StTimer → ℕ → ℕ → Client → Table → Answer
message t funcion pt inlen trans owner s =
    if str_eq funcion (codes ".set_timer")
    then on_set_timer t pt inlen trans owner s
    else if str_eq funcion (codes ".kill_timer")
    then (if ltb inlen size_kill_timer
        then refuse s gme_undefined
        else answer_removal (del_id pt.id owner s))
    else if str_eq funcion (codes ".committrans") || str_eq funcion (codes ".aborttrans")
    then answer_removal (del_trans pt.id s)
    else refuse s gme_svc_unresolved

-- A message that the loop sends: Post for an event, Notify for a notification.
pub data Send : Type 0 where
  post : Delivery → Send
  notify : Delivery → Send

-- The switch on the type; GM_MSG_TYPE_CR and GM_MSG_TYPE_INT send nothing.
unfoldable pub sends : Delivery → List Send
sends d =
    if d.tipo == type_msg then post d ∷ [] else if d.tipo == type_not then notify d ∷ [] else []

pub record Round : Type 0 where
  pub table : Table
  -- The clock readings made so far.
  pub reads : ℕ
  pub sent : List Send

pub serve : ℕ → Delivery → Round → Round
unfolding ok sends
serve idx d r = record r { table = (ok idx r.table).0; sent = r.sent ++ sends d }

-- The loop of TimeOut; `clock n` is the n-th reading of the clock, and none means that the fuel ran
-- out. What Post and Notify return is only logged.
unfoldable pub time_out_loop : ℕ → (ℕ → ℕ) → Round → Option Round
time_out_loop zero clock r = none
time_out_loop (suc fuel) clock r =
    let idx = check (clock r.reads) r.table in
    let read = record r { reads = r.reads + 1 } in
    elim (idx == 0) [
      | true ↦ some read
      | false ↦ elim (get idx r.table) [
        | none ↦ some read
        | some d ↦ time_out_loop fuel clock (serve idx d read)
      ]
    ]

-- TimeOut: what was sent, and the time to the next expiry.
unfoldable pub time_out : ℕ → (ℕ → ℕ) → Table → Option (Round × ℤ)
time_out fuel clock s =
    elim (time_out_loop fuel clock (record { table = s; reads = 0; sent = [] })) [
      | none ↦ none
      | some r ↦ some (r, rest (clock r.reads) (negsuc 0) r.table)
    ]
