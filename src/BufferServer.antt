-- ===== src/BufferServer.antt =====
-- CGMSBuffer (system/servers/gm_sbuffer/gmsbuffer.cc): the server that keeps the rest of long
-- answers. A request is the block of its bytes, read by the layout of ST_SBUFFER
-- (system/shared/svcstru.h) on a 64-bit little-endian target; where a length in it exceeds the
-- bytes that came, the block holds what the memory behind them holds.
pub mod Invariant
pub mod Reading
pub mod Entries
use gmonitor.Base.{
  ℕ, zero, suc, ◌+◌, ◌-◌, ◌<◌, ◌≡◌, Bool, true, false, ◌||◌, List, [], ◌∷◌, ◌++◌, Option, none,
  some, map, ltb, leb, min, ◌==◌, if◌then◌else◌, take, drop, find_index, get_elem?, set, erase_at,
  codes, str_eq,
}
use gmonitor.Buffer.{GmBuffer, new_data, add, at}
use gmonitor.Ids.{get_new_id}
use gmonitor.Service.{Client, gme_ok, gme_undefined, gme_svc_unresolved, type_not, word}
use gmonitor.TimerServer.{StTimer}

-- ST_BUFFER.
pub record StBuffer : Type 0 where
  pub id_buffer : ℕ
  pub id_trans : ℕ
  pub id_timer : ℕ
  pub owner : Client
  pub buffer : GmBuffer

pub record Store : Type 0 where
  pub last_id : ℕ
  pub buffers : List StBuffer

unfoldable pub init : Store
init = record { last_id = 0; buffers = [] }

-- sizeof(ST_SBUFFER), and the fields of its members.
abbrev pub size_sbuffer : ℕ
size_sbuffer = 48

abbrev pub request_id : List ℕ → ℕ
request_id raw = word 4 0 raw

-- new_buffer.len and add_buffer.len; get_buffer.offset stands in the same place.
abbrev pub request_len : List ℕ → ℕ
request_len raw = word 8 8 raw

abbrev pub request_offset : List ℕ → ℕ
request_offset raw = word 8 8 raw

abbrev pub request_maxlen : List ℕ → ℕ
request_maxlen raw = word 8 16 raw

abbrev pub request_data : List ℕ → List ℕ
request_data raw = drop 16 raw

-- The answer to .get_buffer.
pub record Chunk : Type 0 where
  pub id : ℕ
  pub offset : ℕ
  pub maxlen : ℕ
  pub len : ℕ
  pub totlen : ℕ
  pub body : List ℕ

pub data Reply : Type 0 where
  empty : Reply
  new_id : ℕ → Reply
  chunk : Chunk → Reply

-- A call of another server: Call(".set_timer", ...) and Notify(".kill_timer", ...).
pub data Outgoing : Type 0 where
  call_set_timer : StTimer → Outgoing
  notify_kill_timer : ℕ → Outgoing

pub record Outcome : Type 0 where
  pub store : Store
  pub code : ℕ
  pub reply : Reply
  pub outgoing : List Outgoing

abbrev pub answer : Store → ℕ → Outcome
answer s code = record { store = s; code = code; reply = empty; outgoing = [] }

abbrev pub ids : List StBuffer → List ℕ
ids = map λ x. x.id_buffer

abbrev pub by_id : ℕ → List StBuffer → Option ℕ
by_id id = find_index λ x. x.id_buffer == id

-- The scan of every handler and the entry that it ends at. An empty list is refused by the same
-- code as a missing identifier.
unfoldable pub find : ℕ → List StBuffer → Option (ℕ × StBuffer)
find id xs = elim (by_id id xs) [
  | none ↦ none
  | some i ↦ elim (get_elem? xs i) [ none ↦ none | some x ↦ some (i, x) ]
]

-- What the stack holds in the fields of the timer request that .new_buffer does not set.
pub record Garbage : Type 0 where
  pub id : ℕ
  pub end_at : ℕ
  pub behind : List ℕ

-- The timer that is to delete the buffer: a notification of .del_buffer in 60 seconds, with a copy
-- of the request.
unfoldable pub timer_request : Garbage → List ℕ → StTimer
timer_request g raw = record {
  id = g.id;
  servicio = codes ".del_buffer";
  modo_servicio = type_not;
  delay = 60;
  tipo_timer = b'U';
  end_at = g.end_at;
  len = size_sbuffer;
  body = take size_sbuffer raw ++ g.behind;
}

-- `call` is the timer server: the code of the call and the identifier in its answer.
unfoldable pub new_buffer : (StTimer → ℕ × ℕ) → Garbage → ℕ → Client → List ℕ → Store → Outcome
unfolding timer_request
new_buffer call g trans owner raw s =
    let len = request_len raw in
    let id = get_new_id (ids s.buffers) s.last_id in
    let s' : Store = record s { last_id = id } in
    let request = timer_request g raw in
    let timer = call request in
    let entry : StBuffer = record {
      id_buffer = id;
      id_trans = trans;
      id_timer = timer.1;
      owner = owner;
      buffer = new_data (some (request_data raw)) len;
    } in
    if len == 0
    then answer s gme_undefined
    else if id == 0
    then answer s' gme_undefined
    else if timer.0 == 0
    then record {
      store = record s' { buffers = s.buffers ++ entry ∷ [] };
      code = gme_ok;
      reply = new_id id;
      outgoing = call_set_timer request ∷ [];
    }
    else record (answer s' gme_undefined) { outgoing = call_set_timer request ∷ [] }

unfoldable pub add_buffer : List ℕ → Store → Outcome
unfolding find
add_buffer raw s =
    let len = request_len raw in
    if len == 0 then answer s gme_undefined else elim (find (request_id raw) s.buffers) [
      | none ↦ answer s gme_undefined
      | some (i, x) ↦
          let grown = record x { buffer = add x.buffer (some (request_data raw)) len } in
          answer (record s { buffers = set s.buffers i grown }) gme_ok
    ]

-- DeleteId: the timer goes first, and `m_last_id` starts again with the last buffer.
unfoldable pub delete_id : ℕ → Store → Outcome
unfolding find
delete_id id s = elim (find id s.buffers) [
  | none ↦ answer s gme_undefined
  | some (i, x) ↦
      let left = erase_at s.buffers i in
      record {
        store = record { last_id = elim left [ [] ↦ 0 | _ ∷ _ ↦ s.last_id ]; buffers = left };
        code = gme_ok;
        reply = empty;
        outgoing = notify_kill_timer x.id_timer ∷ [];
      }
]

bytes_from : GmBuffer → ℕ → ℕ → List ℕ
bytes_from b offset len = elim (at b offset) [ none ↦ [] | some block ↦ take len block ]

chunk_of : List ℕ → GmBuffer → Chunk
unfolding bytes_from
chunk_of raw b =
    let offset = request_offset raw in
    let len = min (b.m_len - offset) (request_maxlen raw) in
    record {
      id = request_id raw;
      offset = offset;
      maxlen = request_maxlen raw;
      len = len;
      totlen = b.m_len;
      body = bytes_from b offset len;
    }

unfoldable pub get_buffer : List ℕ → Store → Outcome
unfolding find chunk_of
get_buffer raw s = elim (find (request_id raw) s.buffers) [
  | none ↦ answer s gme_undefined
  | some (i, x) ↦
      if x.buffer.m_len == 0
      then answer s gme_undefined
      else if leb x.buffer.m_len (request_offset raw)
      then answer s gme_undefined
      else record (answer s gme_ok) { reply = chunk (chunk_of raw x.buffer) }
]

-- Process(funcion, in, inlen, ..., pClientData).
unfoldable pub process :
    (StTimer → ℕ × ℕ) → Garbage → ℕ → Client → List ℕ → List ℕ → ℕ → Store → Outcome
process call g trans owner funcion raw inlen s =
    if ltb inlen size_sbuffer
    then answer s gme_undefined
    else if str_eq funcion (codes ".new_buffer")
    then new_buffer call g trans owner raw s
    else if str_eq funcion (codes ".add_buffer")
    then add_buffer raw s
    else if str_eq funcion (codes ".del_buffer")
    then delete_id (request_id raw) s
    else if str_eq funcion (codes ".get_buffer")
    then get_buffer raw s
    else if str_eq funcion (codes ".committrans") || str_eq funcion (codes ".aborttrans")
    then answer s gme_ok
    else answer s gme_svc_unresolved

-- DeleteTrans: the first buffer of the transaction; its timer is left to the transaction.
unfoldable pub delete_trans : ℕ → Store → Store × Bool
delete_trans trans s =
    if trans == 0 then (s, false) else elim (find_index (λ x. x.id_trans == trans) s.buffers) [
      | none ↦ (s, false)
      | some i ↦ (record s { buffers = erase_at s.buffers i }, true)
    ]
