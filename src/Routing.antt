-- ===== src/Routing.antt =====
-- MsgQuery (system/router/gmt.cc): the way of a message through the router, by its type. The queues
-- of the system and the processes behind them are a parameter. For a notification or an event the
-- process forks, and the one that goes on with the answer is the child; `forks` says which calls of
-- fork() succeed, in their order. The copy of its header that GetMsg writes into the block of the
-- message is left out, since nothing reads it again.
pub mod Marks
pub mod Dispatch
pub mod Refusal
use gmonitor.Base.{
  ℕ, zero, suc, ◌+◌, Bool, true, false, ◌||◌, List, [], ◌∷◌, ◌++◌, Option, none, some, ◌==◌,
  if◌then◌else◌, ℤ, pos, negsuc, length,
}
use gmonitor.Buffer.{GmBuffer}
use gmonitor.Service.{
  type_cr, type_msg, type_int, type_not, gme_ok, gme_msgq_timeout, gme_msgq_error, gme_svc_notfound,
}
use gmonitor.Header.{
  get_char, get_text, set_char, set_number, tipo_mensaje, funcion, codigo_retorno, origen_respuesta,
  id_destino,
}
use gmonitor.Message.{GmMessage, get_msg, set_response, set_data_buffer, set_msg_buffer}
use gmonitor.Tables.{Server, Funcion, cola}
use gmonitor.Router.{select_queue, is_negative}

-- The queues: CMsg::Open, CMsg::Query with its code and what it has received, GetRemoteCount, and
-- getpid() before and behind the forks. `takes` says for which queues msgget() and msgsnd() of
-- Query succeed; for the others Query returns an error and nothing is put.
pub record Net (W : Type 0) : Type 0 where
  pub opens : Bool
  pub query : W → ℤ → List ℕ → ℕ → W × ℤ × GmBuffer
  pub takes : ℤ → Bool
  pub counts : ℤ → ℤ
  pub forks : ℕ → Bool
  pub pid : ℕ
  pub pid_after : ℕ

-- The answer, what the other processes have become, and what was put into the queues.
pub record Routed (W : Type 0) : Type 0 where
  pub out : GmMessage
  pub world : W
  pub sent : List (ℤ × List ℕ)

-- CodigoRetorno and OrigenRespuesta(GM_ORIG_ROUTER), and with IdDestino(getpid()).
unfoldable pub by_router : ℕ → GmMessage → GmMessage
unfolding set_char set_number
by_router code out = record out {
  m_header = set_char origen_respuesta b'R' (set_number codigo_retorno code out.m_header);
}

unfoldable pub by_router_at : ℕ → ℕ → GmMessage → GmMessage
unfolding by_router set_number
by_router_at pid code out =
    let marked = by_router code out in
    record marked { m_header = set_number id_destino pid marked.m_header }

-- The answer to a query by the code of Query.
unfoldable pub answered : List ℕ → ℕ → GmMessage → ℤ → GmBuffer → GmMessage
unfolding by_router_at set_data_buffer set_msg_buffer
answered raw pid out (negsuc _) buffer =
    by_router_at pid gme_msgq_error (set_data_buffer raw out (some buffer)).0
answered raw pid out (pos zero) buffer =
    by_router_at pid gme_msgq_timeout (set_data_buffer raw out (some buffer)).0
answered raw pid out (pos (suc _)) buffer = elim (set_msg_buffer out (some buffer)).1 [
  | pos zero ↦ (set_msg_buffer out (some buffer)).0
  | pos (suc _) ↦ by_router_at pid gme_msgq_error (set_msg_buffer out (some buffer)).0
  | negsuc _ ↦ by_router_at pid gme_msgq_error (set_msg_buffer out (some buffer)).0
]

-- What Query puts into the queue.
unfoldable pub put : (ℤ → Bool) → List ℕ → ℤ → List (ℤ × List ℕ)
put takes bytes c = if takes c then (c, bytes) ∷ [] else []

-- An event is sent to every queue for which fork() succeeds; `i` counts the calls. The answer of
-- Query is not looked at.
unfoldable pub send_all : (ℕ → Bool) → (ℤ → Bool) → List ℕ → ℕ → List ℤ → List (ℤ × List ℕ)
unfolding put
send_all forks takes bytes i [] = []
send_all forks takes bytes i (c ∷ cs) =
    let rest = send_all forks takes bytes (i + 1) cs in
    if forks i then put takes bytes c ++ rest else rest

module _ {W : Type 0} (net : Net W) (raw : List ℕ) (fs : List Funcion) (servers : List Server) where
  -- GM_MSG_TYPE_CR and GM_MSG_TYPE_INT
  unfoldable pub query_one : GmMessage → GmMessage → W → Routed W
  unfolding answered by_router put
  query_one input out w =
      let f = get_text funcion input.m_header in
      let t = get_char tipo_mensaje input.m_header in
      let c = select_queue net.counts net.pid f t fs servers in
      let got = net.query w c (get_msg input).0 3000 in
      if is_negative c
      then record { out = by_router gme_svc_notfound out; world = w; sent = [] }
      else record {
        out = answered raw net.pid out got.1 got.2;
        world = got.0;
        sent = put net.takes (get_msg input).0 c;
      }

  -- GM_MSG_TYPE_NOT
  unfoldable pub notify_one : GmMessage → GmMessage → W → Routed W
  unfolding send_all by_router by_router_at
  notify_one input out w =
      let f = get_text funcion input.m_header in
      let t = get_char tipo_mensaje input.m_header in
      let c = select_queue net.counts net.pid f t fs servers in
      if is_negative c
      then record { out = by_router gme_svc_notfound out; world = w; sent = [] }
      else record {
        out = by_router_at net.pid_after gme_ok out;
        world = w;
        sent = send_all net.forks net.takes (get_msg input).0 0 (c ∷ []);
      }

  -- GM_MSG_TYPE_MSG
  unfoldable pub post_all : GmMessage → GmMessage → W → Routed W
  unfolding send_all by_router by_router_at
  post_all input out w =
      let f = get_text funcion input.m_header in
      let t = get_char tipo_mensaje input.m_header in
      let colas = cola f t fs servers in
      if length colas == 0
      then record { out = by_router gme_svc_notfound out; world = w; sent = [] }
      else record {
        out = by_router_at net.pid_after gme_ok out;
        world = w;
        sent = send_all net.forks net.takes (get_msg input).0 0 colas;
      }

  -- The switch over the type.
  unfoldable pub dispatch : GmMessage → GmMessage → W → Routed W
  dispatch input out w =
      let t = get_char tipo_mensaje input.m_header in
      if t == type_cr || t == type_int
      then query_one input out w
      else if t == type_not
      then notify_one input out w
      else if t == type_msg
      then post_all input out w
      else record { out = out; world = w; sent = [] }

  unfoldable pub msg_query : GmMessage → GmMessage → W → Routed W
  msg_query input out w =
      let prepared = (set_response out (some input)).0 in
      if net.opens
      then dispatch input prepared w
      else record { out = by_router gme_msgq_error prepared; world = w; sent = [] }
