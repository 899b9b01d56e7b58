-- ===== src/ServerBase.antt =====
-- CGMServerBase (system/queue/gmsbase.cc): what a server asks of the monitor. CMsg::Query on the
-- queue of the router is a parameter, with its code and what it has received. The identity is that
-- of the client whose message the server treats. The process that Run starts, with its pipes, and
-- Enqueue are left out.
pub mod Unanswered
use gmonitor.Base.{
  ℕ, zero, suc, ◌+◌, Bool, true, false, ◌&&◌, not, List, [], ◌∷◌, ◌++◌, Option, none, some, ◌==◌,
  ltb, if◌then◌else◌, ℤ, pos, negsuc, success, failure, length, codes,
}
use gmonitor.Buffer.{GmBuffer}
use gmonitor.Service as Services
use gmonitor.Service.{type_cr, type_msg, type_not, gme_ok, gme_msgq_error}
use gmonitor.Header.{
  get_number, set_number, tipo_mensaje, id_usuario, id_cliente, key, id_grupo, funcion, id_trans,
  id_cola, secuencia_consulta, secuencia_respuesta, origen_consulta, id_origen, id_router,
  time_stamp, codigo_retorno,
}
use gmonitor.Message.{
  GmMessage, Setting, new, of_char, of_text, of_number, call_all, get_msg, set_msg_buffer, set_data,
  set_response, get_data, get_data_len,
}
use gmonitor.Paging.{with_header}
use gmonitor.Tables.{Funcion, add_svc, remove_svc}

-- The queue of the router, getpid(), the fresh memory of a message and GM_COMM_MSG_LEN.
pub record RouterQueue (W : Type 0) : Type 0 where
  pub query : W → List ℕ → ℕ → W × ℤ × GmBuffer
  pub pid : ℕ
  pub memory : List ℕ
  pub comm_msg_len : ℕ

-- The setters that Notify, Post and Call call on their message.
unfoldable pub request_settings : ℕ → Services.Client → ℕ → List ℕ → List Setting
request_settings pid id tipo event =
    of_text id_usuario id.user
    ∷ of_text id_cliente id.client
    ∷ of_text key id.key
    ∷ of_text id_grupo id.group
    ∷ of_number id_trans 0
    ∷ of_number id_cola 0
    ∷ of_number id_origen pid
    ∷ of_number id_router 0
    ∷ of_number time_stamp 0
    ∷ of_number codigo_retorno 0
    ∷ of_char tipo_mensaje tipo
    ∷ of_number secuencia_consulta 1
    ∷ of_number secuencia_respuesta 0
    ∷ of_char origen_consulta b'S'
    ∷ of_text funcion event
    ∷ []

module _ {W : Type 0} (q : RouterQueue W) (id : Services.Client) where
  unfoldable pub request : ℕ → List ℕ → Option (List ℕ) → ℕ → GmMessage
  request tipo event text len =
      let m = with_header (call_all (request_settings q.pid id tipo event)) (new q.memory) in
      (set_data q.memory m text len).0

  -- The answer, by the code of Query; what is not answered is an error of the queue.
  unfoldable pub answer_of : GmMessage → ℤ → GmBuffer → GmMessage
  answer_of omsg (pos (suc _)) buffer = (set_msg_buffer (new q.memory) (some buffer)).0
  answer_of omsg (pos zero) buffer =
      with_header (set_number codigo_retorno gme_msgq_error)
        (set_response (new q.memory) (some omsg)).0
  answer_of omsg (negsuc _) buffer =
      with_header (set_number codigo_retorno gme_msgq_error)
        (set_response (new q.memory) (some omsg)).0

  -- Notify, Post and Call: the message that has come back.
  unfoldable pub ask : ℕ → List ℕ → Option (List ℕ) → ℕ → ℕ → W → W × GmMessage
  unfolding request answer_of
  ask tipo event text len to w =
      let omsg = request tipo event text len in
      let (after, rc, buffer) = q.query w (get_msg omsg).0 to in
      (after, answer_of (get_msg omsg).1 rc buffer)

  -- Their code.
  abbrev pub code_of : W × GmMessage → ℕ
  code_of (w, imsg) = get_number codigo_retorno imsg.m_header

  abbrev pub notify : List ℕ → Option (List ℕ) → ℕ → W → W × GmMessage
  notify event text len = ask type_not event text len 100

  abbrev pub post : List ℕ → Option (List ℕ) → ℕ → W → W × GmMessage
  post event text len = ask type_msg event text len 100

  -- Call. The text of the answer is copied into the array of a GMIOS, if there is one, and its length
  -- is not looked at: none stands for the write behind the end of the array.
  unfoldable pub call : Bool → List ℕ → Option (List ℕ) → ℕ → ℕ → W → Option (W × GmMessage)
  unfolding ask
  call wanted fn query len to w =
      let answer = ask type_cr fn query len to w in
      if wanted && ltb q.comm_msg_len (get_data_len answer.1) then none else some answer

  -- Call with buffers: the response is added to if the code says GME_OK.
  unfoldable pub call_buffer : List ℕ → Option (List ℕ) → ℕ → List ℕ → W → Option (W × (List ℕ × ℕ))
  unfolding call get_data
  call_buffer fn query to response w =
      elim (call true fn query (elim query [ none ↦ 0 | some text ↦ length text ]) to w) [
        | none ↦ none
        | some answer ↦
            let rc = code_of answer in
            some (answer.0, (if rc == gme_ok then response ++ get_data answer.1 else response, rc))
      ]

  abbrev pub dequeue : List ℕ → W → Option (W × GmMessage)
  dequeue queue = call true (codes ".dequeue") (some (queue ++ (0 ∷ []))) (length queue + 1) 100

-- Suscribe and UnSuscribe, for the server of the name, if its tables are open.
unfoldable pub suscribe : List ℕ → List ℕ → ℕ → Option (List Funcion) → Option (List Funcion) × ℤ
unfolding add_svc
suscribe server event tipo none = (none, failure)
suscribe server event tipo (some fs) =
    let (after, rc) = add_svc event tipo server fs in (some after, rc)

unfoldable pub un_suscribe : List ℕ → List ℕ → ℕ → Option (List Funcion) → Option (List Funcion) × ℤ
unfolding remove_svc
un_suscribe server event tipo none = (none, failure)
un_suscribe server event tipo (some fs) =
    let (after, rc) = remove_svc event tipo server fs in (some after, rc)

-- SetTransMode, which does not look at the answers of the subscriptions.
unfoldable pub set_trans_mode :
    List ℕ → Bool → Bool → Option (List Funcion) → Option (List Funcion) × Bool × ℤ
unfolding suscribe un_suscribe
set_trans_mode server mode on_off fs =
    let off1 = (un_suscribe server (codes ".aborttrans") type_msg fs).0 in
    let off2 = (un_suscribe server (codes ".committrans") type_msg off1).0 in
    let off3 = (un_suscribe server (codes ".begintrans") type_msg off2).0 in
    let on1 = (suscribe server (codes ".begintrans") type_msg fs).0 in
    let on2 = (suscribe server (codes ".committrans") type_msg on1).0 in
    let on3 = (suscribe server (codes ".aborttrans") type_msg on2).0 in
    if mode && not on_off
    then (off3, on_off, success)
    else if not mode && on_off
    then (on3, on_off, success)
    else (fs, mode, failure)
