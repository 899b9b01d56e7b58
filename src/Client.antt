-- ===== src/Client.antt =====
-- CGMClient (system/client/gmc.cc): the client of the monitor, with the message that it sends and
-- the message that it has received. The connection is a parameter: each socket that is opened has
-- the behaviour of a peer, by what Connect, Send and Receive of CTcp return. GMIOS is the bytes
-- that are handed over, none where the code leaves it as it was. The texts and numbers of the
-- constructor, the register of services and the log are left out.
pub mod Connecting
pub mod Sending
pub mod Receiving
pub mod Calls
pub mod Answering
use gmonitor.Base.{
  ℕ, zero, suc, ◌+◌, ◌%◌, Bool, true, false, ◌&&◌, ◌||◌, not, List, [], ◌∷◌, ◌++◌, Option, none,
  some, ◌==◌, ltb, if◌then◌else◌, ℤ, pos, negsuc, length, drop, codes,
}
use gmonitor.Service.{
  type_cr, type_msg, type_int, type_not, type_r_cr, type_r_int, gme_ok, gme_undefined,
  gme_more_data,
}
use gmonitor.Header.{
  get_char, get_number, set_number, tipo_mensaje, funcion, id_trans, id_more_data,
  secuencia_consulta, secuencia_respuesta, origen_consulta, id_origen, time_stamp, codigo_retorno,
  indice_mensaje, tam_max_mensaje,
}
use gmonitor.Message.{
  GmMessage, Setting, of_char, of_text, of_number, call_all, get_msg, set_msg, set_data, get_data,
  get_data_len,
}
use gmonitor.Wire.{
  Peer, Socket, gme_not_connected, gme_invalid_header, gme_tran_not_allowed, gme_invalid_tran,
  gme_tran_not_init, connect_code, error_code, send_code, collect,
}
use gmonitor.Paging.{with_header, le_bytes}

-- `sockets` and `times` count the calls of Connect and time(), `sent` are the blocks for which Send
-- answered that they are sent.
pub record GmClient : Type 0 where
  pub m_pmsgt : GmMessage
  pub m_pmsgr : GmMessage
  pub m_socket : Option Socket
  pub m_transfer_len : ℕ
  pub m_indice_mensaje : ℕ
  pub sockets : ℕ
  pub times : ℕ
  pub sent : List (List ℕ)

-- The peer of each socket, the clock, getpid(), the fresh memory of a message, GM_COMM_MSG_LEN.
pub record Machine : Type 0 where
  pub peer_of : ℕ → Peer
  pub time : ℕ → ℕ
  pub pid : ℕ
  pub memory : List ℕ
  pub comm_msg_len : ℕ

-- The setters that Connect and Send call on the message that is sent.
abbrev pub connect_settings : List ℕ → ℕ → List Setting
connect_settings fn pid =
    of_char tipo_mensaje type_int
    ∷ of_number secuencia_consulta 0
    ∷ of_number secuencia_respuesta 0
    ∷ of_text funcion fn
    ∷ of_char origen_consulta b'C'
    ∷ of_number id_origen pid
    ∷ []

abbrev pub ready_settings : List Setting
ready_settings = of_number codigo_retorno 0 ∷ of_number id_more_data 0 ∷ []

-- IdMoreData: that of the message received if the message is interactive.
abbrev pub more_data : GmClient → ℕ
more_data c =
    let id = get_number id_more_data c.m_pmsgr.m_header in
    if get_char tipo_mensaje c.m_pmsgt.m_header == type_int && not (id == 0) then id else 0

abbrev pub send_settings : ℕ → GmClient → List Setting
send_settings now c =
    of_number secuencia_consulta
      ((get_number secuencia_consulta c.m_pmsgt.m_header + 1) % 4294967296)
    ∷ of_number time_stamp now
    ∷ of_number id_more_data (more_data c)
    ∷ of_number tam_max_mensaje c.m_transfer_len
    ∷ of_number indice_mensaje c.m_indice_mensaje
    ∷ []

-- The setters of a header, on the message that is sent.
abbrev pub outgoing : (List ℕ → List ℕ) → GmClient → GmClient
outgoing f c = record c { m_pmsgt = with_header f c.m_pmsgt }

unfoldable pub discon : GmClient → GmClient × ℕ
discon c = (record c { m_socket = none }, gme_ok)

-- The text of the answer is copied into the array of a GMIOS, of `room` bytes. The code does not
-- look at its length: none stands for the write behind the end of the array.
unfoldable pub copied : ℕ → GmClient → Option (GmClient × (List ℕ × ℕ))
copied room c =
    let rc = get_number codigo_retorno c.m_pmsgr.m_header in
    let tipo = get_char tipo_mensaje c.m_pmsgr.m_header in
    let len = get_data_len c.m_pmsgr in
    let next =
      if len == c.m_transfer_len && rc == gme_more_data
      then (c.m_indice_mensaje + len) % 18446744073709551616
      else 0 in
    if ltb room len
    then none
    else some (
      if tipo == type_r_int && ltb 0 len then record c { m_indice_mensaje = next } else c,
      (get_data c.m_pmsgr, rc),
    )

-- Recv hands over the text of an answer to a query or an interactive message, without an error.
abbrev pub hands_over : Bool → GmClient → Bool
hands_over wanted c =
    let rc = get_number codigo_retorno c.m_pmsgr.m_header in
    let tipo = get_char tipo_mensaje c.m_pmsgr.m_header in
    (rc == gme_ok || rc == gme_more_data) && (tipo == type_r_cr || tipo == type_r_int) && wanted

-- The rest of Recv, behind SetMsg; `wanted` says that the caller has handed over a GMIOS.
unfoldable pub accept : ℕ → Bool → GmClient → Option (GmClient × (List ℕ × ℕ))
unfolding copied
accept room wanted c =
    if hands_over wanted c
    then copied room c
    else some (c, ([], get_number codigo_retorno c.m_pmsgr.m_header))

-- By the answer of SetMsg.
unfoldable pub checked : ℕ → Bool → ℤ → GmClient → Option (GmClient × (List ℕ × ℕ))
unfolding accept
checked room wanted (pos _) c = accept room wanted c
checked room wanted (negsuc _) c = some (c, ([], gme_invalid_header))

unfoldable pub read_answer : ℕ → Bool → List ℕ → GmClient → Option (GmClient × (List ℕ × ℕ))
unfolding set_msg
read_answer room wanted bytes c =
    let taken = set_msg c.m_pmsgr (some bytes) (length bytes) in
    checked room wanted taken.1 (record c { m_pmsgr = taken.0 })

module _ (e : Machine) where
  -- `new CTcp` and its Connect, in Connect and in ReConnect.
  unfoldable pub open_socket : GmClient → GmClient × ℕ
  unfolding connect_code
  open_socket c =
      let p = e.peer_of c.sockets in
      let rc = connect_code p.connect_rc in
      let s = if rc == gme_ok then some (record { peer = p; arrived = [] }) else none in
      (record c { m_socket = s; sockets = c.sockets + 1 }, rc)

  -- The message that Connect leaves; SetData is called without text.
  unfoldable pub prepared : List ℕ → ℕ → GmClient → GmClient
  unfolding set_data
  prepared fn transfer_len c =
      let m = with_header (call_all (connect_settings fn e.pid)) c.m_pmsgt in
      record c {
        m_pmsgt = with_header (call_all ready_settings) (set_data e.memory m none 0).0;
        m_pmsgr = with_header (set_number id_more_data 0) c.m_pmsgr;
        m_transfer_len = transfer_len;
        m_indice_mensaje = 0;
      }

  unfoldable pub connect : List ℕ → ℕ → GmClient → GmClient × ℕ
  connect fn transfer_len c =
      let d = open_socket c in if d.1 == gme_ok then (prepared fn transfer_len d.0, gme_ok) else d

  unfoldable pub reconnect : GmClient → GmClient × ℕ
  unfolding set_data
  reconnect c =
      let d = open_socket c in
      if d.1 == gme_ok
      then (record d.0 { m_pmsgt = (set_data e.memory d.0.m_pmsgt none 0).0 }, gme_ok)
      else d

  -- The message that Send sends.
  unfoldable pub filled : Option (List ℕ) → ℕ → GmClient → GmClient
  filled query qlen c =
      let m = with_header (call_all (send_settings (e.time c.times) c)) c.m_pmsgt in
      record c { m_pmsgt = (set_data e.memory m query qlen).0; times = c.times + 1 }

  unfoldable pub transmit : Socket → GmClient → GmClient × ℕ
  unfolding get_msg send_code
  transmit s c =
      let (bytes, m) = get_msg c.m_pmsgt in
      let rc = send_code (s.peer.send_rc bytes) in
      let after = record s { arrived = s.arrived ++ s.peer.replies bytes } in
      if rc == gme_ok
      then (record c { m_pmsgt = m; m_socket = some after; sent = c.sent ++ (bytes ∷ []) }, gme_ok)
      else (record c { m_pmsgt = m }, rc)

  -- Send: the client with a socket, if it has one or gets one, and what it does then.
  unfoldable pub ready : Option Socket → GmClient → GmClient
  ready none c = (reconnect c).0
  ready (some s) c = c

  unfoldable pub send_on : Option Socket → GmClient → Option (List ℕ) → ℕ → GmClient × ℕ
  send_on none c query qlen = (c, gme_not_connected)
  send_on (some s) c query qlen = transmit s (filled query qlen c)

  unfoldable pub send : Option (List ℕ) → ℕ → GmClient → GmClient × ℕ
  unfolding ready send_on
  send query qlen c = let d = ready c.m_socket c in send_on d.m_socket d query qlen

  -- Recv on an open socket, by the blocks that arrive.
  unfoldable pub recv_on :
      Bool → Socket → List (List ℕ) → GmClient → Option (GmClient × (List ℕ × ℕ))
  unfolding error_code discon
  recv_on wanted s [] c = some (c, ([], error_code s.peer.no_more))
  recv_on wanted s ([] ∷ bs) c =
      some (record c { m_socket = some (record s { arrived = bs }) }, ([], gme_undefined))
  recv_on wanted s ((x ∷ b) ∷ bs) c =
      read_answer e.comm_msg_len wanted ((x ∷ b) ++ collect e.comm_msg_len bs) (discon c).0

  -- Recv; none stands also for the call of Receive without a socket.
  unfoldable pub recv_with : Bool → Option Socket → GmClient → Option (GmClient × (List ℕ × ℕ))
  unfolding recv_on
  recv_with wanted none c = none
  recv_with wanted (some s) c = recv_on wanted s s.arrived c

  unfoldable pub recv : Bool → GmClient → Option (GmClient × (List ℕ × ℕ))
  unfolding recv_with
  recv wanted c =
      let ask =
        get_char tipo_mensaje c.m_pmsgt.m_header == type_int && not (c.m_indice_mensaje == 0) in
      let d = if ask then (send none 0 c).0 else c in recv_with wanted d.m_socket d

  -- Call, Notify and Post, by the type of the message.
  unfoldable pub closed : Option (GmClient × (List ℕ × ℕ)) → Option (GmClient × (List ℕ × ℕ))
  unfolding discon
  closed none = none
  closed (some (c, out)) = some ((discon c).0, out)

  unfoldable pub with_answer : Bool → GmClient × ℕ → Option (GmClient × (List ℕ × ℕ))
  unfolding closed
  with_answer wanted (c, rc) =
      if rc == gme_ok then closed (recv wanted c) else some ((discon c).0, ([], rc))

  unfoldable pub perform :
      ℕ → Bool → List ℕ → Option (List ℕ) → ℕ → GmClient → Option (GmClient × (List ℕ × ℕ))
  perform tipo wanted fn query qlen c =
      let d = connect fn 0 c in
      let typed = outgoing (call_all (of_char tipo_mensaje tipo ∷ [])) d.0 in
      if d.1 == gme_ok then with_answer wanted (send query qlen typed) else some (d.0, ([], d.1))

  abbrev pub call : List ℕ → List ℕ → Bool → GmClient → Option (GmClient × (List ℕ × ℕ))
  call fn query wanted = perform type_cr wanted fn (some query) (length query)

  abbrev pub notify : List ℕ → Option (List ℕ) → ℕ → GmClient → Option (GmClient × (List ℕ × ℕ))
  notify = perform type_not true

  abbrev pub post : List ℕ → Option (List ℕ) → ℕ → GmClient → Option (GmClient × (List ℕ × ℕ))
  post = perform type_msg true

  -- Begin: the time-out is a long. The number of the transaction stands in the answer.
  unfoldable pub begun : Option (GmClient × (List ℕ × ℕ)) → Option (GmClient × ℕ)
  begun none = none
  begun (some (c, (_, rc))) =
      let id = get_number id_trans c.m_pmsgr.m_header in
      if rc == gme_ok
      then some (outgoing (set_number id_trans id) c, if id == 0 then gme_invalid_tran else gme_ok)
      else some (c, rc)

  unfoldable pub begin : ℕ → GmClient → Option (GmClient × ℕ)
  unfolding begun le_bytes
  begin to_s c =
      if get_number id_trans c.m_pmsgt.m_header == 0
      then begun (call (codes ".begintrans") (le_bytes 8 to_s) false c)
      else some (c, gme_tran_not_allowed)

  -- Commit and Abort, by the function that they notify.
  unfoldable pub ended : Option (GmClient × (List ℕ × ℕ)) → Option (GmClient × ℕ)
  ended none = none
  ended (some (c, (_, rc))) =
      some (if rc == gme_ok then outgoing (set_number id_trans 0) c else c, rc)

  unfoldable pub end_trans : List ℕ → GmClient → Option (GmClient × ℕ)
  unfolding ended
  end_trans fn c =
      if get_number id_trans c.m_pmsgt.m_header == 0
      then some (c, gme_tran_not_init)
      else ended (notify fn none 0 c)

  abbrev pub commit : GmClient → Option (GmClient × ℕ)
  commit = end_trans (codes ".committrans")

  abbrev pub abort : GmClient → Option (GmClient × ℕ)
  abort = end_trans (codes ".aborttrans")

  -- Dequeue: the name of the queue with its NUL.
  abbrev pub dequeue : List ℕ → GmClient → Option (GmClient × (List ℕ × ℕ))
  dequeue queue = call (codes ".dequeue") (queue ++ (0 ∷ [])) true
