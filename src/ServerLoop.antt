-- ===== src/ServerLoop.antt =====
-- ServerLoop (system/queue/gmq.cc), the loop of the process that serves a queue, for a server of
-- the class CGMServer (system/queue/gms.h). What the server's own methods do is a parameter: they
-- change a state of its own and return a code. The messages that are sent are the result of a
-- round; whether Send succeeds changes nothing but the log.
pub mod Answers
pub mod Counting
pub mod Keeping
use gmonitor.Base.{
  ℕ, zero, suc, ◌+◌, ◌-◌, Bool, true, false, ◌||◌, List, [], ◌∷◌, ◌++◌, Option, none, some, ◌==◌,
  ltb, if◌then◌else◌, ℤ, pos, negsuc, success, codes, str_eq, length,
}
use gmonitor.Service.{type_msg, type_not}
use gmonitor.GmString.{subint, to_u32}
use gmonitor.Header.{
  get_text, get_block, get_number, get_char, get_time_stamp, set_number, set_char, id_usuario,
  id_cliente, key, id_grupo, id_trans, funcion, tipo_mensaje, codigo_retorno, origen_respuesta,
  id_destino,
}
use gmonitor.Message.{GmMessage, set_msg, set_response, set_data, get_msg, get_data, get_data_len}

-- What the loop puts into the server for each message; host and port are always empty.
pub record ClientData : Type 0 where
  pub m_user : List ℕ
  pub m_client : List ℕ
  pub m_key : List ℕ
  pub m_group : List ℕ
  pub m_trans : ℕ
  pub m_timestamp : ℕ

unfoldable pub client_data : GmMessage → ClientData
client_data m = record {
  m_user = get_text id_usuario m.m_header;
  m_client = get_text id_cliente m.m_header;
  m_key = get_block key m.m_header;
  m_group = get_text id_grupo m.m_header;
  m_trans = get_number id_trans m.m_header;
  m_timestamp = get_time_stamp m.m_header;
}

-- The methods of the server: Init and Run, the commands, and Main between PreMain and PosMain.
-- Main returns with its code the bytes of the answer.
pub record Methods (S : Type 0) : Type 0 where
  pub start : S → ℤ × S
  pub begin_trans : ClientData → ℕ → S → ℤ × S
  pub commit_trans : ClientData → ℕ → S → ℤ × S
  pub rollback_trans : ClientData → ℕ → S → ℤ × S
  pub log_level : ℕ → S → S
  pub pre_main : ClientData → S → ℤ × S
  pub main : ClientData → List ℕ → ℕ → List ℕ → S → ℤ × List ℕ × S
  pub pos_main : ClientData → S → ℤ × S

abbrev pub is_ok : ℤ → Bool
is_ok (pos n) = n == 0
is_ok (negsuc n) = false

-- The messages that want no answer with data.
unfoldable pub is_one_way : ℕ → Bool
is_one_way t = t == type_msg || t == type_not

-- `(unsigned int)*GetData()`, for a signed char; `behind` stands behind a message without text.
unfoldable pub argument : ℕ → List ℕ → ℕ
argument behind [] = behind
argument behind (c ∷ cs) = if ltb c 128 then c else 4294967040 + c

-- The commands of the loop.
pub data Command : Type 0 where
  begin commit rollback level no_command : Command

unfoldable pub command : List ℕ → Command
command f =
    if str_eq f (codes ".begintrans")
    then begin
    else if str_eq f (codes ".committrans")
    then commit
    else if str_eq f (codes ".aborttrans")
    then rollback
    else if str_eq f (codes ".log-level")
    then level
    else no_command

-- The answer to a message that wants no data.
unfoldable pub acknowledge : List ℕ → GmMessage → List ℕ × GmMessage
unfolding set_number
acknowledge raw out =
    let emptied = (set_data raw out none 0).0 in
    get_msg (record emptied { m_header = set_number codigo_retorno 0 emptied.m_header })

-- Where the inner loop is left: the code, the answer, the server and the outgoing message, and
-- what was sent.
pub record Outcome (S : Type 0) : Type 0 where
  pub rc : ℤ
  pub body : List ℕ
  pub server : S
  pub out : GmMessage
  pub sent : List (List ℕ)

module _ {S : Type 0} where
  abbrev pub of_command : ℤ × S → GmMessage → Outcome S
  of_command (rc, s) out = record { rc = rc; body = []; server = s; out = out; sent = [] }

  -- PreMain, Main and PosMain, up to the first that fails.
  unfoldable pub call_main : Methods S → ClientData → GmMessage → S → ℤ × List ℕ × S
  call_main m c input s =
      let before = m.pre_main c s in
      let done =
        m.main c (get_text funcion input.m_header) (get_char tipo_mensaje input.m_header)
          (get_data input) before.1 in
      let after = m.pos_main c done.2 in
      if is_ok before.0
      then if is_ok done.0 then (after.0, done.1, after.1) else (done.0, done.1, done.2)
      else (before.0, [], before.1)

  unfoldable pub serve_function : Methods S → List ℕ → GmMessage → GmMessage → S → Outcome S
  serve_function m raw input out s =
      let done = call_main m (client_data input) input s in
      let early = acknowledge raw out in
      if is_one_way (get_char tipo_mensaje input.m_header)
      then record {
        rc = done.0;
        body = done.1;
        server = done.2;
        out = early.1;
        sent = early.0 ∷ [];
      }
      else record { rc = done.0; body = done.1; server = done.2; out = out; sent = [] }

  -- The body of the inner loop.
  unfoldable pub dispatch : Command → Methods S → ℕ → List ℕ → GmMessage → GmMessage → S → Outcome S
  dispatch begin m arg raw input out s = of_command (m.begin_trans (client_data input) arg s) out
  dispatch commit m arg raw input out s = of_command (m.commit_trans (client_data input) arg s) out
  dispatch rollback m arg raw input out s =
      of_command (m.rollback_trans (client_data input) arg s) out
  dispatch level m arg raw input out s =
      of_command (success, m.log_level (subint (get_data input) (get_data_len input)) s) out
  dispatch no_command m arg raw input out s = serve_function m raw input out s

  unfoldable pub handle : Methods S → ℕ → List ℕ → GmMessage → GmMessage → S → Outcome S
  unfolding dispatch
  handle m behind raw input out s =
      dispatch (command (get_text funcion input.m_header)) m (argument behind (get_data input)) raw
        input out s

  -- The answer to the other messages.
  unfoldable pub answer : List ℕ → ℕ → Outcome S → List ℕ × GmMessage
  answer raw pid o =
      let filled =
        if is_ok o.rc then (set_data raw o.out (some o.body) (length o.body)).0 else o.out in
      let h1 = set_number codigo_retorno (to_u32 o.rc) filled.m_header in
      let h2 = set_char origen_respuesta b'S' h1 in
      get_msg (record filled { m_header = set_number id_destino pid h2 })

-- The server and the two messages, which live as long as the loop.
pub record Loop (S : Type 0) : Type 0 where
  pub server : S
  pub in_message : GmMessage
  pub out_message : GmMessage

module _ {S : Type 0} where
  -- Behind the inner loop.
  unfoldable pub finish : List ℕ → ℕ → GmMessage → Outcome S → Loop S × List (List ℕ)
  finish raw pid input o =
      let last = answer raw pid o in
      if is_one_way (get_char tipo_mensaje input.m_header)
      then (record { server = o.server; in_message = input; out_message = o.out }, o.sent)
      else (
        record { server = o.server; in_message = input; out_message = last.1 },
        o.sent ++ last.0 ∷ [],
      )

  -- The server is started for each message if it is off line.
  unfoldable pub begin_round : Methods S → Bool → S → ℤ × S
  begin_round m is_offline s = if is_offline then m.start s else (success, s)

  unfoldable pub serve : Methods S → Bool → ℕ → List ℕ → GmMessage → GmMessage → S → Outcome S
  serve m is_offline behind raw input out s =
      let started = begin_round m is_offline s in
      if is_ok started.0 then handle m behind raw input out started.1 else of_command started out

  -- A message that SetMsg refuses is passed over.
  unfoldable pub round :
      Methods S → Bool → ℕ → List ℕ → ℕ → Option (List ℕ) → ℕ → Loop S → Loop S × List (List ℕ)
  unfolding finish serve
  round m is_offline behind raw pid bytes len l =
      let taken = set_msg l.in_message bytes len in
      let out = (set_response l.out_message (some taken.0)).0 in
      if is_ok taken.1
      then finish raw pid taken.0 (serve m is_offline behind raw taken.0 out l.server)
      else (l, [])
