-- ===== src/Client/Connecting.antt =====
-- What Connect leaves of the number of the transaction in the message of the client.
use gmonitor.Base.{
  either, Option, none, some, ◌∷◌, [], ◌++◌, ◌+◌, either_with, ℕ, ◌≤◌, ◌<◌, ◌≡◌, ap, refl, ◌∙◌,
  List, [], ◌∷◌, ◌++◌, arith, length, ◌==◌, All,
}
use gmonitor.Service.{gme_ok}
use gmonitor.GmString.{subint}
use gmonitor.Header.{
  read, header_len, get_number, id_trans, id_more_data, secuencia_consulta, tipo_mensaje,
}
use gmonitor.Header.Access.{get_number-set_number}
use gmonitor.Message.{Setting, of_char, call_all, set_data}
use gmonitor.Message.Settings.{Fits, read-call_all, length-call_all}
use gmonitor.Message.Values.{number_lem}
use gmonitor.Wire.{Socket, connect_code}
use gmonitor.Client.{
  GmClient, Machine, connect_settings, ready_settings, outgoing, open_socket, prepared, connect,
}

-- All blocks, one behind the other.
abbrev pub joined : List (List ℕ) → List ℕ
joined [] = []
joined (b ∷ bs) = b ++ joined bs

-- The blocks are no more than a header with the text that a GMIOS has space for.
abbrev pub IsShort : ℕ → List (List ℕ) → Type 0
IsShort room bs = length (joined bs) ≤ header_len + room

-- The numbers of the machine fit the header, and the answers of its peers fit a GMIOS.
pub record IsBounded (e : Machine) : Type 0 where
  pub pid_fits : e.pid < 10000000000
  pub time_fits : (n : ℕ) → e.time n < 10000000000
  pub short_answers :
      (k : ℕ) (bytes : List ℕ) → IsShort e.comm_msg_len ((e.peer_of k).replies bytes)

-- Nothing has arrived yet, and what may arrive is short.
abbrev pub IsQuiet : ℕ → Option Socket → Type 0
IsQuiet room none = Unit {0}
IsQuiet room (some s) = (s.arrived ≡ []) × ((bytes : List ℕ) → IsShort room (s.peer.replies bytes))

-- The message holds `before` as the number of the transaction.
pub record HasTrans (before : List ℕ) (c : GmClient) : Type 0 where
  pub sized : length c.m_pmsgt.m_header ≡ header_len
  pub trans : read id_trans c.m_pmsgt.m_header ≡ before

-- Behind Connect: nothing was sent on this connection.
pub record IsPrepared (room : ℕ) (before : List ℕ) (c : GmClient) : Type 0 where
  pub held : HasTrans before c
  pub consulta : get_number secuencia_consulta c.m_pmsgt.m_header ≡ 0
  pub more : get_number id_more_data c.m_pmsgr.m_header ≡ 0
  pub transfer : c.m_transfer_len ≡ 0
  pub indice : c.m_indice_mensaje ≡ 0
  pub quiet : IsQuiet room c.m_socket

-- Behind Connect, which may have failed.
abbrev pub IsConnected : ℕ → List ℕ → GmClient × ℕ → Type 0
IsConnected room before r = HasTrans before r.0 × (r.1 ≡ gme_ok → IsPrepared room before r.0)

module _ (e : Machine) (bounded : IsBounded e) where
  open_socket-HasTrans :
      (before : List ℕ) (c : GmClient) → HasTrans before c → HasTrans before (open_socket e c).0
  unfolding open_socket
  open_socket-HasTrans before c h = record { sized = h.sized; trans = h.trans }

  pub open_socket-IsQuiet : (c : GmClient) → IsQuiet e.comm_msg_len (open_socket e c).0.m_socket
  unfolding open_socket
  open_socket-IsQuiet c =
      either (IsQuiet e.comm_msg_len) (connect_code (e.peer_of c.sockets).connect_rc == gme_ok)
        {x = some (record { peer = e.peer_of c.sockets; arrived = [] })} {y = none}
        (refl, bounded.short_answers c.sockets) tt

  -- The setters of Connect, one list after the other.
  abbrev settings : List ℕ → List Setting
  settings fn = connect_settings fn e.pid ++ ready_settings

  settings-Fits : (fn : List ℕ) → length fn ≤ 32 → All Fits (settings fn)
  settings-Fits fn l = (
    refl,
    (omega arith, (omega arith, (l, (refl, (bounded.pid_fits, (omega arith, (omega arith, tt))))))),
  )

  prepared-IsPrepared :
      (before fn : List ℕ) (c : GmClient)
      → length fn ≤ 32
      → length c.m_pmsgr.m_header ≡ header_len
      → HasTrans before c
      → IsQuiet e.comm_msg_len c.m_socket
      → IsPrepared e.comm_msg_len before (prepared e fn 0 c)
  unfolding prepared set_data call_all
  prepared-IsPrepared before fn c l r h still =
      let fits = settings-Fits fn l in
      let h0 = c.m_pmsgt.m_header in
      record {
        held = record {
          sized = length-call_all (settings fn) h0 fits ∙ h.sized;
          trans = read-call_all id_trans (settings fn) h0 fits h.sized ∙ h.trans;
        };
        consulta =
            number_lem secuencia_consulta (prepared e fn 0 c).m_pmsgt.m_header 0 (omega arith)
              (omega arith) (omega arith)
              (read-call_all secuencia_consulta (settings fn) h0 fits h.sized);
        more =
            get_number-set_number id_more_data 0 c.m_pmsgr.m_header (omega arith) (omega arith)
              (omega arith) r;
        transfer = refl;
        indice = refl;
        quiet = still;
      }

  -- The type that Call, Notify and Post set behind Connect.
  pub typed-IsPrepared :
      (before : List ℕ) (tipo : ℕ) (c : GmClient)
      → IsPrepared e.comm_msg_len before c
      → IsPrepared e.comm_msg_len before (outgoing (call_all (of_char tipo_mensaje tipo ∷ [])) c)
  unfolding get_number
  typed-IsPrepared before tipo c p =
      let fits : All Fits (of_char tipo_mensaje tipo ∷ []) = (refl, tt) in
      let h0 = c.m_pmsgt.m_header in
      let ss : List Setting = of_char tipo_mensaje tipo ∷ [] in
      record {
        held = record {
          sized = length-call_all ss h0 fits ∙ p.held.sized;
          trans = read-call_all id_trans ss h0 fits p.held.sized ∙ p.held.trans;
        };
        consulta =
            ap (λ bs. subint bs 5) (read-call_all secuencia_consulta ss h0 fits p.held.sized)
            ∙ p.consulta;
        more = p.more;
        transfer = p.transfer;
        indice = p.indice;
        quiet = p.quiet;
      }

  pub connect-IsConnected :
      (before fn : List ℕ) (c : GmClient)
      → length fn ≤ 32
      → length c.m_pmsgr.m_header ≡ header_len
      → HasTrans before c
      → IsConnected e.comm_msg_len before (connect e fn 0 c)
  unfolding connect open_socket
  connect-IsConnected before fn c l r h =
      let d = open_socket e c in
      let held = open_socket-HasTrans before c h in
      either_with (IsConnected e.comm_msg_len before) (d.1 == gme_ok)
        (λ _.
          let p = prepared-IsPrepared before fn d.0 l r held (open_socket-IsQuiet c) in
          (p.held, λ _. p))
        (λ no. (held, λ ok. absurd (ground (arith, no, ok))))
