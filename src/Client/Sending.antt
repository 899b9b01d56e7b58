-- ===== src/Client/Sending.antt =====
-- What Send leaves of the number of the transaction in the message of the client.
use gmonitor.Base.{
  subst, either, ℕ, ◌+◌, ◌<◌, ◌≡◌, ap, refl, ◌∙◌, List, [], ◌∷◌, ◌++◌, Option, none, some, ℤ, arith,
  length, ◌==◌, All, codes,
}
use gmonitor.Service.{gme_ok}
use gmonitor.Header.{read, id_trans, crc, tam_mensaje}
use gmonitor.Message.{GmMessage, Setting, of_text, of_number, call_all, set_data, get_msg}
use gmonitor.Message.Settings.{Fits, read-call_all, length-call_all, assigned}
use gmonitor.Wire.{connect_code, Socket, send_code}
use gmonitor.Client.{
  GmClient, Machine, send_settings, open_socket, reconnect, filled, transmit, ready, send_on, send,
}
use gmonitor.Client.Connecting.{
  IsBounded, HasTrans, IsPrepared, IsQuiet, IsShort, open_socket-IsQuiet,
}

-- Behind Send.
pub record IsSent (room : ℕ) (before : List ℕ) (r : GmClient × ℕ) : Type 0 where
  pub held : HasTrans before r.0
  pub indice : r.0.m_indice_mensaje ≡ 0
  pub socket : r.1 ≡ gme_ok → (s : Socket) × (r.0.m_socket ≡ some s) × IsShort room s.arrived

module _ (e : Machine) (bounded : IsBounded e) where
  reconnect-IsPrepared :
      (before : List ℕ) (c : GmClient)
      → IsPrepared e.comm_msg_len before c
      → IsPrepared e.comm_msg_len before (reconnect e c).0
  unfolding reconnect open_socket set_data
  reconnect-IsPrepared before c p =
      let same : (s : Option Socket)
          → IsQuiet e.comm_msg_len s
          → IsPrepared e.comm_msg_len before (record c { m_socket = s; sockets = c.sockets + 1 }) =
        λ s still. record {
          held = record { sized = p.held.sized; trans = p.held.trans };
          consulta = p.consulta;
          more = p.more;
          transfer = p.transfer;
          indice = p.indice;
          quiet = still;
        } in
      either (λ (r : GmClient × ℕ). IsPrepared e.comm_msg_len before r.0)
        (connect_code (e.peer_of c.sockets).connect_rc == gme_ok)
        (same _ (open_socket-IsQuiet e bounded c)) (same _ (open_socket-IsQuiet e bounded c))

  send_settings-Fits :
      (before : List ℕ) (c : GmClient)
      → IsPrepared e.comm_msg_len before c
      → All Fits (send_settings (e.time c.times) c)
  send_settings-Fits before c p = (
    rw p.consulta (omega arith),
    (
      bounded.time_fits c.times,
      (
        rw p.more (either (λ x. x < 100000) _ {x = 0} {y = 0} (omega arith) (omega arith)),
        (rw p.transfer (omega arith), (rw p.indice (omega arith), tt)),
      ),
    ),
  )

  -- Setters of other members leave the transaction.
  settled :
      (before : List ℕ) (ss : List Setting) (c d : GmClient)
      → All Fits ss
      → assigned id_trans ss (read id_trans c.m_pmsgt.m_header) ≡ read id_trans c.m_pmsgt.m_header
      → d.m_pmsgt.m_header ≡ call_all ss c.m_pmsgt.m_header
      → HasTrans before c
      → HasTrans before d
  settled before ss c d fits apart same h = record {
    sized = ap length same ∙ length-call_all ss c.m_pmsgt.m_header fits ∙ h.sized;
    trans =
        ap (read id_trans) same
        ∙ read-call_all id_trans ss c.m_pmsgt.m_header fits h.sized
        ∙ apart
        ∙ h.trans;
  }

  -- The setters of Send and SetData for a text of `n` bytes.
  filled-HasTrans :
      (before : List ℕ) (query : Option (List ℕ)) (n : ℕ) (c : GmClient)
      → n < 10000000000
      → IsPrepared e.comm_msg_len before c
      → HasTrans before (filled e query n c)
  unfolding filled set_data call_all
  filled-HasTrans before none n c k p =
      settled before (send_settings (e.time c.times) c) c (filled e none n c)
        (send_settings-Fits before c p) refl refl p.held
  filled-HasTrans before (some text) n c k p =
      let ss = send_settings (e.time c.times) c in
      let fits = send_settings-Fits before c p in
      either
        (λ (m : GmMessage × ℤ). HasTrans before (record c { m_pmsgt = m.0; times = c.times + 1 }))
        (n == 0) (settled before ss c _ fits refl refl p.held)
        (settled before
          (ss ++ (of_text crc (codes "*** NULL CRC ***") ∷ of_number tam_mensaje n ∷ [])) c _
          (
            fits.0,
            (fits.1.0, (fits.1.1.0, (fits.1.1.1.0, (fits.1.1.1.1.0, (omega arith, (k, tt)))))),
          )
          refl refl p.held)

  transmit-IsSent :
      (before : List ℕ) (s : Socket) (c : GmClient)
      → HasTrans before c
      → c.m_indice_mensaje ≡ 0
      → c.m_socket ≡ some s
      → IsQuiet e.comm_msg_len (some s)
      → IsSent e.comm_msg_len before (transmit e s c)
  unfolding transmit get_msg
  transmit-IsSent before s c h i has still =
      either (IsSent e.comm_msg_len before)
        (send_code (s.peer.send_rc (get_msg c.m_pmsgt).0) == gme_ok)
        (record {
          held = record { sized = h.sized; trans = h.trans };
          indice = i;
          socket = λ _. (_, refl, rw still.0 (still.1 _));
        })
        (record {
          held = record { sized = h.sized; trans = h.trans };
          indice = i;
          socket = λ _. (s, has, rw still.0 (omega arith));
        })

  send_on-IsSent :
      (before : List ℕ) (query : Option (List ℕ)) (n : ℕ) (s : Option Socket) (c : GmClient)
      → c.m_socket ≡ s
      → n < 10000000000
      → IsPrepared e.comm_msg_len before c
      → IsSent e.comm_msg_len before (send_on e s c query n)
  unfolding send_on filled
  send_on-IsSent before query n none c has k p = record {
    held = p.held;
    indice = p.indice;
    socket = λ h. absurd (omega (arith, h));
  }
  send_on-IsSent before query n (some s) c has k p =
      transmit-IsSent before s (filled e query n c) (filled-HasTrans before query n c k p) p.indice
        has (subst (IsQuiet e.comm_msg_len) has p.quiet)

  ready-IsPrepared :
      (before : List ℕ) (s : Option Socket) (c : GmClient)
      → IsPrepared e.comm_msg_len before c
      → IsPrepared e.comm_msg_len before (ready e s c)
  unfolding ready
  ready-IsPrepared before none c p = reconnect-IsPrepared before c p
  ready-IsPrepared before (some s) c p = p

  pub send-IsSent :
      (before : List ℕ) (query : Option (List ℕ)) (n : ℕ) (c : GmClient)
      → n < 10000000000
      → IsPrepared e.comm_msg_len before c
      → IsSent e.comm_msg_len before (send e query n c)
  unfolding send
  send-IsSent before query n c k p =
      let d = ready e c.m_socket c in
      send_on-IsSent before query n d.m_socket d refl k (ready-IsPrepared before c.m_socket c p)
