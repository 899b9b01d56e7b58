-- ===== src/Client/Receiving.antt =====
-- What Recv leaves of the number of the transaction, and Call, Notify and Post as a whole.
use gmonitor.Base.{
  ltb, ◌||◌, ◌+◌, ◌-◌, ◌++◌, take_all, length-append, subst, sym, either, either_with, ℕ, ◌≤◌, ◌<◌,
  ◌≡◌, Bool, ◌&&◌, not, List, [], ◌∷◌, Option, none, some, ℤ, arith, length, ◌==◌,
}
use gmonitor.Service.{gme_ok, type_int}
use gmonitor.Header.{get_char, header_len, tipo_mensaje}
use gmonitor.Message.{GmMessage, set_msg}
use gmonitor.Wire.{Socket, collect}
use gmonitor.Client.{
  GmClient, Machine, discon, copied, hands_over, accept, checked, read_answer, closed, with_answer,
  perform, recv_on, recv_with, recv, connect,
}
use gmonitor.Client.Connecting.{
  IsBounded, HasTrans, joined, IsShort, typed-IsPrepared, connect-IsConnected,
}
use gmonitor.Client.Sending.{IsSent, send-IsSent}

-- What a client gets back that has sent a message, if the number of the transaction is kept.
abbrev pub Answered : List ℕ → Option (GmClient × (List ℕ × ℕ)) → Type 0
Answered before none = ⊥
Answered before (some r) = HasTrans before r.0

module _ (e : Machine) (bounded : IsBounded e) where
  copied-Answered :
      (before : List ℕ) (room : ℕ) (c : GmClient)
      → length c.m_pmsgr.m_msg_buffer ≤ header_len + room
      → HasTrans before c
      → Answered before (copied room c)
  unfolding copied
  copied-Answered before room c short h =
      either_with (Answered before) (ltb room (length c.m_pmsgr.m_msg_buffer - header_len))
        (λ over. absurd (ground (arith, over, short)))
        (λ _. either (HasTrans before) _ (record { sized = h.sized; trans = h.trans }) h)

  accept-Answered :
      (before : List ℕ) (room : ℕ) (wanted : Bool) (c : GmClient)
      → length c.m_pmsgr.m_msg_buffer ≤ header_len + room
      → HasTrans before c
      → Answered before (accept room wanted c)
  unfolding accept
  accept-Answered before room wanted c short h =
      either (Answered before) (hands_over wanted c) (copied-Answered before room c short h) h

  read_answer-Answered :
      (before : List ℕ) (room : ℕ) (wanted : Bool) (bytes : List ℕ) (c : GmClient)
      → length bytes ≤ header_len + room
      → HasTrans before c
      → Answered before (read_answer room wanted bytes c)
  unfolding read_answer checked set_msg
  read_answer-Answered before room wanted bytes c short h =
      either_with
        (λ (r : GmMessage × ℤ).
          Answered before (checked room wanted r.1 (record c { m_pmsgr = r.0 })))
        (length bytes == 0 || ltb (length bytes) header_len)
        (λ _. record { sized = h.sized; trans = h.trans })
        (λ _.
          accept-Answered before room wanted _ (rw (take_all bytes) short)
            (record { sized = h.sized; trans = h.trans }))

  length-collect : (n : ℕ) (bs : List (List ℕ)) → length (collect n bs) ≤ length (joined bs)
  unfolding collect
  length-collect n [] = omega arith
  length-collect n (b ∷ bs) =
      either (λ x. length (b ++ x) ≤ length (b ++ joined bs)) (ltb (length b) n)
        (omega (arith, length-append b [], length-append b (joined bs)))
        (omega
          (arith, length-append b (collect n bs), length-append b (joined bs), length-collect n bs))

  recv_on-Answered :
      (before : List ℕ) (wanted : Bool) (s : Socket) (bs : List (List ℕ)) (c : GmClient)
      → IsShort e.comm_msg_len bs
      → HasTrans before c
      → Answered before (recv_on e wanted s bs c)
  unfolding recv_on discon
  recv_on-Answered before wanted s [] c short h = h
  recv_on-Answered before wanted s ([] ∷ bs) c short h = record { sized = h.sized; trans = h.trans }
  recv_on-Answered before wanted s ((x ∷ b) ∷ bs) c short h =
      read_answer-Answered before e.comm_msg_len wanted _ (discon c).0
        (omega (
          arith,
          short,
          length-append b (joined bs),
          length-append b (collect e.comm_msg_len bs),
          length-collect e.comm_msg_len bs,
        ))
        (record { sized = h.sized; trans = h.trans })

  recv_with-Answered :
      (before : List ℕ) (wanted : Bool) (o : Option Socket) (c : GmClient)
      → (s : Socket) × (o ≡ some s) × IsShort e.comm_msg_len s.arrived
      → HasTrans before c
      → Answered before (recv_with e wanted o c)
  unfolding recv_with
  recv_with-Answered before wanted o c (s, has, short) h =
      subst (λ x. Answered before (recv_with e wanted x c)) (sym has)
        (recv_on-Answered before wanted s s.arrived c short h)

  recv-Answered :
      (before : List ℕ) (wanted : Bool) (c : GmClient)
      → c.m_indice_mensaje ≡ 0
      → (s : Socket) × (c.m_socket ≡ some s) × IsShort e.comm_msg_len s.arrived
      → HasTrans before c
      → Answered before (recv e wanted c)
  unfolding recv
  recv-Answered before wanted c i has h =
      either_with (λ (d : GmClient). Answered before (recv_with e wanted d.m_socket d))
        (get_char tipo_mensaje c.m_pmsgt.m_header == type_int && not (c.m_indice_mensaje == 0))
        (λ ask. absurd (ground (arith, ask, i)))
        (λ _. recv_with-Answered before wanted c.m_socket c has h)

  closed-Answered :
      (before : List ℕ) (o : Option (GmClient × (List ℕ × ℕ)))
      → Answered before o
      → Answered before (closed e o)
  unfolding closed discon
  closed-Answered before none a = a
  closed-Answered before (some (c, out)) a = record { sized = a.sized; trans = a.trans }

  with_answer-Answered :
      (before : List ℕ) (wanted : Bool) (r : GmClient × ℕ)
      → IsSent e.comm_msg_len before r
      → Answered before (with_answer e wanted r)
  unfolding with_answer discon
  with_answer-Answered before wanted (c, rc) s =
      either_with (Answered before) (rc == gme_ok)
        (λ ok.
          closed-Answered before (recv e wanted c)
            (recv-Answered before wanted c s.indice (s.socket (ground arith)) s.held))
        (λ _. record { sized = s.held.sized; trans = s.held.trans })

  -- Call, Notify and Post come back, with the number of the transaction that the client had.
  pub perform-Answered :
      (before : List ℕ) (tipo : ℕ) (wanted : Bool) (fn : List ℕ) (query : Option (List ℕ)) (n : ℕ)
      (c : GmClient)
      → length fn ≤ 32
      → n < 10000000000
      → length c.m_pmsgr.m_header ≡ header_len
      → HasTrans before c
      → Answered before (perform e tipo wanted fn query n c)
  unfolding perform
  perform-Answered before tipo wanted fn query n c l k r h =
      let d = connect-IsConnected e bounded before fn c l r h in
      either_with (Answered before) ((connect e fn 0 c).1 == gme_ok)
        (λ ok. with_answer-Answered before wanted _ (
          send-IsSent e bounded before query n _ k (
            typed-IsPrepared e bounded before tipo (connect e fn 0 c).0
              (d.1 (ground (arith, ok))))))
        (λ _. d.0)
