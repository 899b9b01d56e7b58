-- ===== src/Client/Calls.antt =====
-- Commit and Abort of the client.
use gmonitor.Base.{
  either_with, ℕ, ◌≤◌, ◌≡◌, ap, refl, List, Option, none, some, arith, length, ◌==◌, Bool, true,
  false, if◌then◌else◌,
}
use gmonitor.GmString.{subint}
use gmonitor.Service.{gme_ok, type_not}
use gmonitor.Header.{read, header_len, get_number, set_number, id_trans}
use gmonitor.Header.Access.{get_number-set_number}
use gmonitor.Wire.{gme_tran_not_init}
use gmonitor.Client.{GmClient, Machine, outgoing, notify, ended, end_trans}
use gmonitor.Client.Connecting.{IsBounded, HasTrans}
use gmonitor.Client.Receiving.{Answered, perform-Answered}

-- The number of the transaction of the messages that the client sends.
abbrev pub trans : GmClient → ℕ
trans c = get_number id_trans c.m_pmsgt.m_header

-- Commit or Abort of `c` has come back: the transaction is over if the answer is GME_OK, and it is
-- the same as before otherwise; without a transaction nothing is done.
pub record Ends (c : GmClient) (r : Option (GmClient × ℕ)) : Type 0 where
  pub after : GmClient
  pub rc : ℕ
  pub returns : r ≡ some (after, rc)
  pub number : trans after ≡ (if rc == gme_ok then 0 else trans c)
  pub idle : trans c ≡ 0 → (after ≡ c) × (rc ≡ gme_tran_not_init)

-- What is kept is read back.
trans-ended :
    (b : Bool) (c d : GmClient)
    → HasTrans (read id_trans c.m_pmsgt.m_header) d
    → trans (if b then outgoing (set_number id_trans 0) d else d) ≡ (if b then 0 else trans c)
unfolding get_number
trans-ended true c d h =
    get_number-set_number id_trans 0 d.m_pmsgt.m_header (omega arith) (omega arith) (omega arith)
      h.sized
trans-ended false c d h = ap (λ bs. subint bs 5) h.trans

module _ (e : Machine) (bounded : IsBounded e) where
  ended-Ends :
      (c : GmClient) (o : Option (GmClient × (List ℕ × ℕ)))
      → (trans c == 0) ≡ false
      → Answered (read id_trans c.m_pmsgt.m_header) o
      → Ends c (ended e o)
  unfolding ended
  ended-Ends c none busy a = absurd a
  ended-Ends c (some (d, (out, rc))) busy a = record {
    after = _;
    rc = rc;
    returns = refl;
    number = trans-ended (rc == gme_ok) c d a;
    idle = λ z. absurd (ground (arith, z, busy));
  }

  -- Commit and Abort, by the function `fn` that they notify, return whatever codes the connection
  -- gives and whatever bytes arrive, if no peer answers with more than a header and a text of
  -- GM_COMM_MSG_LEN bytes, the headers of both messages have their length, `fn` has at most 32
  -- bytes, and the process number and the times have at most ten digits. The number of the
  -- transaction is then 0 if the answer is GME_OK, and the same as before if it is not; without a
  -- transaction nothing changes, nothing is sent and the answer is GME_TRAN_NOT_INIT.
  pub end_trans_lem :
      (fn : List ℕ) (c : GmClient)
      → length fn ≤ 32
      → length c.m_pmsgt.m_header ≡ header_len
      → length c.m_pmsgr.m_header ≡ header_len
      → Ends c (end_trans e fn c)
  unfolding end_trans
  end_trans_lem fn c l t r =
      either_with (Ends c) (trans c == 0)
        (λ z. record {
          after = c;
          rc = gme_tran_not_init;
          returns = refl;
          number = ground (arith, z);
          idle = λ _. (refl, refl);
        })
        (λ busy. ended-Ends c (notify e fn none 0 c) busy (
          perform-Answered e bounded (read id_trans c.m_pmsgt.m_header) type_not true fn none 0 c l
            (omega arith) r (record { sized = t; trans = refl })))
