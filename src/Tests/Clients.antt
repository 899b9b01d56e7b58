-- ===== src/Tests/Clients.antt =====
-- Runs of the client.
use gmonitor.Base.{
  ℕ, refl, List, [], ◌∷◌, ◌++◌, none, pos, negsuc, arith, codes, replicate, take, drop,
}
use gmonitor.Service.{type_r_not, type_r_cr}
use gmonitor.Header as GmHeader
use gmonitor.Header.{set_number, set_char, id_trans, tipo_mensaje, codigo_retorno}
use gmonitor.Message as GmMessages
use gmonitor.Message.{GmMessage}
use gmonitor.Paging.{with_header}
use gmonitor.Client.{GmClient, Machine, commit}
use gmonitor.Client.Connecting.{IsBounded}
use gmonitor.Client.Answering.{answering}
use gmonitor.Client.Calls.{Ends, end_trans_lem}

abbrev memory : List ℕ
memory = replicate 228 b'?'

abbrev client : GmClient
client = record {
  m_pmsgt = with_header (set_number id_trans 7) (GmMessages.new memory);
  m_pmsgr = GmMessages.new memory;
  m_socket = none;
  m_transfer_len = 0;
  m_indice_mensaje = 0;
  sockets = 0;
  times = 0;
  sent = [];
}

-- The answers of a router: the header for a notification, with a code.
abbrev answer : ℕ → List ℕ
answer rc = set_number codigo_retorno rc (set_char tipo_mensaje type_r_not GmHeader.new)

abbrev router : ℕ → Machine
router rc = record {
  peer_of = λ _. record {
    connect_rc = pos 0;
    send_rc = λ _. pos 0;
    replies = λ _. answer rc ∷ [];
    no_more = negsuc 3;
  };
  time = λ n. 1600000000;
  pid = 4711;
  memory = memory;
  comm_msg_len = 4096;
}

router-IsBounded : IsBounded (router 0)
unfolding GmHeader.new set_char set_number
router-IsBounded = record {
  pid_fits = omega arith;
  time_fits = λ _. omega arith;
  short_answers = λ k bytes. omega arith;
}

end_trans_lem_example : Ends client (commit (router 0) client)
unfolding GmMessages.new GmHeader.new set_number
end_trans_lem_example =
    end_trans_lem (router 0) router-IsBounded (codes ".committrans") client (omega arith) refl refl

-- An answer to a query, which comes in three blocks of at most a hundred bytes.
abbrev reply_header : List ℕ
reply_header = set_char tipo_mensaje type_r_cr GmHeader.new

abbrev reply : List ℕ
reply = reply_header ++ codes "hello"

abbrev reply_blocks : List (List ℕ)
reply_blocks = take 100 reply ∷ take 100 (drop 100 reply) ∷ drop 200 reply ∷ []

abbrev slow : Machine
slow = record {
  peer_of = λ _. answering reply_blocks (negsuc 3);
  time = λ n. 1600000000;
  pid = 4711;
  memory = memory;
  comm_msg_len = 100;
}
