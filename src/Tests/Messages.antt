-- ===== src/Tests/Messages.antt =====
-- Runs of the router on messages.
use gmonitor.Base.{
  ℕ, ◌+◌, ◌<◌, ◌≡◌, ◌⊎◌, refl, true, List, [], ◌∷◌, ◌++◌, none, arith, codes, length, take, drop,
  replicate, ltb, if◌then◌else◌, pos,
}
use gmonitor.Service.{type_msg, gme_ok, gme_more_data, gme_svc_notfound, le_word}
use gmonitor.Header as GmHeader
use gmonitor.Header.{
  header_len, get_char, get_number, get_long, tipo_mensaje, funcion, codigo_retorno,
  tam_max_mensaje,
}
use gmonitor.Message.{GmMessage, get_data}
use gmonitor.Tables.{Server, Funcion, cola}
use gmonitor.Routing.{Net, Routed, msg_query}
use gmonitor.Routing.Marks.{IsMarked}
use gmonitor.Routing.Dispatch.{Copies, bytes, colas, msg_query-Copies}
use gmonitor.Routing.Refusal.{msg_query_refused}
use gmonitor.Paging.{piece_len, piece_total, piece_text, next_code}
use gmonitor.Paging.Pieces.{IsPiece, next_code_lem}

-- Every queue answers with nothing within the time.
abbrev net : Net ℕ
net = record {
  opens = true;
  query = λ w c b t. (w + 1, pos 0, record { m_len = 0; m_buffer = none });
  takes = λ c. true;
  counts = λ c. pos 0;
  forks = λ i. true;
  pid = 7;
  pid_after = 8;
}

abbrev raw : List ℕ
raw = replicate 228 0

abbrev fresh : GmMessage
fresh = record { m_header = GmHeader.new; m_msg_buffer = raw }

length-fresh : length GmHeader.new ≡ header_len
unfolding GmHeader.new
length-fresh = refl

-- An event of the function ".echo".
abbrev event : GmMessage
event = record {
  m_header =
      b'M'
      ∷ (codes "000"
          ++ (replicate 64 32 ++ (codes ".echo" ++ (replicate 27 32 ++ drop 100 GmHeader.new))));
  m_msg_buffer = raw;
}

abbrev functions : List Funcion
functions =
    record {
      nombre = codes ".echo";
      descripcion = [];
      tipo_mensaje = b'M';
      server = codes "srv";
      suscripciones = pos 1;
    }
    ∷ []

abbrev servers : List Server
servers =
    record {
      nombre = codes "srv";
      descripcion = [];
      modo = 0;
      path = [];
      cola = pos 10 ∷ pos 20 ∷ [];
      qid = [];
      pid = [];
    }
    ∷ []

event_type : get_char tipo_mensaje event.m_header ≡ type_msg
unfolding get_char
event_type = refl

msg_query-Copies_example :
    Copies
      (bytes net raw functions servers event 0)
      (colas net raw functions servers event 0)
      (msg_query net raw functions servers event fresh 0).sent
msg_query-Copies_example = msg_query-Copies net raw functions servers event 0 fresh

-- Without functions there is no queue.
no_queues : length (colas net raw [] servers event 0) ≡ 0
unfolding cola
no_queues = refl

msg_query_refused_example :
    ((msg_query net raw [] servers event fresh 0).sent ≡ [])
    × ((msg_query net raw [] servers event fresh 0).world ≡ 0)
    × IsMarked gme_svc_notfound (msg_query net raw [] servers event fresh 0).out
msg_query_refused_example =
    msg_query_refused net raw [] servers event 0 fresh (rw event_type refl) refl no_queues
      length-fresh

-- The last two bytes of five, for a client that allows two.
abbrev got : Routed ℕ
got = record {
  out = record {
    m_header = GmHeader.new;
    m_msg_buffer =
        raw ++ (replicate 24 0 ++ (2 ∷ (replicate 7 0 ++ (5 ∷ (replicate 7 0 ++ codes "de")))));
  };
  world = 0;
  sent = [];
}

abbrev request : GmMessage
request = record {
  m_header = take 208 GmHeader.new ++ (codes "0000000002" ++ replicate 10 b'0');
  m_msg_buffer = raw;
}

got_code : get_number codigo_retorno got.out.m_header ≡ gme_ok
unfolding GmHeader.new get_number
got_code = refl

got_lengths : (piece_len got.out ≡ 2) × (piece_total got.out ≡ 5)
unfolding le_word get_data
got_lengths = (refl, refl)

next_code_lem_example :
    IsPiece
      (piece_len got.out)
      (piece_total got.out)
      (if ltb (piece_len got.out) (get_long tam_max_mensaje request.m_header)
        then gme_ok
        else gme_more_data)
      (piece_text got.out)
      (next_code net raw [] [] request fresh got).out
    × ((piece_len got.out < get_long tam_max_mensaje request.m_header)
        ⊎ (((next_code net raw [] [] request fresh got).world ≡ got.world)
            × ((next_code net raw [] [] request fresh got).sent ≡ got.sent)))
next_code_lem_example =
    next_code_lem net raw [] [] request fresh got (omega arith) (rw got_lengths.0 (omega arith))
      (rw got_lengths.0 (omega arith)) (rw got_lengths.1 (omega arith)) length-fresh got_code
