-- ===== src/Paging.antt =====
-- MsgRouter (system/router/gmt.cc): what the process does that is forked for a message, with the
-- pieces of long interactive answers, which the buffer server keeps (ST_SBUFFER,
-- system/shared/svcstru.h). The measurement of the load and the log are left out; `.log-level` is
-- passed to MsgQuery like any other function.
pub mod Pieces
use gmonitor.Base.{
  ℕ, zero, suc, ◌+◌, ◌/◌, ◌%◌, Bool, true, false, List, [], ◌∷◌, ◌++◌, Option, none, some, ◌==◌,
  ltb, if◌then◌else◌, ℤ, pos, negsuc, length, drop, codes, replicate,
}
use gmonitor.Buffer.{GmBuffer}
use gmonitor.Service.{type_cr, type_int, type_not, gme_ok, gme_more_data, word, le_word}
use gmonitor.Header.{
  header_len, get_char, get_number, get_long, set_char, set_text, set_number, tipo_mensaje, funcion,
  id_router, id_more_data, secuencia_consulta, codigo_retorno, origen_respuesta, id_destino,
  indice_mensaje, tam_max_mensaje, tam_tot_mensaje,
}
use gmonitor.Message.{
  GmMessage, new, get_msg, set_msg, set_msg_buffer, set_data, get_data, get_data_len, set_response,
}
use gmonitor.Tables.{Server, Funcion}
use gmonitor.Routing.{Net, Routed, msg_query}

-- A little-endian word of `n` bytes.
unfoldable pub le_bytes : ℕ → ℕ → List ℕ
le_bytes zero v = []
le_bytes (suc n) v = v % 256 ∷ le_bytes n (v / 256)

abbrev pub zeros : ℕ → List ℕ
zeros n = replicate n 0

-- The requests, in memory that calloc has cleared: sizeof(ST_SBUFFER) is 48.
unfoldable pub new_buffer_request : List ℕ → List ℕ
unfolding le_bytes
new_buffer_request text = zeros 8 ++ (le_bytes 8 (length text) ++ (text ++ zeros 32))

unfoldable pub get_buffer_request : ℕ → ℕ → ℕ → List ℕ
unfolding le_bytes
get_buffer_request id offset maxlen =
    le_bytes 4 id ++ (zeros 4 ++ (le_bytes 8 offset ++ (le_bytes 8 maxlen ++ zeros 24)))

unfoldable pub del_buffer_request : ℕ → List ℕ
unfolding le_bytes
del_buffer_request id = le_bytes 4 id ++ zeros 44

-- The answers: new_buffer.id, and len, totlen and data of get_buffer.
abbrev pub new_id_of : GmMessage → ℕ
new_id_of m = word 4 0 (get_data m)

abbrev pub piece_len : GmMessage → ℕ
piece_len m = word 8 24 (get_data m)

abbrev pub piece_total : GmMessage → ℕ
piece_total m = word 8 32 (get_data m)

abbrev pub piece_text : GmMessage → List ℕ
piece_text m = drop 40 (get_data m)

-- A setter of the header.
abbrev pub with_header : (List ℕ → List ℕ) → GmMessage → GmMessage
with_header f m = record { m_header = f m.m_header; m_msg_buffer = m.m_msg_buffer }

-- pin2msg: the header of the answer with another function and type.
unfoldable pub service_message : List ℕ → List ℕ → ℕ → List ℕ → GmMessage → GmMessage → GmMessage
service_message raw name tipo request out pin2 =
    let m1 = (set_msg pin2 (some (get_msg out).0) header_len).0 in
    let m2 = with_header (λ h. (set_text funcion (some name) h).0) m1 in
    let m3 = with_header (set_char tipo_mensaje tipo) m2 in
    let m4 = with_header (set_number secuencia_consulta 0) m3 in
    (set_data raw m4 (some request) (length request)).0

module _ {W : Type 0} (net : Net W) (raw : List ℕ) (fs : List Funcion) (servers : List Server) where
  -- The answer that has been cut, by the code of `.new_buffer`.
  unfoldable pub first_code : GmMessage → GmMessage → GmMessage
  first_code out kept =
      let rc = get_number codigo_retorno kept.m_header in
      if rc == gme_ok
      then with_header (set_number codigo_retorno gme_more_data)
          (with_header (set_number id_more_data (new_id_of kept)) out)
      else with_header (set_number codigo_retorno rc)
          (with_header (set_number tam_tot_mensaje 0) (set_data raw out none 0).0)

  -- The first request of an interactive message.
  unfoldable pub first_piece : GmMessage → GmMessage → W → Routed W
  unfolding first_code
  first_piece pin pout w =
      let r = msg_query net raw fs servers pin pout w in
      let max_len = get_long tam_max_mensaje pin.m_header in
      let text = get_data r.out in
      let noted = with_header (set_number tam_tot_mensaje (get_data_len r.out)) r.out in
      let cut = (set_data raw noted (some text) max_len).0 in
      let pin2 =
        service_message raw (codes ".new_buffer") type_cr (new_buffer_request text) cut (new raw) in
      let kept = msg_query net raw fs servers pin2 (new raw) r.world in
      if ltb max_len (get_data_len r.out)
      then record { out = first_code cut kept.out; world = kept.world; sent = r.sent ++ kept.sent }
      else r

  -- A further request, behind the answer of `.get_buffer`.
  unfoldable pub next_code : GmMessage → GmMessage → Routed W → Routed W
  next_code pin out got =
      let rc = get_number codigo_retorno got.out.m_header in
      let filled = (set_data raw out (some (piece_text got.out)) (piece_len got.out)).0 in
      let noted = with_header (set_number tam_tot_mensaje (piece_total got.out)) filled in
      let pin2 =
        service_message raw (codes ".del_buffer") type_not
          (del_buffer_request (get_number id_more_data pin.m_header)) noted (new raw) in
      let gone = msg_query net raw fs servers pin2 got.out got.world in
      if rc == gme_ok
      then if ltb (piece_len got.out) (get_long tam_max_mensaje pin.m_header)
        then record {
          out = with_header (set_number codigo_retorno gme_ok) noted;
          world = gone.world;
          sent = got.sent ++ gone.sent;
        }
        else record {
          out = with_header (set_number codigo_retorno gme_more_data) noted;
          world = got.world;
          sent = got.sent;
        }
      else record {
        out = with_header (set_number codigo_retorno rc) out;
        world = got.world;
        sent = got.sent;
      }

  unfoldable pub next_piece : GmMessage → GmMessage → W → Routed W
  next_piece pin pout w =
      let answer = (set_response pout (some pin)).0 in
      let out =
        with_header (set_number id_destino net.pid)
          (with_header (set_char origen_respuesta b'R') answer) in
      let request =
        get_buffer_request (get_number id_more_data pin.m_header)
          (get_long indice_mensaje pin.m_header) (get_long tam_max_mensaje pin.m_header) in
      let pin2 = service_message raw (codes ".get_buffer") type_cr request out (new raw) in
      next_code pin out (msg_query net raw fs servers pin2 (new raw) w)

  unfoldable pub treat : GmMessage → GmMessage → W → Routed W
  treat pin pout w =
      if get_char tipo_mensaje pin.m_header == type_int
      then if get_number id_more_data pin.m_header == 0
        then first_piece pin pout w
        else next_piece pin pout w
      else msg_query net raw fs servers pin pout w

  -- The process for one message: what it sends back to the sender, if it takes the message.
  unfoldable pub route : GmBuffer → W → Option (List ℕ × Routed W)
  route buffer w =
      let taken = set_msg_buffer (new raw) (some buffer) in
      let pin = with_header (set_number id_router net.pid) taken.0 in
      let r = treat pin (new raw) w in
      elim taken.1 [ negsuc _ ↦ none | pos _ ↦ some ((get_msg r.out).0, r) ]
