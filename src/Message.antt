-- ===== src/Message.antt =====
-- CGMessage (system/shared/gmessage.cc), a CGMHeader with a block that holds the message as it is
-- sent: the place of the header and the text behind it. The length of the block is m_msg_len.
-- `raw` stands for the fresh memory at the place of the header, which new[] does not set.
pub mod Transfer
pub mod Settings
pub mod Values
pub mod Response
use gmonitor.Base.{
  ℕ, ◌+◌, ◌-◌, ◌%◌, ◌||◌, List, [], ◌∷◌, ◌++◌, Option, none, some, length, take, drop, ◌==◌, ltb,
  if◌then◌else◌, ℤ, success, failure, codes,
}
use gmonitor.Buffer.{GmBuffer}
use gmonitor.Header as GmHeader
use gmonitor.Header.{
  Field, width, write, header_len, set_header, set_char, set_text, set_number, get_char, get_text,
  get_number, get_long, get_time_stamp, tipo_respuesta, tipo_mensaje, id_usuario, id_cliente,
  id_grupo, funcion, id_trans, id_cola, id_more_data, secuencia_consulta, secuencia_respuesta,
  origen_consulta, origen_respuesta, id_origen, id_router, id_destino, time_stamp, codigo_retorno,
  crc, tam_mensaje, indice_mensaje, tam_max_mensaje,
}

pub record GmMessage : Type 0 where
  pub m_header : List ℕ
  pub m_msg_buffer : List ℕ

unfoldable pub new : List ℕ → GmMessage
new raw = record { m_header = GmHeader.new; m_msg_buffer = take header_len raw }

-- GetMsg and GetMsgLen: the block with the header at its place.
unfoldable pub get_msg : GmMessage → List ℕ × GmMessage
get_msg m =
    let bytes = m.m_header ++ drop header_len m.m_msg_buffer in
    (bytes, record m { m_msg_buffer = bytes })

abbrev pub get_msg_len : GmMessage → ℕ
get_msg_len m = length m.m_msg_buffer

-- SetMsg(const void*, unsigned long); the answer of SetHeader is not looked at.
unfoldable pub set_msg : GmMessage → Option (List ℕ) → ℕ → GmMessage × ℤ
unfolding set_header
set_msg m none len = (m, failure)
set_msg m (some msg) len = if len == 0 || ltb len header_len then (m, failure) else (
  record {
    m_header = (set_header (some (take len msg)) m.m_header).0;
    m_msg_buffer = take len msg;
  },
  success,
)

-- SetMsg(CGMBuffer*)
unfoldable pub set_msg_buffer : GmMessage → Option GmBuffer → GmMessage × ℤ
unfolding set_msg
set_msg_buffer m none = (m, failure)
set_msg_buffer m (some b) = set_msg m b.m_buffer b.m_len

-- SetData(const void*, unsigned long)
unfoldable pub set_data : List ℕ → GmMessage → Option (List ℕ) → ℕ → GmMessage × ℤ
unfolding set_text set_number
set_data raw m none len = (m, failure)
set_data raw m (some msg) len = if len == 0 then (m, failure) else (
  record {
    m_header =
        set_number tam_mensaje len (set_text crc (some (codes "*** NULL CRC ***")) m.m_header).0;
    m_msg_buffer = take header_len raw ++ take len msg;
  },
  success,
)

-- SetData(CGMBuffer*)
unfoldable pub set_data_buffer : List ℕ → GmMessage → Option GmBuffer → GmMessage × ℤ
unfolding set_data
set_data_buffer raw m none = (m, failure)
set_data_buffer raw m (some b) = set_data raw m b.m_buffer b.m_len

-- GetData and GetDataLen
unfoldable pub get_data : GmMessage → List ℕ
get_data m = drop header_len m.m_msg_buffer

abbrev pub get_data_len : GmMessage → ℕ
get_data_len m = get_msg_len m - header_len

-- A call of a setter of the header.
pub data Setting : Type 0 where
  of_char : Field → ℕ → Setting
  of_text : Field → List ℕ → Setting
  of_number : Field → ℕ → Setting

unfoldable pub call : Setting → List ℕ → List ℕ
unfolding set_char set_text set_number
call (of_char f c) h = set_char f c h
call (of_text f s) h = (set_text f (some s) h).0
call (of_number f n) h = set_number f n h

unfoldable pub call_all : List Setting → List ℕ → List ℕ
unfolding call
call_all [] h = h
call_all (s ∷ ss) h = call_all ss (call s h)

-- The setters that SetResponse calls one after the other, with the values of the other message's
-- header `q`.
unfoldable pub response_settings : List ℕ → List Setting
response_settings q =
    of_char tipo_mensaje (tipo_respuesta (get_char tipo_mensaje q))
    ∷ of_text id_usuario (get_text id_usuario q)
    ∷ of_text id_cliente (get_text id_cliente q)
    ∷ of_text id_grupo (get_text id_grupo q)
    ∷ of_text funcion (get_text funcion q)
    ∷ of_number id_trans (get_number id_trans q)
    ∷ of_number id_cola (get_number id_cola q)
    ∷ of_number id_more_data (get_number id_more_data q)
    ∷ of_number secuencia_consulta (get_number secuencia_consulta q)
    ∷ of_number secuencia_respuesta ((get_number secuencia_respuesta q + 1) % 4294967296)
    ∷ of_char origen_consulta (get_char origen_consulta q)
    ∷ of_char origen_respuesta (get_char origen_respuesta q)
    ∷ of_number id_origen (get_number id_origen q)
    ∷ of_number id_router (get_number id_router q)
    ∷ of_number id_destino (get_number id_destino q)
    ∷ of_number time_stamp (get_time_stamp q)
    ∷ of_number indice_mensaje (get_long indice_mensaje q)
    ∷ of_number tam_max_mensaje (get_long tam_max_mensaje q)
    ∷ of_number codigo_retorno 0
    ∷ []

-- SetResponse, for another message than this one.
unfoldable pub set_response : GmMessage → Option GmMessage → GmMessage × ℤ
set_response m none = (m, failure)
set_response m (some q) =
    (record m { m_header = call_all (response_settings q.m_header) m.m_header }, success)
