-- ===== src/Tests/Messaging.antt =====
-- Runs of the header and of messages.
use gmonitor.Base.{
  ℕ, ◌+◌, ◌/◌, ◌%◌, ◌<◌, ◌≡◌, ◌≢◌, refl, true, List, ◌∷◌, some, arith, codes, length, drop, success,
  replicate, str_eq,
}
use gmonitor.Header as GmHeader
use gmonitor.Header.{
  Field, number, width, read, get_number, get_long, set_number, get_text, set_text, get_char,
  id_trans, crc, funcion, secuencia_respuesta, origen_consulta, header_len, tipo_mensaje,
  is_accepted, tam_mensaje, is_type,
}
use gmonitor.Header.Checks.{IsNumbered}
use gmonitor.Header.Access.{set_number_roundtrip}
use gmonitor.Header.Overflow.{set_number_overflow}
use gmonitor.Message.{GmMessage, set_response, get_data}
use gmonitor.Message.Values.{IsAnswer}
use gmonitor.Message.Transfer.{transferred, sent, set_msg-set_data}
use gmonitor.Message.Response.{set_response_accepted, set_response_fields}

abbrev fresh : List ℕ
unfolding GmHeader.new
fresh = GmHeader.new

fresh-IsNumbered : IsNumbered GmHeader.new
unfolding GmHeader.new GmHeader.is_accepted str_eq
fresh-IsNumbered = record { sized = refl; version = refl; digits = refl }

length-fresh : length GmHeader.new ≡ header_len
unfolding GmHeader.new
length-fresh = refl

id_trans-ne-crc : id_trans ≢ crc
id_trans-ne-crc e = cc

funcion-ne-crc : funcion ≢ crc
funcion-ne-crc e = cc

set_number_roundtrip_example :
    (get_number id_trans (set_number id_trans 42 GmHeader.new) ≡ 42)
    × (get_long id_trans (set_number id_trans 42 GmHeader.new) ≡ 42)
    × (read crc (set_number id_trans 42 GmHeader.new) ≡ read crc GmHeader.new)
set_number_roundtrip_example =
    set_number_roundtrip id_trans crc 42 GmHeader.new id_trans-ne-crc (omega arith) (omega arith)
      (omega arith) length-fresh

-- The number 100007 of an answer.
set_number_overflow_example :
    (get_number secuencia_respuesta (set_number secuencia_respuesta 100007 GmHeader.new)
      ≡ 100007 / 10)
    × (get_char origen_consulta (set_number secuencia_respuesta 100007 GmHeader.new)
        ≡ b'0' + 100007 % 10)
set_number_overflow_example =
    set_number_overflow secuencia_respuesta origen_consulta 100007 GmHeader.new refl (omega arith)
      (omega arith) (omega arith) (omega arith) (omega arith) length-fresh

-- A query of a client.
abbrev asked : List ℕ
asked = b'C' ∷ drop 1 GmHeader.new

abbrev query : GmMessage
query = record { m_header = asked; m_msg_buffer = asked }

abbrev empty : GmMessage
empty = record { m_header = GmHeader.new; m_msg_buffer = replicate 228 0 }

asked-IsNumbered : IsNumbered asked
unfolding GmHeader.new GmHeader.is_accepted str_eq
asked-IsNumbered = record { sized = refl; version = refl; digits = refl }

room : get_number secuencia_respuesta asked + 1 < 100000
unfolding GmHeader.new get_number
room = omega arith

asked_type : get_char tipo_mensaje asked ≡ b'C'
unfolding get_char
asked_type = refl

set_response_accepted_example : is_accepted (set_response empty (some query)).0.m_header ≡ true
set_response_accepted_example =
    set_response_accepted empty query fresh-IsNumbered asked-IsNumbered room (rw asked_type refl)

set_response_fields_example :
    IsAnswer GmHeader.new asked (set_response empty (some query)).0.m_header
set_response_fields_example = set_response_fields empty query fresh-IsNumbered asked-IsNumbered room

set_msg-set_data_example :
    let got = transferred (replicate 228 0) (codes "hi") query empty in
    (got.1 ≡ success)
    × (get_data got.0 ≡ codes "hi")
    × (got.0.m_header ≡ (sent (replicate 228 0) (codes "hi") query).m_header)
    × (get_long tam_mensaje got.0.m_header ≡ 2)
    × (is_accepted got.0.m_header ≡ true)
set_msg-set_data_example =
    set_msg-set_data (replicate 228 0) (codes "hi") query asked-IsNumbered (omega arith)
      (omega arith) (omega arith) empty (rw asked_type refl)
