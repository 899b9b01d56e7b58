-- ===== src/Message/Response.antt =====
-- SetResponse: the header of an answer.
use gmonitor.Base.{ℕ, ◌+◌, ◌<◌, ◌≡◌, ap, refl, ◌∙◌, arith, some, true, get_elem?, c_str}
use gmonitor.Header.{
  Field, width, read, digit_fields, get_char, get_text, get_number, get_block, get_time_stamp,
  get_long, time_stamp, indice_mensaje, tam_max_mensaje, is_accepted, tipo_respuesta, key,
  tipo_mensaje, id_usuario, id_cliente, id_grupo, funcion, id_trans, id_cola, id_more_data,
  secuencia_consulta, secuencia_respuesta, origen_consulta, origen_respuesta, id_origen, id_router,
  id_destino, codigo_retorno,
}
use gmonitor.GmString.{fixed, pow10}
use gmonitor.Header.Checks.{IsNumbered, get_number-lt, get_long-lt, IsNumbered-is_accepted}
use gmonitor.Message.{GmMessage, response_settings, set_response}
use gmonitor.Message.Settings.{read-call_all, assigned, call_all-IsNumbered}
use gmonitor.Message.Values.{
  response-Fits, response-Keeps, char_lem, number_lem, text_lem, tipo_respuesta-is_type, is_query,
  IsAnswer, long_lem, get_time_stamp-lt,
}

module _ (m q : GmMessage) (n : IsNumbered m.m_header) (k : IsNumbered q.m_header)
    (room : get_number secuencia_respuesta q.m_header + 1 < 100000) where
  read-set_response :
      (f : Field)
      → read f (set_response m (some q)).0.m_header
        ≡ assigned f (response_settings q.m_header) (read f m.m_header)
  unfolding set_response
  read-set_response f =
      read-call_all f (response_settings q.m_header) m.m_header (response-Fits q.m_header k room)
        n.sized

  pub set_response-IsNumbered : IsNumbered (set_response m (some q)).0.m_header
  unfolding set_response
  set_response-IsNumbered =
      call_all-IsNumbered (response_settings q.m_header) m.m_header
        (response-Fits q.m_header k room) (response-Keeps q.m_header) n

  -- The type and the origins are those of the message, the type in its form for answers.
  chars_set_response :
      (get_char tipo_mensaje (set_response m (some q)).0.m_header
        ≡ tipo_respuesta (get_char tipo_mensaje q.m_header))
      × (get_char origen_consulta (set_response m (some q)).0.m_header
          ≡ get_char origen_consulta q.m_header)
      × (get_char origen_respuesta (set_response m (some q)).0.m_header
          ≡ get_char origen_respuesta q.m_header)
  unfolding response_settings
  chars_set_response = (
    char_lem tipo_mensaje (set_response m (some q)).0.m_header
        (tipo_respuesta (get_char tipo_mensaje q.m_header)) (read-set_response tipo_mensaje),
    char_lem origen_consulta (set_response m (some q)).0.m_header
        (get_char origen_consulta q.m_header) (read-set_response origen_consulta),
    char_lem origen_respuesta (set_response m (some q)).0.m_header
        (get_char origen_respuesta q.m_header) (read-set_response origen_respuesta),
  )

  -- The answer to a query whose header is accepted is accepted too: if the header of the message
  -- that becomes the answer has digits where they are checked, and the number of the answer has
  -- room for one more, SetHeader takes the header that SetResponse leaves.
  pub set_response_accepted :
      is_query (get_char tipo_mensaje q.m_header) ≡ true
      → is_accepted (set_response m (some q)).0.m_header ≡ true
  set_response_accepted t =
      IsNumbered-is_accepted (set_response m (some q)).0.m_header
        (rw chars_set_response.0 (tipo_respuesta-is_type (get_char tipo_mensaje q.m_header) t))
        set_response-IsNumbered

  texts_set_response :
      (get_text id_usuario (set_response m (some q)).0.m_header ≡ get_text id_usuario q.m_header)
      × (get_text id_cliente (set_response m (some q)).0.m_header ≡ get_text id_cliente q.m_header)
      × (get_text id_grupo (set_response m (some q)).0.m_header ≡ get_text id_grupo q.m_header)
      × (get_text funcion (set_response m (some q)).0.m_header ≡ get_text funcion q.m_header)
  unfolding response_settings
  texts_set_response = (
    text_lem id_usuario (set_response m (some q)).0.m_header q.m_header
        (read-set_response id_usuario),
    text_lem id_cliente (set_response m (some q)).0.m_header q.m_header
        (read-set_response id_cliente),
    text_lem id_grupo (set_response m (some q)).0.m_header q.m_header (read-set_response id_grupo),
    text_lem funcion (set_response m (some q)).0.m_header q.m_header (read-set_response funcion),
  )

  number_copied :
      (f : Field) (i : ℕ)
      → 0 < width f
      → get_elem? digit_fields i ≡ some f
      → assigned f (response_settings q.m_header) (read f m.m_header)
        ≡ fixed (width f) (get_number f q.m_header)
      → get_number f (set_response m (some q)).0.m_header ≡ get_number f q.m_header
  number_copied f i w e a =
      let (fits, bound) = get_number-lt f q.m_header i w k e in
      number_lem f (set_response m (some q)).0.m_header (get_number f q.m_header) w fits bound
        (read-set_response f ∙ a)

  -- The numbers of a conversation are those of the message.
  numbers_set_response :
      (get_number id_trans (set_response m (some q)).0.m_header ≡ get_number id_trans q.m_header)
      × (get_number id_cola (set_response m (some q)).0.m_header ≡ get_number id_cola q.m_header)
      × (get_number id_more_data (set_response m (some q)).0.m_header
          ≡ get_number id_more_data q.m_header)
      × (get_number secuencia_consulta (set_response m (some q)).0.m_header
          ≡ get_number secuencia_consulta q.m_header)
      × (get_number id_origen (set_response m (some q)).0.m_header
          ≡ get_number id_origen q.m_header)
      × (get_number id_router (set_response m (some q)).0.m_header
          ≡ get_number id_router q.m_header)
      × (get_number id_destino (set_response m (some q)).0.m_header
          ≡ get_number id_destino q.m_header)
  unfolding response_settings
  numbers_set_response = (
    number_copied id_trans 0 (omega arith) refl refl,
    number_copied id_cola 1 (omega arith) refl refl,
    number_copied id_more_data 2 (omega arith) refl refl,
    number_copied secuencia_consulta 3 (omega arith) refl refl,
    number_copied id_origen 5 (omega arith) refl refl,
    number_copied id_router 6 (omega arith) refl refl,
    number_copied id_destino 7 (omega arith) refl refl,
  )

  long_copied :
      (f : Field) (n : ℕ)
      → 0 < width f
      → n < pow10 (width f)
      → n < 18446744073709551616
      → assigned f (response_settings q.m_header) (read f m.m_header) ≡ fixed (width f) n
      → get_long f (set_response m (some q)).0.m_header ≡ n
  long_copied f n w fits bound a =
      long_lem f (set_response m (some q)).0.m_header n w fits bound (read-set_response f ∙ a)

  -- The time and the lengths are those of the message.
  times_set_response :
      (get_time_stamp (set_response m (some q)).0.m_header ≡ get_time_stamp q.m_header)
      × (get_long indice_mensaje (set_response m (some q)).0.m_header
          ≡ get_long indice_mensaje q.m_header)
      × (get_long tam_max_mensaje (set_response m (some q)).0.m_header
          ≡ get_long tam_max_mensaje q.m_header)
  unfolding response_settings get_time_stamp
  times_set_response =
      let t = get_time_stamp-lt q.m_header in
      let i = get_long-lt indice_mensaje q.m_header 10 (omega arith) k refl in
      let l = get_long-lt tam_max_mensaje q.m_header 11 (omega arith) k refl in
      (
        omega (
          arith,
          long_copied time_stamp (get_time_stamp q.m_header) (omega arith) (omega (arith, t))
              (omega (arith, t)) refl,
        ),
        long_copied indice_mensaje (get_long indice_mensaje q.m_header) (omega arith) i.0
            (omega (arith, i.0)) refl,
        long_copied tam_max_mensaje (get_long tam_max_mensaje q.m_header) (omega arith) l.0
            (omega (arith, l.0)) refl,
      )

  -- The answer has the next number, the code GME_OK and the key that the message had before.
  answer_set_response :
      (get_number secuencia_respuesta (set_response m (some q)).0.m_header
        ≡ get_number secuencia_respuesta q.m_header + 1)
      × (get_number codigo_retorno (set_response m (some q)).0.m_header ≡ 0)
      × (get_block key (set_response m (some q)).0.m_header ≡ get_block key m.m_header)
  unfolding response_settings get_block
  answer_set_response = (
    number_lem secuencia_respuesta (set_response m (some q)).0.m_header
        (get_number secuencia_respuesta q.m_header + 1) (omega arith) room (omega arith)
        (read-set_response secuencia_respuesta ∙ ap (fixed 5) (omega arith)),
    number_lem codigo_retorno (set_response m (some q)).0.m_header 0 (omega arith) (omega arith)
        (omega arith) (read-set_response codigo_retorno),
    ap c_str (read-set_response key),
  )

  -- The header that SetResponse leaves holds, read by the accessors, the answer's form of the type;
  -- the texts, the origins, TimeStamp, IndiceMensaje, TamMaxMensaje and the numbers of the
  -- transaction, the queue, the buffer, the query, the sender, the router and the receiver as the
  -- query has them; the next SecuenciaRespuesta and the code GME_OK; and the key that the message
  -- had before. Both headers have digits and the version where they are checked, and
  -- SecuenciaRespuesta of the query is below 99999.
  pub set_response_fields : IsAnswer m.m_header q.m_header (set_response m (some q)).0.m_header
  set_response_fields = record {
    tipo = chars_set_response.0;
    origenes = (chars_set_response.1, chars_set_response.2);
    texts = texts_set_response;
    numbers = numbers_set_response;
    times = times_set_response;
    answer = answer_set_response;
  }
