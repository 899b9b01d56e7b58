-- ===== src/ServerLoop/Answers.antt =====
-- The answer to a query that the server has dealt with, as its receiver takes it.
use gmonitor.Base.{
  ℕ, ◌+◌, ◌≤◌, ◌<◌, ◌≡◌, refl, ap, sym, List, [], ◌∷◌, ◌++◌, arith, length, Bool, true, false, some,
  ℤ, pos, negsuc, success, take, drop, ◌∙◌, All, length-take, subst,
}
use gmonitor.GmString.{to_u32, subint, fixed}
use gmonitor.Header.{
  Field, header_len, width, read, get_char, get_number, tipo_mensaje, codigo_retorno, id_destino,
  id_trans, secuencia_respuesta, is_accepted, is_type,
}
use gmonitor.Header.Checks.{IsNumbered, IsNumbered-is_accepted}
use gmonitor.Message.{GmMessage, set_msg, get_data, set_response, call_all}
use gmonitor.Message.Settings.{Fits, read-call_all, assigned, call_all-IsNumbered}
use gmonitor.Message.Transfer.{
  settings, set_data_lem, settings-Fits, header-IsNumbered, set_msg-whole, message, get_char_same,
  drop-append,
}
use gmonitor.Message.Values.{is_query, number_lem, tipo_respuesta-is_type}
use gmonitor.Message.Response.{set_response-IsNumbered, set_response_fields}
use gmonitor.ServerLoop.{Methods, Loop, Outcome, is_ok, is_one_way, round, answer}
use gmonitor.ServerLoop.Counting.{taken, served, serve-out, round_lem}
use gmonitor.ServerLoop.Keeping.{filled, last_settings, answer_lem, finish_answer}

-- What the receiver has taken: the answer to the query with the header `q`.
pub record Answered (q body : List ℕ) (pid : ℕ) (got : GmMessage × ℤ) : Type 0 where
  pub taken_over : got.1 ≡ success
  pub text : get_data got.0 ≡ body
  pub accepted : is_accepted got.0.m_header ≡ true
  pub code : get_number codigo_retorno got.0.m_header ≡ 0
  pub trans : get_number id_trans got.0.m_header ≡ get_number id_trans q
  pub sequence :
      get_number secuencia_respuesta got.0.m_header ≡ get_number secuencia_respuesta q + 1
  pub destino : get_number id_destino got.0.m_header ≡ pid

get_number_same : (f : Field) (h k : List ℕ) → read f h ≡ read f k → get_number f h ≡ get_number f k
unfolding get_number
get_number_same f h k e = ap (λ bs. subint bs (width f)) e

to_u32-is_ok : (rc : ℤ) → is_ok rc ≡ true → to_u32 rc ≡ 0
to_u32-is_ok (pos n) e = ground arith
to_u32-is_ok (negsuc n) e = cc

module _ {S : Type 0} (raw : List ℕ) (pid : ℕ) (o : Outcome S) (n : IsNumbered o.out.m_header)
    (fine : is_ok o.rc ≡ true) (full : 0 < length o.body) (short : length o.body < 10000000000)
    (place : header_len ≤ length raw) (pid_range : pid < 4294967296) where
  -- The header with the text, and the header that is sent.
  filled_header : List ℕ
  filled_header = call_all (settings raw o.body o.out n full short place) o.out.m_header

  pub last_header : List ℕ
  last_header = call_all (last_settings o.rc pid) filled_header

  last_settings-Fits : All Fits (last_settings o.rc pid)
  last_settings-Fits = (rw (to_u32-is_ok o.rc fine) (omega arith), (refl, (omega arith, tt)))

  filled-ok : filled raw o ≡ message filled_header (take header_len raw) o.body
  unfolding filled_header
  filled-ok =
      rw fine (ap (λ (x : GmMessage × ℤ). x.0) (set_data_lem raw o.body o.out n full short place))

  pub last-IsNumbered : IsNumbered last_header
  unfolding last_header filled_header
  last-IsNumbered =
      call_all-IsNumbered (last_settings o.rc pid) filled_header last_settings-Fits
        (refl, (refl, (refl, tt))) (header-IsNumbered raw o.body o.out n full short place)

  pub read-last_header :
      (f : Field)
      → read f last_header
        ≡ assigned f
            (last_settings o.rc pid)
            (assigned f (settings raw o.body o.out n full short place) (read f o.out.m_header))
  unfolding last_header filled_header
  read-last_header f =
      read-call_all f (last_settings o.rc pid) filled_header last_settings-Fits
        (header-IsNumbered raw o.body o.out n full short place).sized
      ∙ ap (assigned f (last_settings o.rc pid)) (
          read-call_all f (settings raw o.body o.out n full short place) o.out.m_header
            (settings-Fits raw o.body o.out n full short place) n.sized)

  pub answer-bytes : (answer raw pid o).0 ≡ last_header ++ o.body
  unfolding last_header
  answer-bytes =
      answer_lem raw pid o
      ∙ ap
          (λ (x : GmMessage).
            call_all (last_settings o.rc pid) x.m_header ++ drop header_len x.m_msg_buffer)
          filled-ok
      ∙ ap (◌++◌ last_header) (
          drop-append (take header_len raw) o.body header_len
            (omega (arith, length-take header_len raw)))

  -- The receiver of the answer.
  received :
      (r : GmMessage)
      → set_msg r (some (answer raw pid o).0) (length (answer raw pid o).0)
        ≡ (message last_header last_header o.body, success)
  received r = rw answer-bytes (set_msg-whole last_header o.body r last-IsNumbered.sized)

  last_tipo : get_char tipo_mensaje last_header ≡ get_char tipo_mensaje o.out.m_header
  unfolding settings
  last_tipo = get_char_same tipo_mensaje last_header o.out.m_header (read-last_header tipo_mensaje)

  last_numbers :
      (get_number codigo_retorno last_header ≡ 0)
      × (get_number id_trans last_header ≡ get_number id_trans o.out.m_header)
      × (get_number secuencia_respuesta last_header ≡ get_number secuencia_respuesta o.out.m_header)
      × (get_number id_destino last_header ≡ pid)
  unfolding settings
  last_numbers = (
    number_lem codigo_retorno last_header 0 (omega arith) (omega arith) (omega arith)
        (read-last_header codigo_retorno ∙ ap (fixed 5) (to_u32-is_ok o.rc fine)),
    get_number_same id_trans last_header o.out.m_header (read-last_header id_trans),
    get_number_same secuencia_respuesta last_header o.out.m_header
        (read-last_header secuencia_respuesta),
    number_lem id_destino last_header pid (omega arith) (omega arith) pid_range
        (read-last_header id_destino),
  )

  pub answered :
      (q : List ℕ) (r : GmMessage)
      → is_type (get_char tipo_mensaje o.out.m_header) ≡ true
      → get_number id_trans o.out.m_header ≡ get_number id_trans q
      → get_number secuencia_respuesta o.out.m_header ≡ get_number secuencia_respuesta q + 1
      → Answered q o.body pid (set_msg r (some (answer raw pid o).0) (length (answer raw pid o).0))
  unfolding get_data
  answered q r t trans sequence = subst (Answered q o.body pid) (sym (received r)) (record {
    taken_over = refl;
    text = drop-append last_header o.body header_len (sym last-IsNumbered.sized);
    accepted = IsNumbered-is_accepted last_header (rw last_tipo t) last-IsNumbered;
    code = last_numbers.0;
    trans = last_numbers.1 ∙ trans;
    sequence = last_numbers.2 ∙ sequence;
    destino = last_numbers.3;
  })

module _ {S : Type 0} (m : Methods S) (is_offline : Bool) (behind : ℕ) (raw : List ℕ) (pid : ℕ)
    (bytes : List ℕ) (l : Loop S) (sized : header_len ≤ length bytes) where
  -- A query that wants an answer, and that the server ends with the code 0 and a text, is answered
  -- with one message. Whoever takes it by SetMsg has the server's text, a header that SetHeader's
  -- checks accept, the code 0, the query's transaction, the next number of answer and the identity
  -- of the server's process. The headers of the query and of the outgoing message have digits and
  -- the version where they are checked, SecuenciaRespuesta of the query is below 99999, the text is
  -- shorter than 10^10 bytes, and the server's process number is an unsigned int.
  pub round_answers :
      (r : GmMessage)
      → IsNumbered (take header_len bytes)
      → IsNumbered l.out_message.m_header
      → is_query (get_char tipo_mensaje (take header_len bytes)) ≡ true
      → is_one_way (get_char tipo_mensaje (take header_len bytes)) ≡ false
      → get_number secuencia_respuesta (take header_len bytes) + 1 < 100000
      → is_ok (served m is_offline behind raw pid bytes l sized).rc ≡ true
      → 0 < length (served m is_offline behind raw pid bytes l sized).body
      → length (served m is_offline behind raw pid bytes l sized).body < 10000000000
      → header_len ≤ length raw
      → pid < 4294967296
      → (last : List ℕ) × ((round m is_offline behind raw pid (some bytes) (length bytes) l).1
          ≡ last ∷ [])
        × Answered
            (take header_len bytes)
            (served m is_offline behind raw pid bytes l sized).body
            pid
            (set_msg r (some last) (length last))
  round_answers r q out t w room fine full short place range =
      let o = served m is_offline behind raw pid bytes l sized in
      let fields = set_response_fields l.out_message (taken bytes) out q room in
      let (same_out, none_sent) =
        serve-out m is_offline behind raw (taken bytes)
          (set_response l.out_message (some (taken bytes))).0 l.server w in
      let header = ap (λ (x : GmMessage). x.m_header) (sym same_out) in
      let numbered =
        subst IsNumbered header (set_response-IsNumbered l.out_message (taken bytes) out q room) in
      (
        (answer raw pid o).0,
        ap (λ (x : Loop S × List (List ℕ)). x.1)
              (round_lem m is_offline behind raw pid bytes l sized)
            ∙ finish_answer raw pid (taken bytes) o w none_sent,
        answered raw pid o numbered fine full short place range (take header_len bytes) r
            (rw (← header, fields.tipo)
              (tipo_respuesta-is_type (get_char tipo_mensaje (take header_len bytes)) t))
            (rw (← header) fields.numbers.0) (rw (← header) fields.answer.0),
      )
