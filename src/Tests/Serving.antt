-- ===== src/Tests/Serving.antt =====
-- Runs of the loop of a server.
use gmonitor.Base.{
  ℕ, ◌+◌, ◌<◌, ◌≤◌, ◌≡◌, refl, true, false, List, [], ◌∷◌, ◌++◌, some, arith, codes, length, take,
  drop, success, replicate, str_eq, inr, if◌then◌else◌, ◌&&◌,
}
use gmonitor.Header as GmHeader
use gmonitor.Header.{
  get_char, get_text, get_number, tipo_mensaje, funcion, header_len, secuencia_respuesta,
}
use gmonitor.Header.Checks.{IsNumbered}
use gmonitor.Message.{GmMessage, set_msg, get_data}
use gmonitor.Message.Values.{is_query}
use gmonitor.ServerLoop.{
  Methods, Loop, is_ok, is_one_way, command, begin_round, round, serve, handle, serve_function,
  call_main,
}
use gmonitor.ServerLoop.Counting.{served, is_function, round-sent}
use gmonitor.ServerLoop.Keeping.{round-IsEmpty}
use gmonitor.ServerLoop.Answers.{Answered, round_answers}

-- A server that counts its calls and answers with the text that it gets.
abbrev echo : Methods ℕ
echo = record {
  start = λ s. (success, s);
  begin_trans = λ c a s. (success, s);
  commit_trans = λ c a s. (success, s);
  rollback_trans = λ c a s. (success, s);
  log_level = λ n s. s;
  pre_main = λ c s. (success, s);
  main = λ c f t d s. (success, d, s + 1);
  pos_main = λ c s. (success, s);
}

abbrev empty : GmMessage
empty = record { m_header = GmHeader.new; m_msg_buffer = replicate 228 0 }

-- The outgoing message holds an earlier answer.
abbrev waiting : Loop ℕ
waiting = record {
  server = 0;
  in_message = empty;
  out_message = record empty { m_msg_buffer = replicate 228 0 ++ codes "secret" };
}

-- A query without function, with the text "hi" and without text.
abbrev header : List ℕ
header = b'C' ∷ drop 1 GmHeader.new

abbrev hi : List ℕ
hi = header ++ codes "hi"

abbrev raw : List ℕ
raw = replicate 228 0

hi_sized : header_len ≤ length hi
unfolding GmHeader.new
hi_sized = omega arith

header_sized : header_len ≤ length header
unfolding GmHeader.new
header_sized = omega arith

fresh-IsNumbered : IsNumbered GmHeader.new
unfolding GmHeader.new GmHeader.is_accepted str_eq
fresh-IsNumbered = record { sized = refl; version = refl; digits = refl }

hi-IsNumbered : IsNumbered (take header_len hi)
unfolding GmHeader.new GmHeader.is_accepted str_eq
hi-IsNumbered = record { sized = refl; version = refl; digits = refl }

hi_query : is_query (get_char tipo_mensaje (take header_len hi)) ≡ true
unfolding GmHeader.new get_char
hi_query = refl

hi_two_way : is_one_way (get_char tipo_mensaje (take header_len hi)) ≡ false
unfolding GmHeader.new get_char is_one_way
hi_two_way = refl

hi_room : get_number secuencia_respuesta (take header_len hi) + 1 < 100000
unfolding GmHeader.new get_number
hi_room = omega arith

served-hi :
    ((served echo false 0 raw 7 hi waiting hi_sized).rc ≡ success)
    × ((served echo false 0 raw 7 hi waiting hi_sized).body ≡ codes "hi")
unfolding GmHeader.new serve command str_eq get_text get_char begin_round handle serve_function
    is_one_way call_main get_data
served-hi = (refl, refl)

round_answers_example :
    (last : List ℕ) × ((round echo false 0 raw 7 (some hi) (length hi) waiting).1 ≡ last ∷ [])
    × Answered
        (take header_len hi)
        (served echo false 0 raw 7 hi waiting hi_sized).body
        7
        (set_msg empty (some last) (length last))
round_answers_example =
    round_answers echo false 0 raw 7 hi waiting hi_sized empty hi-IsNumbered fresh-IsNumbered
      hi_query hi_two_way hi_room (rw served-hi.0 refl) (rw served-hi.1 (omega arith))
      (rw served-hi.1 (omega arith)) (omega arith) (omega arith)

header_two_way : is_one_way (get_char tipo_mensaje (take header_len header)) ≡ false
unfolding GmHeader.new get_char is_one_way
header_two_way = refl

served-header : (served echo false 0 raw 7 header waiting header_sized).body ≡ []
unfolding GmHeader.new serve command str_eq get_text get_char begin_round handle serve_function
    is_one_way call_main get_data
served-header = refl

length-fresh : length GmHeader.new ≡ header_len
unfolding GmHeader.new
length-fresh = refl

-- The answer to the empty query holds the text "secret" of the earlier answer.
round-IsEmpty_example :
    (last : List ℕ) × ((round echo false 0 raw 7 (some header) (length header) waiting).1
      ≡ last ∷ [])
    × (drop header_len last ≡ codes "secret")
unfolding get_data
round-IsEmpty_example =
    round-IsEmpty echo false 0 raw 7 header waiting header_sized length-fresh header_two_way
      (inr served-header)

round-sent_example : length (round echo false 0 raw 7 (some hi) (length hi) waiting).1 ≡ (
    if is_one_way (get_char tipo_mensaje (take header_len hi))
    then (if is_ok (begin_round echo false 0).0
          && is_function (command (get_text funcion (take header_len hi)))
        then 1
        else 0)
    else 1)
round-sent_example = round-sent echo false 0 raw 7 hi waiting hi_sized
