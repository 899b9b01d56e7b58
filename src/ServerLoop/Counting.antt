-- ===== src/ServerLoop/Counting.antt =====
-- The number of answers to a message.
use gmonitor.Base.{
  ℕ, ◌+◌, ◌≤◌, ◌≡◌, refl, List, [], ◌∷◌, arith, length, Bool, true, false, ◌&&◌, some,
  if◌then◌else◌, success, Bool-cases, inl, inr, take, take_all, ltb, length-append, ◌==◌, ◌||◌,
}
use gmonitor.Header.{get_char, get_text, tipo_mensaje, funcion, header_len, set_header}
use gmonitor.Message.{GmMessage, set_msg, set_response, get_data}
use gmonitor.ServerLoop.{
  Methods, Loop, Outcome, Command, begin, commit, rollback, level, no_command, is_ok, is_one_way,
  command, handle, dispatch, argument, serve_function, serve, begin_round, round, finish, answer,
}

abbrev pub is_function : Command → Bool
is_function no_command = true
is_function _ = false

module _ {S : Type 0} (m : Methods S) where
  dispatch-sent :
      (c : Command) (arg : ℕ) (raw : List ℕ) (input out : GmMessage) (s : S)
      → length (dispatch c m arg raw input out s).sent
        ≡ (if is_function c && is_one_way (get_char tipo_mensaje input.m_header) then 1 else 0)
  unfolding dispatch serve_function
  dispatch-sent begin arg raw input out s = refl
  dispatch-sent commit arg raw input out s = refl
  dispatch-sent rollback arg raw input out s = refl
  dispatch-sent level arg raw input out s = refl
  dispatch-sent no_command arg raw input out s =
      elim (Bool-cases (is_one_way (get_char tipo_mensaje input.m_header))) [
        | inl e ↦ rw (e, if◌then◌else◌) refl
        | inr e ↦ rw (e, if◌then◌else◌) refl
      ]

  -- A message that wants an answer: the inner loop sends nothing.
  dispatch-out :
      (c : Command) (arg : ℕ) (raw : List ℕ) (input out : GmMessage) (s : S)
      → is_one_way (get_char tipo_mensaje input.m_header) ≡ false
      → ((dispatch c m arg raw input out s).out ≡ out)
        × ((dispatch c m arg raw input out s).sent ≡ [])
  unfolding dispatch serve_function
  dispatch-out begin arg raw input out s h = (refl, refl)
  dispatch-out commit arg raw input out s h = (refl, refl)
  dispatch-out rollback arg raw input out s h = (refl, refl)
  dispatch-out level arg raw input out s h = (refl, refl)
  dispatch-out no_command arg raw input out s h = (rw h refl, rw h refl)

  module _ (is_offline : Bool) (behind : ℕ) (raw : List ℕ) (input out : GmMessage) (s : S) where
    pub serve-sent : length (serve m is_offline behind raw input out s).sent ≡ (
        if is_ok (begin_round m is_offline s).0
          && (is_function (command (get_text funcion input.m_header))
              && is_one_way (get_char tipo_mensaje input.m_header))
        then 1
        else 0)
    unfolding serve handle
    serve-sent = elim (Bool-cases (is_ok (begin_round m is_offline s).0)) [
      | inl e ↦
          rw (serve, e)
            (dispatch-sent (command (get_text funcion input.m_header))
              (argument behind (get_data input)) raw input out (begin_round m is_offline s).1)
      | inr e ↦ rw (serve, e) refl
    ]

    pub serve-out :
        is_one_way (get_char tipo_mensaje input.m_header) ≡ false
        → ((serve m is_offline behind raw input out s).out ≡ out)
          × ((serve m is_offline behind raw input out s).sent ≡ [])
    unfolding serve handle
    serve-out h = elim (Bool-cases (is_ok (begin_round m is_offline s).0)) [
      | inl e ↦
          rw (serve, e)
            (dispatch-out (command (get_text funcion input.m_header))
              (argument behind (get_data input)) raw input out (begin_round m is_offline s).1 h)
      | inr e ↦ rw (serve, e) (refl, refl)
    ]

count_lem :
    (a b c : Bool) (k t : ℕ)
    → k ≡ (if a && (b && c) then 1 else 0)
    → t ≡ (if c then k else k + 1)
    → t ≡ (if c then (if a && b then 1 else 0) else 1)
count_lem a b c k t e f = ground arith

finish-sent :
    {S : Type 0} (raw : List ℕ) (pid : ℕ) (input : GmMessage) (o : Outcome S)
    → length (finish raw pid input o).1 ≡ (
        if is_one_way (get_char tipo_mensaje input.m_header)
        then length o.sent
        else length o.sent + 1)
unfolding finish
finish-sent raw pid input o =
    elim (Bool-cases (is_one_way (get_char tipo_mensaje input.m_header))) [
      | inl e ↦ rw e refl
      | inr e ↦ rw e (omega (arith, length-append o.sent ((answer raw pid o).0 ∷ [])))
    ]

-- A message of at least the length of a header is taken.
abbrev pub taken : List ℕ → GmMessage
taken bytes = record { m_header = take header_len bytes; m_msg_buffer = bytes }

pub set_msg-taken :
    (r : GmMessage) (bytes : List ℕ)
    → header_len ≤ length bytes
    → set_msg r (some bytes) (length bytes) ≡ (taken bytes, success)
unfolding set_msg set_header
set_msg-taken r bytes h =
    let enough : (length bytes == 0 || ltb (length bytes) header_len) ≡ false = ground arith in
    rw (enough, take_all bytes) refl

module _ {S : Type 0} (m : Methods S) (is_offline : Bool) (behind : ℕ) (raw : List ℕ) (pid : ℕ)
    (bytes : List ℕ) (l : Loop S) (sized : header_len ≤ length bytes) where
  -- What is served.
  abbrev pub served : Outcome S
  served =
      serve m is_offline behind raw (taken bytes)
        (set_response l.out_message (some (taken bytes))).0 l.server

  pub round_lem :
      round m is_offline behind raw pid (some bytes) (length bytes) l
      ≡ finish raw pid (taken bytes) served
  unfolding round
  round_lem = rw (round, set_msg-taken l.in_message bytes sized) refl

  -- A message of at least the length of a header is answered exactly once if it wants an answer
  -- with data. Another, a message or a notification, is answered once, before the server sees it,
  -- exactly if it is no command of the loop and the server, if it is off line, can be started.
  pub round-sent : length (round m is_offline behind raw pid (some bytes) (length bytes) l).1 ≡ (
      if is_one_way (get_char tipo_mensaje (take header_len bytes))
      then (if is_ok (begin_round m is_offline l.server).0
            && is_function (command (get_text funcion (take header_len bytes)))
          then 1
          else 0)
      else 1)
  round-sent = rw round_lem (
      count_lem (is_ok (begin_round m is_offline l.server).0)
        (is_function (command (get_text funcion (take header_len bytes))))
        (is_one_way (get_char tipo_mensaje (take header_len bytes))) (length served.sent)
        (length (finish raw pid (taken bytes) served).1)
        (serve-sent m is_offline behind raw (taken bytes)
          (set_response l.out_message (some (taken bytes))).0 l.server)
        (finish-sent raw pid (taken bytes) served))
