-- ===== src/ServerLoop/Keeping.antt =====
-- The text of the outgoing message lives on from one message to the next.
use gmonitor.Base.{
  ℕ, ◌≤◌, ◌≡◌, refl, ap, sym, List, [], ◌∷◌, ◌++◌, arith, length, Bool, true, false, some,
  if◌then◌else◌, ℤ, take, drop, ◌∙◌, ◌⊎◌, inl, inr,
}
use gmonitor.Header.{
  Field, header_len, set_text, width, set_char, get_char, tipo_mensaje, codigo_retorno,
  origen_respuesta, id_destino,
}
use gmonitor.Header.Access.{length-set_number}
use gmonitor.Header.Layout.{length-write}
use gmonitor.GmString.{to_u32, padded}
use gmonitor.Message.{
  GmMessage, set_data, get_msg, get_data, set_response, call, call_all, response_settings, Setting,
  of_char, of_text, of_number,
}
use gmonitor.Message.Transfer.{drop-append}
use gmonitor.ServerLoop.{Methods, Loop, Outcome, is_ok, is_one_way, round, finish, answer}
use gmonitor.ServerLoop.Counting.{taken, served, serve-out, round_lem}

-- An outcome that puts no text into the answer.
abbrev pub IsEmpty : {S : Type 0} → Outcome S → Type 0
IsEmpty o = (is_ok o.rc ≡ false) ⊎ (o.body ≡ [])

same {ℓ} : {A : Type ℓ} (b : Bool) (x : A) → (if b then x else x) ≡ x
same true x = refl
same false x = refl

-- The message that the answer is put into.
abbrev pub filled : {S : Type 0} → List ℕ → Outcome S → GmMessage
filled raw o = if is_ok o.rc then (set_data raw o.out (some o.body) (length o.body)).0 else o.out

filled-IsEmpty : {S : Type 0} (raw : List ℕ) (o : Outcome S) → IsEmpty o → filled raw o ≡ o.out
unfolding set_data
filled-IsEmpty raw o (inl e) = rw e refl
filled-IsEmpty raw o (inr e) = rw e (same (is_ok o.rc) o.out)

length-set_text : (f : Field) (s h : List ℕ) → length (set_text f (some s) h).0 ≡ length h
unfolding set_text
length-set_text f s h = ground (arith, length-write f (padded (width f) s) h)

length-call : (s : Setting) (h : List ℕ) → length (call s h) ≡ length h
unfolding call set_char
length-call (of_char f c) h = length-write f (c ∷ []) h
length-call (of_text f s) h = length-set_text f s h
length-call (of_number f n) h = length-set_number f n h

length-call_all : (ss : List Setting) (h : List ℕ) → length (call_all ss h) ≡ length h
unfolding call_all
length-call_all [] h = refl
length-call_all (s ∷ ss) h = length-call_all ss (call s h) ∙ length-call s h

drop_behind : (h rest : List ℕ) (n : ℕ) → length h ≡ n → drop n (h ++ drop n rest) ≡ drop n rest
drop_behind h rest n e = drop-append h (drop n rest) n (sym e)

-- The last setters of an answer.
abbrev pub last_settings : ℤ → ℕ → List Setting
last_settings rc pid =
    of_number codigo_retorno (to_u32 rc)
    ∷ of_char origen_respuesta b'S'
    ∷ of_number id_destino pid
    ∷ []

pub answer_lem :
    {S : Type 0} (raw : List ℕ) (pid : ℕ) (o : Outcome S)
    → (answer raw pid o).0
      ≡ call_all (last_settings o.rc pid) (filled raw o).m_header
        ++ drop header_len (filled raw o).m_msg_buffer
unfolding answer call_all get_msg
answer_lem raw pid o = refl

answer-IsEmpty :
    {S : Type 0} (raw : List ℕ) (pid : ℕ) (o : Outcome S)
    → IsEmpty o
    → length o.out.m_header ≡ header_len
    → drop header_len (answer raw pid o).0 ≡ get_data o.out
unfolding get_data
answer-IsEmpty raw pid o e k =
    rw (answer_lem raw pid o, filled-IsEmpty raw o e)
      (drop_behind (call_all (last_settings o.rc pid) o.out.m_header) o.out.m_msg_buffer header_len
        (length-call_all (last_settings o.rc pid) o.out.m_header ∙ k))

pub finish_answer :
    {S : Type 0} (raw : List ℕ) (pid : ℕ) (input : GmMessage) (o : Outcome S)
    → is_one_way (get_char tipo_mensaje input.m_header) ≡ false
    → o.sent ≡ []
    → (finish raw pid input o).1 ≡ (answer raw pid o).0 ∷ []
unfolding finish
finish_answer raw pid input o w e = rw (w, e) refl

pub length-set_response :
    (out q : GmMessage) → length (set_response out (some q)).0.m_header ≡ length out.m_header
unfolding set_response
length-set_response out q = length-call_all (response_settings q.m_header) out.m_header

get_data-set_response : (out q : GmMessage) → get_data (set_response out (some q)).0 ≡ get_data out
unfolding set_response get_data
get_data-set_response out q = refl

module _ {S : Type 0} (m : Methods S) (is_offline : Bool) (behind : ℕ) (raw : List ℕ) (pid : ℕ)
    (bytes : List ℕ) (l : Loop S) (sized : header_len ≤ length bytes) where
  -- A message that wants an answer, for which the server ends with an error or without text, is
  -- answered with the text that the outgoing message held before, that is with the text of an
  -- earlier answer to whatever client.
  pub round-IsEmpty :
      length l.out_message.m_header ≡ header_len
      → is_one_way (get_char tipo_mensaje (take header_len bytes)) ≡ false
      → IsEmpty (served m is_offline behind raw pid bytes l sized)
      → (last : List ℕ) × ((round m is_offline behind raw pid (some bytes) (length bytes) l).1
          ≡ last ∷ [])
        × (drop header_len last ≡ get_data l.out_message)
  round-IsEmpty k w e =
      let o = served m is_offline behind raw pid bytes l sized in
      let (out, none_sent) =
        serve-out m is_offline behind raw (taken bytes)
          (set_response l.out_message (some (taken bytes))).0 l.server w in
      (
        (answer raw pid o).0,
        ap (λ (x : Loop S × List (List ℕ)). x.1)
              (round_lem m is_offline behind raw pid bytes l sized)
            ∙ finish_answer raw pid (taken bytes) o w none_sent,
        answer-IsEmpty raw pid o e (
              ap (λ (x : GmMessage). length x.m_header) out
              ∙ length-set_response l.out_message (taken bytes)
              ∙ k)
            ∙ ap get_data out
            ∙ get_data-set_response l.out_message (taken bytes),
      )
