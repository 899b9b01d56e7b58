-- ===== src/ServerBase/Unanswered.antt =====
-- The code of a server's request that nobody answers.
use gmonitor.Base.{
  either, ℕ, suc, zero, ◌≡◌, ◌≢◌, refl, ◌∙◌, List, [], ◌∷◌, Option, some, ℤ, pos, negsuc, arith,
  length,
}
use gmonitor.Service as Services
use gmonitor.Service.{gme_msgq_error}
use gmonitor.Buffer.{GmBuffer}
use gmonitor.Header as GmHeader
use gmonitor.Header.{get_number, set_char, set_text, set_number, codigo_retorno, header_len}
use gmonitor.Header.Layout.{length-write}
use gmonitor.Header.Access.{length-set_number, get_number-set_number}
use gmonitor.Message as GmMessages
use gmonitor.Message.{
  GmMessage, Setting, of_char, of_text, of_number, call, call_all, set_response, response_settings,
  get_msg,
}
use gmonitor.ServerBase.{RouterQueue, answer_of, request, ask, code_of}

-- A setter keeps the length of the header, also if its value does not fit.
length-call : (s : Setting) (h : List ℕ) → length (call s h) ≡ length h
unfolding call set_char set_text
length-call (of_char f c) h = length-write f (c ∷ []) h
length-call (of_text f s) h =
    either (λ (r : List ℕ × ℤ). length r.0 ≡ length h) _ (length-write f _ h) refl
length-call (of_number f n) h = length-set_number f n h

length-call_every : (ss : List Setting) (h : List ℕ) → length (call_all ss h) ≡ length h
unfolding call_all
length-call_every [] h = refl
length-call_every (s ∷ ss) h = length-call_every ss (call s h) ∙ length-call s h

module _ {W : Type 0} (q : RouterQueue W) (id : Services.Client) where
  code_lem :
      (omsg : GmMessage)
      → get_number codigo_retorno (
          set_number codigo_retorno gme_msgq_error
            (set_response (GmMessages.new q.memory) (some omsg)).0.m_header)
        ≡ gme_msgq_error
  unfolding set_response GmMessages.new GmHeader.new
  code_lem omsg =
      get_number-set_number codigo_retorno gme_msgq_error _ (omega arith) (omega arith)
        (omega arith) (length-call_every (response_settings omsg.m_header) GmHeader.new)

  answer_of_unanswered :
      (omsg : GmMessage) (rc : ℤ) (buffer : GmBuffer)
      → ((n : ℕ) → rc ≢ pos (suc n))
      → get_number codigo_retorno (answer_of q id omsg rc buffer).m_header ≡ gme_msgq_error
  unfolding answer_of
  answer_of_unanswered omsg (pos zero) buffer h = code_lem omsg
  answer_of_unanswered omsg (pos (suc n)) buffer h = absurd (h n refl)
  answer_of_unanswered omsg (negsuc n) buffer h = code_lem omsg

  -- Whatever the request, if Query on the queue of the router does not answer with a positive
  -- length, then the answer in which
  -- Notify, Post and Call find their code says GME_MSGQ_ERROR.
  pub ask_unanswered :
      (tipo : ℕ) (event : List ℕ) (text : Option (List ℕ)) (len to : ℕ) (w : W)
      → let answer = q.query w (get_msg (request q id tipo event text len)).0 to in
        ((n : ℕ) → answer.1 ≢ pos (suc n))
        → code_of q id (ask q id tipo event text len to w) ≡ gme_msgq_error
  unfolding ask
  ask_unanswered tipo event text len to w h = answer_of_unanswered _ _ _ h
