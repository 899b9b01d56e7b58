-- ===== src/Paging/Pieces.antt =====
-- The pieces of a long answer.
use gmonitor.Base.{
  ℕ, ◌≤◌, ◌<◌, ◌≡◌, refl, ap, sym, ◌∙◌, true, false, List, [], ◌∷◌, ◌++◌, arith, some, ◌==◌, ◌⊎◌,
  ltb→lt, ltb, if◌then◌else◌, length, take, All, Bool-cases, inl, inr, codes, length-take, subst,
}
use gmonitor.GmString.Digits.{sublong-fixed}
use gmonitor.Service.{gme_ok, gme_more_data}
use gmonitor.Header.{
  header_len, set_number, get_number, get_long, codigo_retorno, tam_max_mensaje, tam_tot_mensaje,
  tam_mensaje, crc,
}
use gmonitor.Message.{GmMessage, Setting, of_text, of_number, call_all, set_data, get_data}
use gmonitor.Message.Settings.{Fits, read-call_all}
use gmonitor.Message.Transfer.{drop-append, not_zero}
use gmonitor.Message.Values.{number_lem}
use gmonitor.Tables.{Server, Funcion}
use gmonitor.Routing.{Net, Routed}
use gmonitor.Routing.Dispatch.{if_true, if_false}
use gmonitor.Paging.{piece_len, piece_total, piece_text, with_header, next_code}

-- What the header says once a piece of `len` bytes out of `total` is in the message.
abbrev piece_settings : ℕ → ℕ → ℕ → List Setting
piece_settings len total code =
    of_text crc (codes "*** NULL CRC ***")
    ∷ of_number tam_mensaje len
    ∷ of_number tam_tot_mensaje total
    ∷ of_number codigo_retorno code
    ∷ []

abbrev piece_message : List ℕ → ℕ → ℕ → ℕ → List ℕ → GmMessage → GmMessage
piece_message raw len total code text out = record {
  m_header = call_all (piece_settings len total code) out.m_header;
  m_msg_buffer = take header_len raw ++ take len text;
}

-- The message that goes back with a piece.
pub record IsPiece (len total code : ℕ) (text : List ℕ) (out : GmMessage) : Type 0 where
  pub holds : get_data out ≡ take len text
  pub length_is : get_long tam_mensaje out.m_header ≡ len
  pub total_is : get_long tam_tot_mensaje out.m_header ≡ total
  pub code_is : get_number codigo_retorno out.m_header ≡ code

module _ (raw : List ℕ) (len total code : ℕ) (text : List ℕ) (out : GmMessage)
    (place : header_len ≤ length raw) (some_bytes : 0 < len) (short : len < 10000000000)
    (total_short : total < 10000000000) (code_small : code < 100000)
    (sized : length out.m_header ≡ header_len) where
  filled_piece :
      with_header
        (set_number codigo_retorno code)
        (with_header (set_number tam_tot_mensaje total) (set_data raw out (some text) len).0)
      ≡ piece_message raw len total code text out
  unfolding set_data call_all
  filled_piece = rw (not_zero len some_bytes) refl

  piece_Fits : All Fits (piece_settings len total code)
  piece_Fits = (omega arith, (short, (total_short, (code_small, tt))))

  piece_message-IsPiece : IsPiece len total code text (piece_message raw len total code text out)
  unfolding get_data get_long
  piece_message-IsPiece = record {
    holds =
        drop-append (take header_len raw) (take len text) header_len
          (omega (arith, length-take header_len raw));
    length_is =
        rw (read-call_all tam_mensaje (piece_settings len total code) out.m_header piece_Fits sized)
          (sublong-fixed 10 len (omega arith) short (omega arith));
    total_is =
        rw
          (read-call_all tam_tot_mensaje (piece_settings len total code) out.m_header piece_Fits
            sized)
          (sublong-fixed 10 total (omega arith) total_short (omega arith));
    code_is =
        number_lem codigo_retorno (piece_message raw len total code text out).m_header code
          (omega arith) code_small (omega arith)
          (read-call_all codigo_retorno (piece_settings len total code) out.m_header piece_Fits
            sized);
  }

module _ {W : Type 0} (net : Net W) (raw : List ℕ) (fs : List Funcion) (servers : List Server)
    (pin out : GmMessage) (got : Routed W) (place : header_len ≤ length raw)
    (some_bytes : 0 < piece_len got.out) (short : piece_len got.out < 10000000000)
    (total_short : piece_total got.out < 10000000000) (sized : length out.m_header ≡ header_len)
    (fine : get_number codigo_retorno got.out.m_header ≡ gme_ok) where
  fine_code : (get_number codigo_retorno got.out.m_header == gme_ok) ≡ true
  fine_code = rw fine refl

  whole-IsPiece :
      (code : ℕ)
      → code < 100000
      → (m : GmMessage)
      → m
        ≡ with_header (set_number codigo_retorno code) (
            with_header
              (set_number tam_tot_mensaje (piece_total got.out))
              (set_data raw out (some (piece_text got.out)) (piece_len got.out)).0)
      → IsPiece (piece_len got.out) (piece_total got.out) code (piece_text got.out) m
  whole-IsPiece code small m e =
      subst (IsPiece (piece_len got.out) (piece_total got.out) code (piece_text got.out))
        (sym (
          e
          ∙ filled_piece raw (piece_len got.out) (piece_total got.out) code (piece_text got.out) out
              place some_bytes short total_short small sized))
        (piece_message-IsPiece raw (piece_len got.out) (piece_total got.out) code
          (piece_text got.out) out place some_bytes short total_short small sized)

  -- Where the code leaves next_code.
  short_piece :
      ltb (piece_len got.out) (get_long tam_max_mensaje pin.m_header) ≡ true
      → (next_code net raw fs servers pin out got).out
        ≡ with_header (set_number codigo_retorno gme_ok) (
            with_header
              (set_number tam_tot_mensaje (piece_total got.out))
              (set_data raw out (some (piece_text got.out)) (piece_len got.out)).0)
  unfolding next_code
  short_piece e =
      ap (λ (r : Routed W). r.out) (if_true _ _ _ fine_code)
      ∙ ap (λ (r : Routed W). r.out) (if_true _ _ _ e)

  full_piece :
      ltb (piece_len got.out) (get_long tam_max_mensaje pin.m_header) ≡ false
      → next_code net raw fs servers pin out got ≡ record {
        out = with_header (set_number codigo_retorno gme_more_data) (
            with_header
              (set_number tam_tot_mensaje (piece_total got.out))
              (set_data raw out (some (piece_text got.out)) (piece_len got.out)).0);
        world = got.world;
        sent = got.sent;
      }
  unfolding next_code
  full_piece e = if_true _ _ _ fine_code ∙ if_false _ _ _ e

  -- The answer to a further request, if the buffer server answers with a piece that is not empty:
  -- it holds the piece and the length of the whole, with the code GME_OK for a piece shorter than
  -- the client allows, and GME_MORE_DATA otherwise. Then, even if the piece is the end of the whole,
  -- no more is sent, so that the buffer is not deleted. The lengths have at most ten digits.
  pub next_code_lem :
      IsPiece
        (piece_len got.out)
        (piece_total got.out)
        (if ltb (piece_len got.out) (get_long tam_max_mensaje pin.m_header)
          then gme_ok
          else gme_more_data)
        (piece_text got.out)
        (next_code net raw fs servers pin out got).out
      × ((piece_len got.out < get_long tam_max_mensaje pin.m_header)
          ⊎ (((next_code net raw fs servers pin out got).world ≡ got.world)
              × ((next_code net raw fs servers pin out got).sent ≡ got.sent)))
  next_code_lem =
      elim (Bool-cases (ltb (piece_len got.out) (get_long tam_max_mensaje pin.m_header))) [
        | inl e ↦ (
          subst
              (λ code.
                IsPiece (piece_len got.out) (piece_total got.out) code (piece_text got.out)
                  (next_code net raw fs servers pin out got).out)
              (sym (if_true _ gme_ok gme_more_data e))
              (whole-IsPiece gme_ok (omega arith) (next_code net raw fs servers pin out got).out
                (short_piece e)),
          inl (ltb→lt (piece_len got.out) (get_long tam_max_mensaje pin.m_header) e),
        )
        | inr e ↦ (
          subst
              (λ code.
                IsPiece (piece_len got.out) (piece_total got.out) code (piece_text got.out)
                  (next_code net raw fs servers pin out got).out)
              (sym (if_false _ gme_ok gme_more_data e))
              (whole-IsPiece gme_more_data (omega arith)
                (next_code net raw fs servers pin out got).out
                (ap (λ (r : Routed W). r.out) (full_piece e))),
          inr (
            ap (λ (r : Routed W). r.world) (full_piece e),
            ap (λ (r : Routed W). r.sent) (full_piece e),
          ),
        )
      ]
