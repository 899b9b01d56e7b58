-- ===== src/Routing/Marks.antt =====
-- The code and the origin that the router writes into an answer.
use gmonitor.Base.{ℕ, ◌<◌, ◌≡◌, refl, List, [], ◌∷◌, arith, length, All}
use gmonitor.GmString.{fixed}
use gmonitor.Header.{
  header_len, get_number, get_char, codigo_retorno, origen_respuesta, id_destino, read,
}
use gmonitor.Message.{GmMessage, Setting, of_number, of_char, call_all}
use gmonitor.Message.Settings.{Fits, read-call_all}
use gmonitor.Message.Values.{number_lem, char_lem}
use gmonitor.Routing.{by_router, by_router_at}

-- What an answer of the router says.
pub record IsMarked (code : ℕ) (out : GmMessage) : Type 0 where
  pub code_is : get_number codigo_retorno out.m_header ≡ code
  pub origin_is : get_char origen_respuesta out.m_header ≡ b'R'

abbrev marks : ℕ → List Setting
marks code = of_number codigo_retorno code ∷ of_char origen_respuesta b'R' ∷ []

abbrev marks_at : ℕ → ℕ → List Setting
marks_at pid code =
    of_number codigo_retorno code ∷ of_char origen_respuesta b'R' ∷ of_number id_destino pid ∷ []

marked_lem :
    (code : ℕ) (out : GmMessage)
    → code < 100000
    → read codigo_retorno out.m_header ≡ fixed 5 code
    → read origen_respuesta out.m_header ≡ b'R' ∷ []
    → IsMarked code out
marked_lem code out small c o = record {
  code_is = number_lem codigo_retorno out.m_header code (omega arith) small (omega arith) c;
  origin_is = char_lem origen_respuesta out.m_header b'R' o;
}

pub by_router-IsMarked :
    (code : ℕ) (out : GmMessage)
    → code < 100000
    → length out.m_header ≡ header_len
    → IsMarked code (by_router code out)
unfolding by_router call_all
by_router-IsMarked code out small k =
    let fits : All Fits (marks code) = (small, (refl, tt)) in
    marked_lem code (by_router code out) small
      (read-call_all codigo_retorno (marks code) out.m_header fits k)
      (read-call_all origen_respuesta (marks code) out.m_header fits k)

pub by_router_at-IsMarked :
    (pid code : ℕ) (out : GmMessage)
    → code < 100000
    → pid < 4294967296
    → length out.m_header ≡ header_len
    → IsMarked code (by_router_at pid code out)
unfolding by_router_at call_all
by_router_at-IsMarked pid code out small range k =
    let fits : All Fits (marks_at pid code) = (small, (refl, (omega arith, tt))) in
    marked_lem code (by_router_at pid code out) small
      (read-call_all codigo_retorno (marks_at pid code) out.m_header fits k)
      (read-call_all origen_respuesta (marks_at pid code) out.m_header fits k)
