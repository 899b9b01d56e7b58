-- ===== src/Message/Values.antt =====
-- The values that SetResponse copies, and what the accessors read of them.
use gmonitor.Base.{ℕ, ◌+◌, ◌<◌, ◌≡◌, ap, refl, List, [], ◌∷◌, arith, All, Bool, true, ◌==◌, ◌||◌}
use gmonitor.Service.{type_cr, type_msg, type_int, type_not}
use gmonitor.Header.{
  Field, width, read, get_char, get_text, get_number, get_block, get_time_stamp, get_long, is_type,
  tipo_respuesta, key, tipo_mensaje, id_usuario, id_cliente, id_grupo, funcion, id_trans, id_cola,
  id_more_data, secuencia_consulta, secuencia_respuesta, origen_consulta, origen_respuesta,
  id_origen, id_router, id_destino, codigo_retorno, indice_mensaje, tam_max_mensaje,
}
use gmonitor.GmString.{fixed, padded, pow10}
use gmonitor.GmString.Digits.{subint-fixed, sublong-fixed}
use gmonitor.Header.Access.{get_text-IsPlain, length-get_text, cut-padded}
use gmonitor.Header.Checks.{IsNumbered, get_number-lt, get_long-lt}
use gmonitor.Message.{response_settings}
use gmonitor.Message.Settings.{Fits, Keeps}

pub get_time_stamp-lt : (q : List ℕ) → get_time_stamp q < 4294967296
unfolding get_time_stamp
get_time_stamp-lt q = omega arith

-- Every value that is copied fits; the number of the answer has room for one more.
pub response-Fits :
    (q : List ℕ)
    → IsNumbered q
    → get_number secuencia_respuesta q + 1 < 100000
    → All Fits (response_settings q)
unfolding response_settings
response-Fits q n s = (
  refl,
  (
    length-get_text id_usuario q,
    (
      length-get_text id_cliente q,
      (
        length-get_text id_grupo q,
        (
          length-get_text funcion q,
          (
            (get_number-lt id_trans q 0 (omega arith) n refl).0,
            (
              (get_number-lt id_cola q 1 (omega arith) n refl).0,
              (
                (get_number-lt id_more_data q 2 (omega arith) n refl).0,
                (
                  (get_number-lt secuencia_consulta q 3 (omega arith) n refl).0,
                  (
                    omega arith,
                    (
                      refl,
                      (
                        refl,
                        (
                          (get_number-lt id_origen q 5 (omega arith) n refl).0,
                          (
                            (get_number-lt id_router q 6 (omega arith) n refl).0,
                            (
                              (get_number-lt id_destino q 7 (omega arith) n refl).0,
                              (
                                omega (arith, get_time_stamp-lt q),
                                (
                                  (get_long-lt indice_mensaje q 10 (omega arith) n refl).0,
                                  (
                                    (get_long-lt tam_max_mensaje q 11 (omega arith) n refl).0,
                                    (omega arith, tt),
                                  ),
                                ),
                              ),
                            ),
                          ),
                        ),
                      ),
                    ),
                  ),
                ),
              ),
            ),
          ),
        ),
      ),
    ),
  ),
)

pub response-Keeps : (q : List ℕ) → All Keeps (response_settings q)
unfolding response_settings
response-Keeps q = (
  refl,
  (
    refl,
    (
      refl,
      (
        refl,
        (
          refl,
          (
            refl,
            (
              refl,
              (
                refl,
                (
                  refl,
                  (
                    refl,
                    (refl, (refl, (refl, (refl, (refl, (refl, (refl, (refl, (refl, tt))))))))),
                  ),
                ),
              ),
            ),
          ),
        ),
      ),
    ),
  ),
)

abbrev pub is_query : ℕ → Bool
is_query t = t == type_cr || t == type_msg || t == type_int || t == type_not

pub tipo_respuesta-is_type : (t : ℕ) → is_query t ≡ true → is_type (tipo_respuesta t) ≡ true
unfolding tipo_respuesta
tipo_respuesta-is_type t h = ground arith

pub char_lem : (f : Field) (h : List ℕ) (c : ℕ) → read f h ≡ c ∷ [] → get_char f h ≡ c
unfolding get_char
char_lem f h c e = let first : List ℕ → ℕ = λ bs. elim bs [ [] ↦ 0 | b ∷ _ ↦ b ] in ap first e

pub number_lem :
    (f : Field) (h : List ℕ) (n : ℕ)
    → 0 < width f
    → n < pow10 (width f)
    → n < 4294967296
    → read f h ≡ fixed (width f) n
    → get_number f h ≡ n
unfolding get_number
number_lem f h n w fits bound e = rw e (subint-fixed (width f) n w fits bound)

pub long_lem :
    (f : Field) (h : List ℕ) (n : ℕ)
    → 0 < width f
    → n < pow10 (width f)
    → n < 18446744073709551616
    → read f h ≡ fixed (width f) n
    → get_long f h ≡ n
unfolding get_long
long_lem f h n w fits bound e = rw e (sublong-fixed (width f) n w fits bound)

pub text_lem :
    (f : Field) (h q : List ℕ)
    → read f h ≡ padded (width f) (get_text f q)
    → get_text f h ≡ get_text f q
unfolding get_text
text_lem f h q e =
    rw e (cut-padded (width f) (get_text f q) (length-get_text f q) (get_text-IsPlain f q))

-- `h` is the header of an answer to `q` in a message whose header was `before`.
pub record IsAnswer (before q h : List ℕ) : Type 0 where
  pub tipo : get_char tipo_mensaje h ≡ tipo_respuesta (get_char tipo_mensaje q)
  pub origenes :
      (get_char origen_consulta h ≡ get_char origen_consulta q)
      × (get_char origen_respuesta h ≡ get_char origen_respuesta q)
  pub texts :
      (get_text id_usuario h ≡ get_text id_usuario q)
      × (get_text id_cliente h ≡ get_text id_cliente q)
      × (get_text id_grupo h ≡ get_text id_grupo q)
      × (get_text funcion h ≡ get_text funcion q)
  pub numbers :
      (get_number id_trans h ≡ get_number id_trans q)
      × (get_number id_cola h ≡ get_number id_cola q)
      × (get_number id_more_data h ≡ get_number id_more_data q)
      × (get_number secuencia_consulta h ≡ get_number secuencia_consulta q)
      × (get_number id_origen h ≡ get_number id_origen q)
      × (get_number id_router h ≡ get_number id_router q)
      × (get_number id_destino h ≡ get_number id_destino q)
  pub times :
      (get_time_stamp h ≡ get_time_stamp q)
      × (get_long indice_mensaje h ≡ get_long indice_mensaje q)
      × (get_long tam_max_mensaje h ≡ get_long tam_max_mensaje q)
  pub answer :
      (get_number secuencia_respuesta h ≡ get_number secuencia_respuesta q + 1)
      × (get_number codigo_retorno h ≡ 0)
      × (get_block key h ≡ get_block key before)
