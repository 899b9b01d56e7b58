-- ===== src/Header.antt =====
-- CGMHeader (system/shared/gmheader.cc, gmheader.h): the header of a message, a structure of char
-- arrays that is sent as it stands. A header is the list of its bytes.
pub mod Layout
pub mod Access
pub mod Checks
pub mod Overflow
use gmonitor.Base.{
  ℕ, zero, suc, ◌+◌, ◌%◌, ◌≡◌, Bool, true, false, ◌&&◌, ◌||◌, not, List, [], ◌∷◌, ◌++◌, Option,
  none, some, length, take, drop, ◌==◌, ltb, leb, if◌then◌else◌, replicate, get_elem?, ℤ, success,
  failure, str_eq, c_str, codes,
}
use gmonitor.Service.{
  type_cr, type_msg, type_int, type_not, type_r_cr, type_r_msg, type_r_int, type_r_not,
}
use gmonitor.Buffer.{GmBuffer}
use gmonitor.GmString.{is_digit, print_number, padded, memprint, subint, sublong}

-- The members of GMONITOR_HEADER in their order.
pub data Field : Type 0 where
  tipo_mensaje version_header id_usuario id_cliente key id_grupo funcion id_trans : Field
  id_cola id_more_data secuencia_consulta secuencia_respuesta origen_consulta : Field
  origen_respuesta id_origen id_router id_destino time_stamp codigo_retorno crc : Field
  tam_mensaje indice_mensaje tam_max_mensaje tam_tot_mensaje : Field

abbrev pub number : Field → ℕ
number tipo_mensaje = 0
number version_header = 1
number id_usuario = 2
number id_cliente = 3
number key = 4
number id_grupo = 5
number funcion = 6
number id_trans = 7
number id_cola = 8
number id_more_data = 9
number secuencia_consulta = 10
number secuencia_respuesta = 11
number origen_consulta = 12
number origen_respuesta = 13
number id_origen = 14
number id_router = 15
number id_destino = 16
number time_stamp = 17
number codigo_retorno = 18
number crc = 19
number tam_mensaje = 20
number indice_mensaje = 21
number tam_max_mensaje = 22
number tam_tot_mensaje = 23

-- The sizes of the members, which stand without gaps.
abbrev pub widths : List ℕ
widths =
    1 ∷ 3 ∷ 16 ∷ 16 ∷ 16 ∷ 16 ∷ 32 ∷ 5 ∷ 5 ∷ 5 ∷ 5 ∷ 5 ∷ 1 ∷ 1 ∷ 10 ∷ 10 ∷ 10 ∷ 10 ∷ 5 ∷ 16 ∷ 10
    ∷ 10 ∷ 10 ∷ 10 ∷ []

abbrev pub total : List ℕ → ℕ
total [] = 0
total (w ∷ ws) = w + total ws

abbrev pub width_at : ℕ → List ℕ → ℕ
width_at n [] = 0
width_at zero (w ∷ ws) = w
width_at (suc n) (w ∷ ws) = width_at n ws

abbrev pub width : Field → ℕ
width f = width_at (number f) widths

abbrev pub offset : Field → ℕ
offset f = total (take (number f) widths)

-- sizeof(GMONITOR_HEADER)
abbrev pub header_len : ℕ
header_len = 228

-- `m_header.X`
unfoldable pub read : Field → List ℕ → List ℕ
read f h = take (width f) (drop (offset f) h)

unfoldable pub write : Field → List ℕ → List ℕ → List ℕ
unfolding memprint
write f bs h = memprint (offset f) bs h

-- The constructor.
unfoldable pub new : List ℕ
new =
    b'?'
    ∷ (codes "000"
        ++ (replicate 96 b' '
            ++ (replicate 25 b'0'
                ++ (replicate 2 b'0'
                    ++ (replicate 45 b'0' ++ (replicate 16 b' ' ++ replicate 40 b'0'))))))

-- The accessors of a single char: TipoMensaje, OrigenConsulta and OrigenRespuesta.
unfoldable pub get_char : Field → List ℕ → ℕ
unfolding read
get_char f h = elim (read f h) [ [] ↦ 0 | c ∷ _ ↦ c ]

unfoldable pub set_char : Field → ℕ → List ℕ → List ℕ
unfolding write
set_char f c h = write f (c ∷ []) h

-- `strstr(s, " ")` and the NUL at that place.
unfoldable pub before_space : List ℕ → List ℕ
before_space [] = []
before_space (c ∷ cs) = let rest = before_space cs in if c == b' ' then [] else c ∷ rest

-- The texts that are cut at a space: IdUsuario, IdCliente, IdGrupo and Funcion.
unfoldable pub get_text : Field → List ℕ → List ℕ
unfolding read before_space c_str
get_text f h = before_space (c_str (read f h))

-- Key and Crc.
unfoldable pub get_block : Field → List ℕ → List ℕ
unfolding read c_str
get_block f h = c_str (read f h)

-- The setters of texts and blocks; the array for the answer has a byte more than the member.
unfoldable pub set_text : Field → Option (List ℕ) → List ℕ → List ℕ × ℤ
unfolding write padded
set_text f none h = (h, failure)
set_text f (some s) h =
    if ltb (length s) (width f + 1) then (write f (padded (width f) s) h, success) else (h, failure)

-- The numbers of unsigned int and int.
unfoldable pub get_number : Field → List ℕ → ℕ
unfolding read subint
get_number f h = subint (read f h) (width f)

-- The numbers of unsigned long.
unfoldable pub get_long : Field → List ℕ → ℕ
unfolding read sublong
get_long f h = sublong (read f h) (width f)

-- TimeStamp
unfoldable pub get_time_stamp : List ℕ → ℕ
unfolding get_long
get_time_stamp h = get_long time_stamp h % 4294967296

-- The setters of numbers, by the formats "%05u", "%010u" and "%010lu" of the members' widths.
unfoldable pub set_number : Field → ℕ → List ℕ → List ℕ
unfolding write print_number
set_number f n h = write f (print_number (width f) n) h

-- TipoRespuesta
unfoldable pub tipo_respuesta : ℕ → ℕ
tipo_respuesta tc =
    if tc == type_cr
    then type_r_cr
    else if tc == type_msg
    then type_r_msg
    else if tc == type_int
    then type_r_int
    else if tc == type_not
    then type_r_not
    else b'!'

-- The checks of SetHeader.
unfoldable pub all_digits : List ℕ → Bool
all_digits [] = true
all_digits (c ∷ cs) = is_digit c && all_digits cs

abbrev pub is_type : ℕ → Bool
is_type t =
    t == type_cr
    || t == type_msg
    || t == type_int
    || t == type_not
    || t == type_r_cr
    || t == type_r_msg
    || t == type_r_int
    || t == type_r_not

-- The members that have to be digits.
abbrev pub digit_fields : List Field
digit_fields =
    id_trans ∷ id_cola ∷ id_more_data ∷ secuencia_consulta ∷ secuencia_respuesta ∷ id_origen
    ∷ id_router ∷ id_destino ∷ codigo_retorno ∷ tam_mensaje ∷ indice_mensaje ∷ tam_max_mensaje
    ∷ tam_tot_mensaje ∷ []

unfoldable pub digits_in : List Field → List ℕ → Bool
unfolding read all_digits
digits_in [] h = true
digits_in (f ∷ fs) h = all_digits (read f h) && digits_in fs h

unfoldable pub is_accepted : List ℕ → Bool
unfolding get_char read digits_in
is_accepted h =
    str_eq (read version_header h) (codes "000")
    && (is_type (get_char tipo_mensaje h) && digits_in digit_fields h)

-- SetHeader(const char*): the bytes are taken over also if they are refused.
unfoldable pub set_header : Option (List ℕ) → List ℕ → List ℕ × ℤ
unfolding is_accepted
set_header none h = (h, failure)
set_header (some msg) h =
    (take header_len msg, if is_accepted (take header_len msg) then success else failure)

-- SetHeader(CGMBuffer*)
unfoldable pub set_header_buffer : Option GmBuffer → List ℕ → List ℕ × ℤ
unfolding set_header
set_header_buffer none h = (h, failure)
set_header_buffer (some b) h =
    if ltb b.m_len header_len then (h, failure) else set_header b.m_buffer h
