-- ===== src/Header/Layout.antt =====
-- The places of the members within GMONITOR_HEADER, and the frame of a write.
use gmonitor.Base.{
  ℕ, zero, suc, ◌+◌, ◌≤◌, ◌<◌, ◌≡◌, ◌≢◌, refl, List, [], ◌∷◌, arith, length, take, ◌⊎◌, inl, inr,
  get_elem?, some,
}
use native.Mathlib.Decide.{dec_lt}
use gmonitor.GmString.Fields.{
  slice-memprint, slice-memprint_before, slice-memprint_behind, length-memprint,
}
use gmonitor.Header.{
  Field, number, width, offset, widths, total, width_at, read, write, header_len, tipo_mensaje,
  version_header, id_usuario, id_cliente, key, id_grupo, funcion, id_trans, id_cola, id_more_data,
  secuencia_consulta, secuencia_respuesta, origen_consulta, origen_respuesta, id_origen, id_router,
  id_destino, time_stamp, codigo_retorno, crc, tam_mensaje, indice_mensaje, tam_max_mensaje,
  tam_tot_mensaje,
}

abbrev members : List Field
members =
    tipo_mensaje ∷ version_header ∷ id_usuario ∷ id_cliente ∷ key ∷ id_grupo ∷ funcion ∷ id_trans
    ∷ id_cola ∷ id_more_data ∷ secuencia_consulta ∷ secuencia_respuesta ∷ origen_consulta
    ∷ origen_respuesta ∷ id_origen ∷ id_router ∷ id_destino ∷ time_stamp ∷ codigo_retorno ∷ crc
    ∷ tam_mensaje ∷ indice_mensaje ∷ tam_max_mensaje ∷ tam_tot_mensaje ∷ []

get_elem?-members : (f : Field) → get_elem? members (number f) ≡ some f
get_elem?-members tipo_mensaje = refl
get_elem?-members version_header = refl
get_elem?-members id_usuario = refl
get_elem?-members id_cliente = refl
get_elem?-members key = refl
get_elem?-members id_grupo = refl
get_elem?-members funcion = refl
get_elem?-members id_trans = refl
get_elem?-members id_cola = refl
get_elem?-members id_more_data = refl
get_elem?-members secuencia_consulta = refl
get_elem?-members secuencia_respuesta = refl
get_elem?-members origen_consulta = refl
get_elem?-members origen_respuesta = refl
get_elem?-members id_origen = refl
get_elem?-members id_router = refl
get_elem?-members id_destino = refl
get_elem?-members time_stamp = refl
get_elem?-members codigo_retorno = refl
get_elem?-members crc = refl
get_elem?-members tam_mensaje = refl
get_elem?-members indice_mensaje = refl
get_elem?-members tam_max_mensaje = refl
get_elem?-members tam_tot_mensaje = refl

pub number_injective : (f g : Field) → number f ≡ number g → f ≡ g
number_injective f g e =
    let same : some f ≡ some g = rw (← get_elem?-members f, e) (get_elem?-members g) in cc

total-take : (i j : ℕ) (ws : List ℕ) → i < j → total (take i ws) + width_at i ws ≤ total (take j ws)
total-take i zero ws h = elim h [ ]
total-take zero (suc j) [] h = omega arith
total-take zero (suc j) (w ∷ ws) h = omega arith
total-take (suc i) (suc j) [] h = omega arith
total-take (suc i) (suc j) (w ∷ ws) h = omega (arith, total-take i j ws (omega arith))

total-take_all : (i : ℕ) (ws : List ℕ) → total (take i ws) + width_at i ws ≤ total ws
total-take_all zero [] = omega arith
total-take_all zero (w ∷ ws) = omega arith
total-take_all (suc i) [] = omega arith
total-take_all (suc i) (w ∷ ws) = omega (arith, total-take_all i ws)

-- A member lies within the header.
pub offset_bound : (f : Field) → offset f + width f ≤ header_len
offset_bound f = total-take_all (number f) widths

-- Two members do not overlap.
pub members_disjoint :
    (f g : Field) → f ≢ g → (offset f + width f ≤ offset g) ⊎ (offset g + width g ≤ offset f)
members_disjoint f g d = elim (dec_lt (number f) (number g)) [
  | yes h ↦ inl (total-take (number f) (number g) widths h)
  | no h ↦ elim (dec_lt (number g) (number f)) [
    | yes k ↦ inr (total-take (number g) (number f) widths k)
    | no k ↦ absurd (d (number_injective f g (omega arith)))
  ]
]

pub length-write : (f : Field) (bs h : List ℕ) → length (write f bs h) ≡ length h
unfolding write
length-write f bs h = length-memprint (offset f) bs h

-- What fills a member is read from it.
pub read-write :
    (f : Field) (bs h : List ℕ)
    → length bs ≡ width f
    → length h ≡ header_len
    → read f (write f bs h) ≡ bs
unfolding read write
read-write f bs h e k = slice-memprint (offset f) (width f) bs h e (omega (arith, offset_bound f))

-- And the other members stay.
pub read-write_other :
    (f g : Field) (bs h : List ℕ) → f ≢ g → length bs ≡ width f → read g (write f bs h) ≡ read g h
unfolding read write
read-write_other f g bs h d e = elim (members_disjoint f g d) [
  | inl k ↦ slice-memprint_before (offset f) (offset g) (width g) bs h (omega arith)
  | inr k ↦ slice-memprint_behind (offset f) (offset g) (width g) bs h k
]
