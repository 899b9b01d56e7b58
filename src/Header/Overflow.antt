-- ===== src/Header/Overflow.antt =====
-- Numbers that are too large for their members: memprint copies all that the format prints.
use gmonitor.Base.{
  ℕ, zero, suc, ◌+◌, ◌≤◌, ◌<◌, ◌≡◌, ap, List, [], ◌∷◌, arith, length, take, drop, refl, ◌/◌, ◌%◌,
  ◌++◌, ◌∙◌, sym, length-append, length-drop, take-append,
}
use gmonitor.GmString.{fixed, pow10, overwrite}
use gmonitor.GmString.Digits.{length-fixed, print_number_over, subint-fixed}
use gmonitor.GmString.Fields.{slice-memprint_long, drop-memprint_append}
use gmonitor.Header.{
  Field, width, offset, read, write, header_len, get_char, get_number, set_number,
}
use gmonitor.Header.Layout.{offset_bound}

read-set_number_over :
    (f : Field) (n : ℕ) (h : List ℕ)
    → pow10 (width f) ≤ n
    → n < pow10 (suc (width f))
    → length h ≡ header_len
    → read f (set_number f n h) ≡ fixed (width f) (n / 10)
unfolding read write set_number
read-set_number_over f n h over fits k =
    let digits = length-fixed (width f) (n / 10) in
    let printed = fixed (width f) (n / 10) ++ (b'0' + n % 10) ∷ [] in
    rw (print_number_over (width f) n over fits) (
      slice-memprint_long (offset f) (width f) printed h
        (omega (arith, length-append (fixed (width f) (n / 10)) ((b'0' + n % 10) ∷ [])))
        (omega (arith, offset_bound f))
      ∙ take-append (width f) (fixed (width f) (n / 10)) ((b'0' + n % 10) ∷ []) (sym digits))

first_byte :
    (w c : ℕ) (block : List ℕ)
    → 0 < w
    → 0 < length block
    → (rest : List ℕ) × (take w (overwrite block (c ∷ [])) ≡ c ∷ rest)
unfolding overwrite
first_byte zero c block h k = elim h [ ]
first_byte (suc w) c [] h k = elim k [ ]
first_byte (suc w) c (x ∷ block) h k = (take w (overwrite block []), refl)

get_char-set_number_over :
    (f g : Field) (n : ℕ) (h : List ℕ)
    → offset g ≡ offset f + width f
    → 0 < width g
    → pow10 (width f) ≤ n
    → n < pow10 (suc (width f))
    → length h ≡ header_len
    → get_char g (set_number f n h) ≡ b'0' + n % 10
unfolding get_char set_number write
get_char-set_number_over f g n h o v over fits k =
    let first : List ℕ → ℕ = λ bs. elim bs [ [] ↦ 0 | b ∷ _ ↦ b ] in
    let (rest, e) =
      first_byte (width g) (b'0' + n % 10) (drop (offset g) h) v
        (omega (arith, length-drop (offset g) h, offset_bound g)) in
    rw (print_number_over (width f) n over fits) (
      ap (λ bs. first (take (width g) bs))
        (drop-memprint_append (offset f) (offset g) (fixed (width f) (n / 10))
          ((b'0' + n % 10) ∷ []) h
          (o ∙ ap (◌+◌ (offset f)) (sym (length-fixed (width f) (n / 10)))))
      ∙ ap first e)

-- A number with one digit more than its member loses its last digit, which becomes the first byte
-- of the member behind it.
pub set_number_overflow :
    (f g : Field) (n : ℕ) (h : List ℕ)
    → offset g ≡ offset f + width f
    → 0 < width f
    → 0 < width g
    → pow10 (width f) ≤ n
    → n < pow10 (suc (width f))
    → n < 4294967296
    → length h ≡ header_len
    → (get_number f (set_number f n h) ≡ n / 10) × (get_char g (set_number f n h) ≡ b'0' + n % 10)
unfolding get_number
set_number_overflow f g n h o w v over fits bound k = (
  rw (read-set_number_over f n h over fits k)
      (subint-fixed (width f) (n / 10) w (omega arith) (omega arith)),
  get_char-set_number_over f g n h o v over fits k,
)
