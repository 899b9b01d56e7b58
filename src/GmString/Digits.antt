-- ===== src/GmString/Digits.antt =====
-- Numbers that are printed with a fixed number of digits and read again.
use gmonitor.Base.{
  ℕ, zero, suc, ◌+◌, ◌-◌, ◌*◌, ◌/◌, ◌%◌, ◌≤◌, ◌<◌, ◌≡◌, refl, ap, true, List, [], ◌∷◌, ◌++◌, All,
  arith, take, length, length-append, All-append, pos, take_all, subst,
}
use gmonitor.GmString.{
  is_digit, digits_value, signed_value, atol, fixed, pow10, needed, print_number, subint, sublong,
}

abbrev pub AllDigits : List ℕ → Type 0
AllDigits = All (λ c. is_digit c ≡ true)

pub length-fixed : (w n : ℕ) → length (fixed w n) ≡ w
unfolding fixed
length-fixed zero n = refl
length-fixed (suc w) n =
    omega (arith, length-append (fixed w (n / 10)) ((b'0' + n % 10) ∷ []), length-fixed w (n / 10))

last_digit : (n : ℕ) → is_digit (b'0' + n % 10) ≡ true
last_digit n = ground arith

pub fixed-AllDigits : (w n : ℕ) → AllDigits (fixed w n)
unfolding fixed
fixed-AllDigits zero n = tt
fixed-AllDigits (suc w) n =
    All-append (λ c. is_digit c ≡ true) (fixed w (n / 10)) ((b'0' + n % 10) ∷ [])
      (fixed-AllDigits w (n / 10)) (last_digit n, tt)

digits_value-append :
    (k d : ℕ) (cs : List ℕ)
    → AllDigits cs
    → is_digit d ≡ true
    → digits_value k (cs ++ d ∷ []) ≡ digits_value k cs * 10 + (d - b'0')
unfolding digits_value
digits_value-append k d [] a h = rw h refl
digits_value-append k d (c ∷ cs) a h = rw a.0 (digits_value-append (k * 10 + (c - b'0')) d cs a.1 h)

pub digits_value-fixed : (w n : ℕ) → n < pow10 w → digits_value 0 (fixed w n) ≡ n
unfolding digits_value fixed
digits_value-fixed zero n h = omega arith
digits_value-fixed (suc w) n h = omega (
  arith,
  digits_value-append 0 (b'0' + n % 10) (fixed w (n / 10)) (fixed-AllDigits w (n / 10))
      (last_digit n),
  digits_value-fixed w (n / 10) (omega arith),
)

pub needed_fits : (fuel w n : ℕ) → n < pow10 w → needed (suc fuel) w n ≡ w
unfolding needed
needed_fits fuel w n h = ground arith

-- A number that fits has as many digits as the field.
pub print_number_fits : (w n : ℕ) → n < pow10 w → print_number w n ≡ fixed w n
unfolding print_number
print_number_fits w n h = ap (λ k. fixed k n) (needed_fits 19 w n h)

-- A string of digits is a number without spaces and sign.
pub atol-AllDigits :
    (c : ℕ) (cs : List ℕ) → AllDigits (c ∷ cs) → atol (c ∷ cs) ≡ pos (digits_value 0 (c ∷ cs))
unfolding atol signed_value
atol-AllDigits c cs a = ground arith

pub atol_digits : (cs : List ℕ) → 0 < length cs → AllDigits cs → atol cs ≡ pos (digits_value 0 cs)
atol_digits [] h a = elim h [ ]
atol_digits (c ∷ cs) h a = atol-AllDigits c cs a

pub atol-fixed : (w n : ℕ) → 0 < w → n < pow10 w → atol (fixed w n) ≡ pos n
atol-fixed w n h k =
    rw (atol_digits (fixed w n) (omega (arith, length-fixed w n)) (fixed-AllDigits w n))
      (ap pos (digits_value-fixed w n k))

take-fixed : (w n : ℕ) → take w (fixed w n) ≡ fixed w n
take-fixed w n =
    subst (λ k. take k (fixed w n) ≡ fixed w n) (length-fixed w n) (take_all (fixed w n))

pub subint-fixed : (w n : ℕ) → 0 < w → n < pow10 w → n < 4294967296 → subint (fixed w n) w ≡ n
unfolding subint
subint-fixed w n h k bound = ground (arith, take-fixed w n, atol-fixed w n h k)

pub sublong-fixed :
    (w n : ℕ) → 0 < w → n < pow10 w → n < 18446744073709551616 → sublong (fixed w n) w ≡ n
unfolding sublong
sublong-fixed w n h k bound = ground (arith, take-fixed w n, atol-fixed w n h k)

needed_over : (fuel w n : ℕ) → pow10 w ≤ n → n < pow10 (suc w) → needed (suc (suc fuel)) w n ≡ suc w
unfolding needed
needed_over fuel w n h k = ground arith

-- A number with a digit more than the field.
pub print_number_over :
    (w n : ℕ)
    → pow10 w ≤ n
    → n < pow10 (suc w)
    → print_number w n ≡ fixed w (n / 10) ++ (b'0' + n % 10) ∷ []
unfolding print_number fixed
print_number_over w n h k = ap (λ v. fixed v n) (needed_over 18 w n h k)
