-- ===== src/GmString.antt =====
-- gmstring.cc (system/shared/gmstring.cc): numbers in fields of fixed width. A field is the list
-- of its bytes; `from` is always 0 in the calls, so that the field stands for `str + from`.
pub mod Digits
pub mod Fields
use gmonitor.Base.{
  ℕ, zero, suc, ◌+◌, ◌-◌, ◌*◌, ◌/◌, ◌%◌, Bool, true, false, ◌&&◌, ◌||◌, not, List, [], ◌∷◌, ◌++◌,
  ◌==◌, ltb, leb, if◌then◌else◌, take, length, ℤ, pos, negsuc,
}

abbrev pub is_digit : ℕ → Bool
is_digit c = leb b'0' c && leb c b'9'

-- isspace() of the C locale.
abbrev pub is_space : ℕ → Bool
is_space c = c == 32 || leb 9 c && leb c 13

-- The digits at the head of a string, behind a number that was read.
unfoldable pub digits_value : ℕ → List ℕ → ℕ
digits_value n [] = n
digits_value n (c ∷ cs) =
    let rest = digits_value (n * 10 + (c - b'0')) cs in if is_digit c then rest else n

abbrev negated : ℕ → ℤ
negated zero = pos 0
negated (suc n) = negsuc n

-- The sign and the digits.
unfoldable pub signed_value : List ℕ → ℤ
unfolding digits_value
signed_value [] = pos 0
signed_value (c ∷ cs) =
    if c == b'-'
    then negated (digits_value 0 cs)
    else if c == b'+'
    then pos (digits_value 0 cs)
    else pos (digits_value 0 (c ∷ cs))

-- atol() on a string that holds no number outside the range of long.
unfoldable pub atol : List ℕ → ℤ
unfolding signed_value
atol [] = pos 0
atol (c ∷ cs) = let rest = atol cs in if is_space c then rest else signed_value (c ∷ cs)

-- The conversions to unsigned int and to unsigned long.
abbrev pub to_u32 : ℤ → ℕ
to_u32 (pos n) = n % 4294967296
to_u32 (negsuc n) = 4294967295 - n % 4294967296

abbrev pub to_u64 : ℤ → ℕ
to_u64 (pos n) = n % 18446744073709551616
to_u64 (negsuc n) = 18446744073709551615 - n % 18446744073709551616

-- `(unsigned int)subint(str, 0, len)`: atoi() is (int)strtol().
unfoldable pub subint : List ℕ → ℕ → ℕ
unfolding atol
subint str len = if len == 0 then 0 else to_u32 (atol (take len str))

-- `(unsigned long)sublong(str, 0, len)`
unfoldable pub sublong : List ℕ → ℕ → ℕ
unfolding atol
sublong str len = if len == 0 then 0 else to_u64 (atol (take len str))

-- The last `w` decimal digits of a number.
unfoldable pub fixed : ℕ → ℕ → List ℕ
fixed zero n = []
fixed (suc w) n = fixed w (n / 10) ++ (b'0' + n % 10) ∷ []

abbrev pub pow10 : ℕ → ℕ
pow10 zero = 1
pow10 (suc w) = 10 * pow10 w

-- The width that a number takes in a field of `w` digits; a number has at most 20 digits.
unfoldable pub needed : ℕ → ℕ → ℕ → ℕ
needed zero w n = w
needed (suc fuel) w n = let rest = needed fuel (suc w) n in if ltb n (pow10 w) then w else rest

-- The output of the formats "%0wu" and "%0wlu", which does not cut a number.
unfoldable pub print_number : ℕ → ℕ → List ℕ
unfolding fixed needed
print_number w n = fixed (needed 20 w n) n

-- The output of "%-w.ws" for a string.
unfoldable pub padded : ℕ → List ℕ → List ℕ
padded zero s = []
padded (suc w) [] = b' ' ∷ padded w []
padded (suc w) (c ∷ s) = c ∷ padded w s

-- memprint copies what a format prints to a place of a block, without a final NUL; what would
-- come to stand behind the block is dropped.
unfoldable pub overwrite : List ℕ → List ℕ → List ℕ
overwrite [] bs = []
overwrite (x ∷ xs) [] = x ∷ xs
overwrite (x ∷ xs) (b ∷ bs) = b ∷ overwrite xs bs

unfoldable pub memprint : ℕ → List ℕ → List ℕ → List ℕ
unfolding overwrite
memprint zero bs block = overwrite block bs
memprint (suc at) bs [] = []
memprint (suc at) bs (x ∷ block) = x ∷ memprint at bs block

-- split(s, sep): the parts between the separators, the last one behind the loop.
unfoldable pub split_from : ℕ → List ℕ → List ℕ → List (List ℕ)
split_from sep ss [] = ss ∷ []
split_from sep ss (c ∷ cs) =
    if c == sep then ss ∷ split_from sep [] cs else split_from sep (ss ++ c ∷ []) cs

unfoldable pub split : ℕ → List ℕ → List (List ℕ)
unfolding split_from
split sep s = split_from sep [] s
