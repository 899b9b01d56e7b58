-- ===== src/Header/Checks.antt =====
-- The checks of SetHeader and the writes that keep them satisfied.
use gmonitor.Base.{
  ℕ, zero, suc, ◌+◌, ◌*◌, ◌-◌, ◌≤◌, ◌<◌, ◌≡◌, ◌≢◌, ap, refl, ◌∙◌, List, [], ◌∷◌, arith, length, All,
  Bool, true, ◌&&◌, take, some, str_eq, codes, length-take, pos, length-drop, take_all, subst, drop,
  get_elem?,
}
use native.Mathlib.Decide.{ℕ_discrete}
use gmonitor.GmString.{pow10, is_digit, digits_value, atol, subint, sublong}
use gmonitor.GmString.Digits.{AllDigits, atol_digits}
use gmonitor.Header.{
  Field, number, width, offset, read, write, header_len, get_number, get_long, all_digits,
  digits_in, digit_fields, version_header, tipo_mensaje, get_char, is_type, is_accepted,
}
use gmonitor.Header.Layout.{
  read-write, read-write_other, length-write, number_injective, offset_bound,
}

pub all_digits-AllDigits : (cs : List ℕ) → AllDigits cs → all_digits cs ≡ true
unfolding all_digits
all_digits-AllDigits [] a = refl
all_digits-AllDigits (c ∷ cs) a = rw a.0 (all_digits-AllDigits cs a.1)

AllDigits-all_digits : (cs : List ℕ) → all_digits cs ≡ true → AllDigits cs
unfolding all_digits
AllDigits-all_digits [] a = tt
AllDigits-all_digits (c ∷ cs) a =
    let first : is_digit c ≡ true = ground arith in (first, AllDigits-all_digits cs (ground arith))

and_three : {a b c : Bool} → (a && (b && c)) ≡ true → (a ≡ true) × (b ≡ true) × (c ≡ true)
and_three h = (ground arith, ground arith, ground arith)

-- A header that passes all checks but the one of its type.
pub record IsNumbered (h : List ℕ) : Type 0 where
  pub sized : length h ≡ header_len
  pub version : str_eq (read version_header h) (codes "000") ≡ true
  pub digits : digits_in digit_fields h ≡ true

digits_in-write :
    (f : Field) (bs h : List ℕ)
    → length bs ≡ width f
    → length h ≡ header_len
    → all_digits bs ≡ true
    → (gs : List Field) → digits_in gs h ≡ true
    → digits_in gs (write f bs h) ≡ true
unfolding digits_in
digits_in-write f bs h e k a [] d = refl
digits_in-write f bs h e k a (g ∷ gs) d = elim (ℕ_discrete (number f) (number g)) [
  | yes same ↦
      let written : read g (write f bs h) ≡ bs =
        subst (λ x. read x (write f bs h) ≡ bs) (number_injective f g same)
          (read-write f bs h e k) in
      ground (arith, digits_in-write f bs h e k a gs)
  | no other ↦ ground (
    arith,
    read-write_other f g bs h (λ s. other (ap number s)) e,
    digits_in-write f bs h e k a gs,
  )
]

digits_in-write_other :
    (f : Field) (bs h : List ℕ)
    → length bs ≡ width f
    → (gs : List Field) → All (λ g. f ≢ g) gs
    → digits_in gs (write f bs h) ≡ digits_in gs h
unfolding digits_in
digits_in-write_other f bs h e [] a = refl
digits_in-write_other f bs h e (g ∷ gs) a =
    rw (read-write_other f g bs h a.0 e, digits_in-write_other f bs h e gs a.1) refl

-- Digits may be written to any member but the version.
pub write-IsNumbered :
    (f : Field) (bs h : List ℕ)
    → f ≢ version_header
    → length bs ≡ width f
    → AllDigits bs
    → IsNumbered h
    → IsNumbered (write f bs h)
write-IsNumbered f bs h v e a n = record {
  sized = length-write f bs h ∙ n.sized;
  version = rw (read-write_other f version_header bs h v e) n.version;
  digits = digits_in-write f bs h e n.sized (all_digits-AllDigits bs a) digit_fields n.digits;
}

-- Anything may be written to the members that are not checked.
pub write-IsNumbered_other :
    (f : Field) (bs h : List ℕ)
    → f ≢ version_header
    → All (λ g. f ≢ g) digit_fields
    → length bs ≡ width f
    → IsNumbered h
    → IsNumbered (write f bs h)
write-IsNumbered_other f bs h v d e n = record {
  sized = length-write f bs h ∙ n.sized;
  version = rw (read-write_other f version_header bs h v e) n.version;
  digits = digits_in-write_other f bs h e digit_fields d ∙ n.digits;
}

pub is_accepted-IsNumbered :
    (h : List ℕ) → length h ≡ header_len → is_accepted h ≡ true → IsNumbered h
unfolding is_accepted
is_accepted-IsNumbered h k a =
    let (v, _, d) = and_three a in record { sized = k; version = v; digits = d }

-- With a type of the protocol it passes all.
pub IsNumbered-is_accepted :
    (h : List ℕ) → is_type (get_char tipo_mensaje h) ≡ true → IsNumbered h → is_accepted h ≡ true
unfolding is_accepted
IsNumbered-is_accepted h t n = rw (n.version, t, n.digits) refl

digit_bound : (c : ℕ) → is_digit c ≡ true → c - b'0' ≤ 9
digit_bound c h = ground arith

digits_value-lt :
    (cs : List ℕ) (n : ℕ) → AllDigits cs → digits_value n cs < (n + 1) * pow10 (length cs)
unfolding digits_value
digits_value-lt [] n a = omega arith
digits_value-lt (c ∷ cs) n a =
    rw a.0 (grind (arith, digit_bound c a.0, digits_value-lt cs (n * 10 + (c - b'0')) a.1))

-- A member of digits.
AllDigits-read :
    (f : Field) (h : List ℕ) (gs : List Field) (i : ℕ)
    → get_elem? gs i ≡ some f
    → digits_in gs h ≡ true
    → AllDigits (read f h)
unfolding digits_in
AllDigits-read f h [] i e d = cc
AllDigits-read f h (g ∷ gs) zero e d =
    let same : g ≡ f = ground arith in
    subst (λ x. AllDigits (read x h)) same (AllDigits-all_digits (read g h) (ground arith))
AllDigits-read f h (g ∷ gs) (suc i) e d = AllDigits-read f h gs i e (ground arith)

length-read : (f : Field) (h : List ℕ) → length h ≡ header_len → length (read f h) ≡ width f
unfolding read
length-read f h k =
    omega
      (arith, length-take (width f) (drop (offset f) h), length-drop (offset f) h, offset_bound f)

whole_lem :
    (cs ds : List ℕ) → cs ≡ ds → 0 < length ds → AllDigits ds → atol cs ≡ pos (digits_value 0 ds)
whole_lem cs ds e h a = rw e (atol_digits ds h a)

atol-read :
    (f : Field) (h : List ℕ) (i : ℕ)
    → 0 < width f
    → IsNumbered h
    → get_elem? digit_fields i ≡ some f
    → (n : ℕ) × (atol (take (width f) (read f h)) ≡ pos n) × (n < pow10 (width f))
atol-read f h i w n e =
    let a = AllDigits-read f h digit_fields i e n.digits in
    let l = length-read f h n.sized in
    let whole : take (width f) (read f h) ≡ read f h =
      subst (λ k. take k (read f h) ≡ read f h) l (take_all (read f h)) in
    let below : digits_value 0 (read f h) < (0 + 1) * pow10 (width f) =
      subst (λ k. digits_value 0 (read f h) < (0 + 1) * pow10 k) l
        (digits_value-lt (read f h) 0 a) in
    (
      digits_value 0 (read f h),
      whole_lem (take (width f) (read f h)) (read f h) whole (omega arith) a,
      omega arith,
    )

-- What the numbers of an accepted header can be.
pub get_number-lt :
    (f : Field) (h : List ℕ) (i : ℕ)
    → 0 < width f
    → IsNumbered h
    → get_elem? digit_fields i ≡ some f
    → (get_number f h < pow10 (width f)) × (get_number f h < 4294967296)
unfolding get_number subint
get_number-lt f h i w n e =
    let (v, reads, below) = atol-read f h i w n e in (ground arith, ground arith)

pub get_long-lt :
    (f : Field) (h : List ℕ) (i : ℕ)
    → 0 < width f
    → IsNumbered h
    → get_elem? digit_fields i ≡ some f
    → (get_long f h < pow10 (width f)) × (get_long f h < 18446744073709551616)
unfolding get_long sublong
get_long-lt f h i w n e =
    let (v, reads, below) = atol-read f h i w n e in (ground arith, ground arith)
