-- ===== src/Header/Access.antt =====
-- The accessors of CGMHeader: what a setter stores is what the getter returns.
use gmonitor.Base.{
  ℕ, zero, suc, ◌+◌, ◌≤◌, ◌<◌, ◌≡◌, ◌≢◌, List, [], ◌∷◌, arith, length, All, length-take, drop, some,
  c_str, lt→ltb, refl, success,
}
use gmonitor.GmString.{fixed, pow10, print_number, padded}
use gmonitor.GmString.Digits.{length-fixed, print_number_fits, subint-fixed, sublong-fixed}
use gmonitor.GmString.Fields.{length-padded}
use gmonitor.Header.{
  Field, width, offset, read, header_len, get_number, get_long, set_number, get_text, set_text,
  before_space,
}
use gmonitor.Header.Layout.{read-write, read-write_other, length-write}

module _ (f : Field) (n : ℕ) (h : List ℕ) (fits : n < pow10 (width f)) where
  pub read-set_number : length h ≡ header_len → read f (set_number f n h) ≡ fixed (width f) n
  unfolding set_number
  read-set_number k =
      rw (print_number_fits (width f) n fits)
        (read-write f (fixed (width f) n) h (length-fixed (width f) n) k)

  pub read-set_number_other : (g : Field) → f ≢ g → read g (set_number f n h) ≡ read g h
  unfolding set_number
  read-set_number_other g d =
      rw (print_number_fits (width f) n fits)
        (read-write_other f g (fixed (width f) n) h d (length-fixed (width f) n))

pub length-set_number : (f : Field) (n : ℕ) (h : List ℕ) → length (set_number f n h) ≡ length h
unfolding set_number
length-set_number f n h = length-write f (print_number (width f) n) h

pub get_number-set_number :
    (f : Field) (n : ℕ) (h : List ℕ)
    → 0 < width f
    → n < pow10 (width f)
    → n < 4294967296
    → length h ≡ header_len
    → get_number f (set_number f n h) ≡ n
unfolding get_number
get_number-set_number f n h w fits bound k =
    rw (read-set_number f n h fits k) (subint-fixed (width f) n w fits bound)

get_long-set_number :
    (f : Field) (n : ℕ) (h : List ℕ)
    → 0 < width f
    → n < pow10 (width f)
    → n < 18446744073709551616
    → length h ≡ header_len
    → get_long f (set_number f n h) ≡ n
unfolding get_long
get_long-set_number f n h w fits bound k =
    rw (read-set_number f n h fits k) (sublong-fixed (width f) n w fits bound)

-- A byte that neither ends a string nor is a space.
abbrev pub IsPlain : List ℕ → Type 0
IsPlain = All (λ c. (c ≢ 0) × (c ≢ b' '))

-- What is read from a text is such a string, and not longer than the member.
before_space-IsPlain : (s : List ℕ) → IsPlain (before_space (c_str s))
unfolding before_space c_str
before_space-IsPlain [] = tt
before_space-IsPlain (c ∷ s) = ground (arith, before_space-IsPlain s)

length-before_space : (s : List ℕ) → length (before_space (c_str s)) ≤ length s
unfolding before_space c_str
length-before_space [] = omega arith
length-before_space (c ∷ s) = ground (arith, length-before_space s)

pub get_text-IsPlain : (f : Field) (h : List ℕ) → IsPlain (get_text f h)
unfolding get_text
get_text-IsPlain f h = before_space-IsPlain (read f h)

pub length-get_text : (f : Field) (h : List ℕ) → length (get_text f h) ≤ width f
unfolding get_text read
length-get_text f h =
    omega (arith, length-before_space (read f h), length-take (width f) (drop (offset f) h))

cut_spaces : (w : ℕ) → before_space (c_str (padded w [])) ≡ []
unfolding before_space c_str padded
cut_spaces zero = refl
cut_spaces (suc w) = refl

pub cut-padded :
    (w : ℕ) (s : List ℕ) → length s ≤ w → IsPlain s → before_space (c_str (padded w s)) ≡ s
unfolding before_space c_str padded
cut-padded w [] h a = cut_spaces w
cut-padded zero (c ∷ s) h a = elim h [ ]
cut-padded (suc w) (c ∷ s) h a = ground (arith, cut-padded w s (omega arith) a.1)

get_text-set_text :
    (f : Field) (s h : List ℕ)
    → length s ≤ width f
    → IsPlain s
    → length h ≡ header_len
    → get_text f (set_text f (some s) h).0 ≡ s
unfolding get_text set_text
get_text-set_text f s h l a k =
    rw
      (
        lt→ltb (length s) (width f + 1) (omega arith),
        read-write f (padded (width f) s) h (length-padded (width f) s) k,
      )
      (cut-padded (width f) s l a)

-- A setter of a number below 2^32 that fits the member, in a header of the full length: both
-- getters of numbers return it, and every other member stays.
pub set_number_roundtrip :
    (f g : Field) (n : ℕ) (h : List ℕ)
    → f ≢ g
    → 0 < width f
    → n < pow10 (width f)
    → n < 4294967296
    → length h ≡ header_len
    → (get_number f (set_number f n h) ≡ n)
      × (get_long f (set_number f n h) ≡ n)
      × (read g (set_number f n h) ≡ read g h)
set_number_roundtrip f g n h d w fits bound k = (
  get_number-set_number f n h w fits bound k,
  get_long-set_number f n h w fits (omega arith) k,
  read-set_number_other f n h fits g d,
)

-- A setter of a text without NUL and space, not longer than the member, succeeds; the getter
-- returns the text, and every other member stays.
pub set_text_roundtrip :
    (f g : Field) (s h : List ℕ)
    → f ≢ g
    → length s ≤ width f
    → IsPlain s
    → length h ≡ header_len
    → ((set_text f (some s) h).1 ≡ success)
      × (get_text f (set_text f (some s) h).0 ≡ s)
      × (read g (set_text f (some s) h).0 ≡ read g h)
unfolding set_text
set_text_roundtrip f g s h d l a k = (
  rw (lt→ltb (length s) (width f + 1) (omega arith)) refl,
  get_text-set_text f s h l a k,
  rw (lt→ltb (length s) (width f + 1) (omega arith))
      (read-write_other f g (padded (width f) s) h d (length-padded (width f) s)),
)
