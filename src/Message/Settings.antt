-- ===== src/Message/Settings.antt =====
-- What a sequence of setters leaves in the header.
use gmonitor.Base.{
  ℕ, ◌≤◌, ◌<◌, ◌≡◌, ◌≢◌, ap, refl, sym, ◌∙◌, List, [], ◌∷◌, arith, length, All, ◌==◌, if◌then◌else◌,
  subst, Bool, true, not, ◌&&◌,
}
use native.Mathlib.Decide.{ℕ_discrete}
use gmonitor.GmString.{fixed, pow10, padded}
use gmonitor.GmString.Digits.{length-fixed, fixed-AllDigits, print_number_fits}
use gmonitor.GmString.Fields.{length-padded}
use gmonitor.Header.{
  Field, number, width, read, write, header_len, set_char, set_text, set_number, version_header,
  digit_fields,
}
use gmonitor.Header.Layout.{read-write, read-write_other, length-write, number_injective}
use gmonitor.Header.Checks.{IsNumbered, write-IsNumbered, write-IsNumbered_other}
use gmonitor.Message.{Setting, of_char, of_text, of_number, call, call_all}

abbrev pub member : Setting → Field
member (of_char f c) = f
member (of_text f s) = f
member (of_number f n) = f

-- The bytes that a setter leaves in its member.
abbrev pub bytes : Setting → List ℕ
bytes (of_char f c) = c ∷ []
bytes (of_text f s) = padded (width f) s
bytes (of_number f n) = fixed (width f) n

-- The value fits the member.
abbrev pub Fits : Setting → Type 0
Fits (of_char f c) = width f ≡ 1
Fits (of_text f s) = length s ≤ width f
Fits (of_number f n) = n < pow10 (width f)

length-bytes : (s : Setting) → Fits s → length (bytes s) ≡ width (member s)
length-bytes (of_char f c) h = sym h
length-bytes (of_text f s) h = length-padded (width f) s
length-bytes (of_number f n) h = length-fixed (width f) n

call_lem : (s : Setting) (h : List ℕ) → Fits s → call s h ≡ write (member s) (bytes s) h
unfolding call set_char set_text set_number
call_lem (of_char f c) h k = refl
call_lem (of_text f s) h k = ground arith
call_lem (of_number f n) h k = rw (print_number_fits (width f) n k) refl

-- The last value that the setters give a member, `bs` if there is none.
abbrev pub assigned : Field → List Setting → List ℕ → List ℕ
assigned f [] bs = bs
assigned f (s ∷ ss) bs = assigned f ss (if number f == number (member s) then bytes s else bs)

read-call :
    (f : Field) (s : Setting) (h : List ℕ)
    → Fits s
    → length h ≡ header_len
    → read f (call s h) ≡ (if number f == number (member s) then bytes s else read f h)
read-call f s h k l = rw (call_lem s h k) (elim (ℕ_discrete (number f) (number (member s))) [
  | yes same ↦
      let written : read f (write (member s) (bytes s) h) ≡ bytes s =
        subst (λ x. read x (write (member s) (bytes s) h) ≡ bytes s)
          (number_injective (member s) f (sym same))
          (read-write (member s) (bytes s) h (length-bytes s k) l) in
      ground arith
  | no other ↦ ground (
    arith,
    read-write_other (member s) f (bytes s) h (λ e. other (sym (ap number e))) (length-bytes s k),
  )
])

length-call : (s : Setting) (h : List ℕ) → Fits s → length (call s h) ≡ length h
length-call s h k = rw (call_lem s h k) (length-write (member s) (bytes s) h)

pub length-call_all :
    (ss : List Setting) (h : List ℕ) → All Fits ss → length (call_all ss h) ≡ length h
unfolding call_all
length-call_all [] h k = refl
length-call_all (s ∷ ss) h k = length-call_all ss (call s h) k.1 ∙ length-call s h k.0

pub read-call_all :
    (f : Field) (ss : List Setting) (h : List ℕ)
    → All Fits ss
    → length h ≡ header_len
    → read f (call_all ss h) ≡ assigned f ss (read f h)
unfolding call_all
read-call_all f [] h k l = refl
read-call_all f (s ∷ ss) h k l =
    read-call_all f ss (call s h) k.1 (length-call s h k.0 ∙ l)
    ∙ ap (assigned f ss) (read-call f s h k.0 l)

abbrev pub is_apart : Field → List Field → Bool
is_apart f [] = true
is_apart f (g ∷ gs) = not (number f == number g) && is_apart f gs

All-is_apart : (f : Field) (gs : List Field) → is_apart f gs ≡ true → All (λ g. f ≢ g) gs
All-is_apart f [] h = tt
All-is_apart f (g ∷ gs) h = (
  (λ e. let same : number f ≡ number g = ap number e in absurd (ground arith)),
  All-is_apart f gs (ground arith),
)

-- The setters that keep the checks of a header.
abbrev pub keeps : Setting → Bool
keeps (of_char f c) = is_apart f (version_header ∷ digit_fields)
keeps (of_text f s) = is_apart f (version_header ∷ digit_fields)
keeps (of_number f n) = is_apart f (version_header ∷ [])

abbrev pub Keeps : Setting → Type 0
Keeps s = keeps s ≡ true

call-IsNumbered :
    (s : Setting) (h : List ℕ) → Fits s → Keeps s → IsNumbered h → IsNumbered (call s h)
call-IsNumbered (of_char f c) h k p n =
    let d = All-is_apart f (version_header ∷ digit_fields) p in
    rw (call_lem (of_char f c) h k) (write-IsNumbered_other f (c ∷ []) h d.0 d.1 (sym k) n)
call-IsNumbered (of_text f s) h k p n =
    let d = All-is_apart f (version_header ∷ digit_fields) p in
    rw (call_lem (of_text f s) h k)
      (write-IsNumbered_other f (padded (width f) s) h d.0 d.1 (length-padded (width f) s) n)
call-IsNumbered (of_number f n) h k p i = rw (call_lem (of_number f n) h k) (
    write-IsNumbered f (fixed (width f) n) h (All-is_apart f (version_header ∷ []) p).0
      (length-fixed (width f) n) (fixed-AllDigits (width f) n) i)

pub call_all-IsNumbered :
    (ss : List Setting) (h : List ℕ)
    → All Fits ss
    → All Keeps ss
    → IsNumbered h
    → IsNumbered (call_all ss h)
unfolding call_all
call_all-IsNumbered [] h k p n = n
call_all-IsNumbered (s ∷ ss) h k p n =
    call_all-IsNumbered ss (call s h) k.1 p.1 (call-IsNumbered s h k.0 p.0 n)
