-- ===== src/Buffer/Contents.antt =====
-- A buffer as the sequence of its bytes.
use gmonitor.Base.{
  ℕ, zero, suc, ◌+◌, ◌≤◌, ◌≡◌, refl, ◌∙◌, false, List, [], ◌∷◌, ◌++◌, Option, none, some, arith,
  length, length-append, length-take, take-append, get_elem?-append, take_all, take, ◌==◌, c_str,
  get_elem?,
}
use mathlib.Core.List.{append-nil, append_assoc}
use gmonitor.Buffer.{GmBuffer, clear, add, add_str, add_string, set, set_str, set_string}

-- The block holds m_len bytes and a NUL; without a block the length is 0.
abbrev pub IsBlock : ℕ → Option (List ℕ) → Type 0
IsBlock len none = len ≡ 0
IsBlock len (some block) = (length block ≡ len + 1) × (get_elem? block len ≡ some 0)

abbrev pub IsValid : GmBuffer → Type 0
IsValid b = IsBlock b.m_len b.m_buffer

abbrev pub block_bytes : ℕ → Option (List ℕ) → List ℕ
block_bytes len none = []
block_bytes len (some block) = take len block

-- The bytes that the buffer stands for.
abbrev pub bytes : GmBuffer → List ℕ
bytes b = block_bytes b.m_len b.m_buffer

-- A block made of some bytes and a NUL.
sealed_block :
    (n : ℕ) (xs ys : List ℕ)
    → n ≡ length xs + length ys
    → (length (xs ++ (ys ++ 0 ∷ [])) ≡ n + 1)
      × (get_elem? (xs ++ (ys ++ 0 ∷ [])) n ≡ some 0)
      × (take n (xs ++ (ys ++ 0 ∷ [])) ≡ xs ++ ys)
sealed_block n xs ys h =
    let size = length-append xs ys in
    rw (← append_assoc xs ys (0 ∷ [])) (
      omega (arith, size, length-append (xs ++ ys) (0 ∷ [])),
      get_elem?-append n (xs ++ ys) 0 [] (omega (arith, size)),
      take-append n (xs ++ ys) (0 ∷ []) (omega (arith, size)),
    )

suc-ne-zero : (n : ℕ) → (suc n == 0) ≡ false
suc-ne-zero n = ground arith

add_parts :
    (n : ℕ) (m : Option (List ℕ)) (ptr : List ℕ) (len : ℕ)
    → IsBlock n m
    → len ≤ length ptr
    → let b : GmBuffer = record { m_len = n; m_buffer = m } in
      IsValid (add b (some ptr) len) × (bytes (add b (some ptr) len) ≡ bytes b ++ take len ptr)
unfolding add
add_parts n m ptr zero v h = (v, rw append-nil)
add_parts n none ptr (suc len) v h =
    let (size, seal, whole) =
      sealed_block (suc len) [] (take (suc len) ptr) (omega (arith, length-take (suc len) ptr)) in
    rw (suc-ne-zero len) ((size, seal), whole)
add_parts n (some block) ptr (suc len) v h =
    let (size, seal, whole) =
      sealed_block (n + suc len) (take n block) (take (suc len) ptr)
        (omega (arith, length-take (suc len) ptr, length-take n block)) in
    rw (suc-ne-zero len) ((size, seal), whole)

-- Add appends the bytes that it is given, and keeps the length and the final NUL right.
pub add-bytes :
    (b : GmBuffer) (ptr : List ℕ) (len : ℕ)
    → IsValid b
    → len ≤ length ptr
    → IsValid (add b (some ptr) len) × (bytes (add b (some ptr) len) ≡ bytes b ++ take len ptr)
add-bytes b ptr len v h = add_parts b.m_len b.m_buffer ptr len v h

clear_parts :
    (n : ℕ) (m : Option (List ℕ))
    → IsBlock n m
    → let b : GmBuffer = record { m_len = n; m_buffer = m } in
      IsValid (clear b) × (bytes (clear b) ≡ [])
unfolding clear
clear_parts n none v = (v, refl)
clear_parts n (some block) v = (refl, refl)

-- Set replaces the bytes, whatever the buffer held: by the first `len` bytes of a block, by a whole
-- C string, by a std::string up to its first NUL.
pub set-bytes :
    (b : GmBuffer) (ptr : List ℕ) (len : ℕ)
    → IsValid b
    → len ≤ length ptr
    → IsValid (set b (some ptr) len)
      × (bytes (set b (some ptr) len) ≡ take len ptr)
      × (bytes (set_str b ptr) ≡ ptr)
      × (bytes (set_string b ptr) ≡ c_str ptr)
unfolding set set_str set_string add_string add_str
set-bytes b ptr len v h =
    let (empty, gone) = clear_parts b.m_len b.m_buffer v in
    let (ok, now) = add-bytes (clear b) ptr len empty h in
    let whole = add-bytes (clear b) ptr (length ptr) empty (omega arith) in
    let cut = add-bytes (clear b) (c_str ptr) (length (c_str ptr)) empty (omega arith) in
    (ok, now ∙ rw gone, whole.1 ∙ rw gone (take_all ptr), cut.1 ∙ rw gone (take_all (c_str ptr)))
