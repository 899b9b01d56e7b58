-- ===== src/Buffer.antt =====
-- CGMBuffer (system/shared/gmbuffer.cc): a growing byte block with a length and a final NUL.
-- A pointer that may be NULL is an Option; a pointer with a length stands for the bytes that can
-- be read from it, of which the first `len` count. Allocation is taken to succeed.
-- Format and AddFormat (vsprintf) are not modelled.
pub mod Contents
use gmonitor.Base.{
  ℕ, zero, suc, ◌+◌, ◌<◌, ◌≡◌, Bool, true, false, ◌&&◌, not, List, [], ◌∷◌, ◌++◌, Option, none,
  some, length, take, drop, ◌==◌, if◌then◌else◌, c_str,
}

pub record GmBuffer : Type 0 where
  pub m_len : ℕ
  -- The allocated block of m_len + 1 bytes.
  pub m_buffer : Option (List ℕ)

unfoldable pub new : GmBuffer
new = record { m_len = 0; m_buffer = none }

-- CGMBuffer(const void*, unsigned long)
unfoldable pub new_data : Option (List ℕ) → ℕ → GmBuffer
unfolding new
new_data none len = new
new_data (some ptr) len =
    if len == 0 then new else record { m_len = len; m_buffer = some (take len ptr ++ 0 ∷ []) }

-- CGMBuffer(const char*)
unfoldable pub new_str : Option (List ℕ) → GmBuffer
unfolding new
new_str none = new
new_str (some str) = record { m_len = length str; m_buffer = some (str ++ 0 ∷ []) }

-- CGMBuffer(string), which keeps the bytes behind a NUL.
unfoldable pub new_string : List ℕ → GmBuffer
new_string s = record { m_len = length s; m_buffer = some (s ++ 0 ∷ []) }

unfoldable pub clear : GmBuffer → GmBuffer
clear b = elim b.m_buffer [ none ↦ b | some _ ↦ record { m_len = 0; m_buffer = none } ]

-- Add(const void*, unsigned long)
unfoldable pub add : GmBuffer → Option (List ℕ) → ℕ → GmBuffer
add b none len = b
add b (some ptr) len = if len == 0 then b else elim b.m_buffer [
  | none ↦ record { m_len = len; m_buffer = some (take len ptr ++ 0 ∷ []) }
  | some block ↦ record {
    m_len = b.m_len + len;
    m_buffer = some (take b.m_len block ++ (take len ptr ++ 0 ∷ []));
  }
]

-- Add(const char*)
unfoldable pub add_str : GmBuffer → List ℕ → GmBuffer
unfolding add
add_str b str = add b (some str) (length str)

-- Add(CGMBuffer)
unfoldable pub add_buffer : GmBuffer → GmBuffer → GmBuffer
unfolding add
add_buffer b other = add b other.m_buffer other.m_len

-- Add(string), which goes through `c_str()`.
unfoldable pub add_string : GmBuffer → List ℕ → GmBuffer
unfolding add_str c_str
add_string b s = add_str b (c_str s)

-- Set(const void*, unsigned long)
unfoldable pub set : GmBuffer → Option (List ℕ) → ℕ → GmBuffer
unfolding clear add
set b ptr len = add (clear b) ptr len

unfoldable pub set_str : GmBuffer → List ℕ → GmBuffer
unfolding clear add_str
set_str b str = add_str (clear b) str

unfoldable pub set_buffer : GmBuffer → GmBuffer → GmBuffer
unfolding clear add_buffer
set_buffer b other = add_buffer (clear b) other

unfoldable pub set_string : GmBuffer → List ℕ → GmBuffer
unfolding clear add_string
set_string b s = add_string (clear b) s

-- Length()
abbrev pub buffer_length : GmBuffer → ℕ
buffer_length b = b.m_len

-- At(idx): what can be read from the address on.
abbrev pub at : GmBuffer → ℕ → Option (List ℕ)
at b idx = elim b.m_buffer [ none ↦ none | some block ↦ some (drop idx block) ]
