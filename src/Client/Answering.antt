-- ===== src/Client/Answering.antt =====
-- The answer that a client receives.
use gmonitor.Base.{
  ℕ, ◌≤◌, ◌<◌, ◌≡◌, Bool, true, ◌||◌, List, [], ◌∷◌, ◌++◌, Option, none, some, ℤ, pos, length, ◌==◌,
}
use gmonitor.Service.{gme_ok, gme_more_data, type_r_cr, type_r_int}
use gmonitor.Header.{header_len, get_char, get_number, tipo_mensaje, codigo_retorno}
use gmonitor.Wire.{Peer, Socket}
use gmonitor.Client.Connecting.{joined}
use gmonitor.Client.{GmClient, Machine}

-- A peer that takes every message and answers with the same blocks.
abbrev pub answering : List (List ℕ) → ℤ → Peer
answering blocks last = record {
  connect_rc = pos 0;
  send_rc = λ _. pos 0;
  replies = λ _. blocks;
  no_more = last;
}

-- Blocks of `n` bytes, the last of them perhaps shorter, and none empty.
pub data IsCut (n : ℕ) : List (List ℕ) → Type 0 where
  last_block : (b : List ℕ) → 0 < length b → length b ≤ n → IsCut n (b ∷ [])
  full_block :
      (b : List ℕ) (bs : List (List ℕ))
      → 0 < length b
      → length b ≡ n
      → IsCut n bs
      → IsCut n (b ∷ bs)

-- The header of an answer with text.
abbrev pub is_kind : ℕ → Bool
is_kind tipo = tipo == type_r_cr || tipo == type_r_int

abbrev pub is_fine : ℕ → Bool
is_fine rc = rc == gme_ok || rc == gme_more_data

-- What the caller gets: the text and the code of the answer, and the socket is closed.
abbrev pub Handed : List ℕ → ℕ → Option (GmClient × (List ℕ × ℕ)) → Type 0
Handed text rc none = ⊥
Handed text rc (some r) = (r.1 ≡ (text, rc)) × (r.0.m_socket ≡ none)

module _ (e : Machine) (blocks : List (List ℕ)) (last : ℤ) where
  -- The socket behind Connect, and behind Send.
  abbrev at_peer : List (List ℕ) → Socket
  at_peer bs = record { peer = answering blocks last; arrived = bs }

  -- What Send comes to, and what is on the socket.
  abbrev Arrives : GmClient × ℕ → Type 0
  Arrives r = (r.1 ≡ gme_ok) × (r.0.m_socket ≡ some (at_peer blocks)) × (r.0.m_indice_mensaje ≡ 0)

  module _ (h d : List ℕ) (sized : length h ≡ header_len) (fits : length d ≤ e.comm_msg_len)
      (kind : is_kind (get_char tipo_mensaje h) ≡ true)
      (fine : is_fine (get_number codigo_retorno h) ≡ true) (cut : IsCut e.comm_msg_len blocks)
      (whole : joined blocks ≡ h ++ d) where
    abbrev Fulfils : Option (GmClient × (List ℕ × ℕ)) → Type 0
    Fulfils = Handed d (get_number codigo_retorno h)
