-- ===== src/Wire.antt =====
-- The connection of a client (system/client/gmc.cc, system/shared/ctcp.h): what is at the other end
-- of a socket, what Receive returns of it, and the codes by which the client reports it.
use gmonitor.Base.{
  ℕ, zero, suc, List, [], ◌∷◌, ◌++◌, ◌==◌, ltb, if◌then◌else◌, ℤ, pos, negsuc, length,
}
use gmonitor.Service.{gme_ok, gme_undefined}

-- The codes of gmerror.h.
abbrev pub gme_host_notfound : ℕ
gme_host_notfound = 7

abbrev pub gme_invalid_host : ℕ
gme_invalid_host = 8

abbrev pub gme_not_connected : ℕ
gme_not_connected = 9

abbrev pub gme_comm_error : ℕ
gme_comm_error = 10

abbrev pub gme_invalid_header : ℕ
gme_invalid_header = 13

abbrev pub gme_tran_not_allowed : ℕ
gme_tran_not_allowed = 19

abbrev pub gme_invalid_tran : ℕ
gme_invalid_tran = 21

abbrev pub gme_tran_not_init : ℕ
gme_tran_not_init = 22

-- What is at the other end of a socket: the answer of Connect, the answer of Send for the bytes
-- that are sent, the blocks that Receive returns behind it, and what it returns when none is left.
pub record Peer : Type 0 where
  pub connect_rc : ℤ
  pub send_rc : List ℕ → ℤ
  pub replies : List ℕ → List (List ℕ)
  pub no_more : ℤ

pub record Socket : Type 0 where
  pub peer : Peer
  pub arrived : List (List ℕ)

-- The codes for the answers of CTcp (ctcp.h): CTCP_HOST_NOT_FOUND is -2, _ADDRESS_NOT_FOUND -3,
-- _WRITE_ERROR -5, _NOT_CONNECTED -7.
unfoldable pub connect_code : ℤ → ℕ
connect_code (pos zero) = gme_ok
connect_code (pos (suc n)) = gme_undefined
connect_code (negsuc n) =
    if n == 1 then gme_host_notfound else if n == 2 then gme_invalid_host else gme_undefined

unfoldable pub error_code : ℤ → ℕ
error_code (pos n) = gme_undefined
error_code (negsuc n) =
    if n == 6 then gme_not_connected else if n == 4 then gme_comm_error else gme_undefined

unfoldable pub send_code : ℤ → ℕ
unfolding error_code
send_code (pos zero) = gme_ok
send_code (pos (suc n)) = gme_undefined
send_code (negsuc n) = error_code (negsuc n)

-- The loop of Recv: it goes on until Receive returns nothing or less than it may.
unfoldable pub collect : ℕ → List (List ℕ) → List ℕ
collect n [] = []
collect n (b ∷ bs) = let rest = collect n bs in b ++ (if ltb (length b) n then [] else rest)
