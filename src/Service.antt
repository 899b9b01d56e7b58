-- ===== src/Service.antt =====
-- What the servers share: return codes (system/shared/gmerror.h), message types
-- (system/shared/msgtype.h), the identity of a client (system/queue/gmsbase.h), and words of a raw
-- message.
use gmonitor.Base.{ℕ, zero, suc, ◌+◌, ◌*◌, List, [], ◌∷◌, drop}

abbrev pub gme_ok : ℕ
gme_ok = 0

abbrev pub gme_undefined : ℕ
gme_undefined = 1

abbrev pub gme_msgq_timeout : ℕ
gme_msgq_timeout = 11

abbrev pub gme_msgq_error : ℕ
gme_msgq_error = 12

abbrev pub gme_svc_notfound : ℕ
gme_svc_notfound = 16

abbrev pub gme_svc_unresolved : ℕ
gme_svc_unresolved = 17

abbrev pub gme_more_data : ℕ
gme_more_data = 99

-- GM_MSG_TYPE_CR, _MSG, _INT and _NOT, and the types of their answers.
abbrev pub type_cr : ℕ
type_cr = b'C'

abbrev pub type_msg : ℕ
type_msg = b'M'

abbrev pub type_int : ℕ
type_int = b'G'

abbrev pub type_not : ℕ
type_not = b'N'

abbrev pub type_r_cr : ℕ
type_r_cr = b'R'

abbrev pub type_r_msg : ℕ
type_r_msg = b'O'

abbrev pub type_r_int : ℕ
type_r_int = b'L'

abbrev pub type_r_not : ℕ
type_r_not = b'P'

-- The identity in CLIENT_DATA.
pub record Client : Type 0 where
  pub user : List ℕ
  pub client : List ℕ
  pub key : List ℕ
  pub group : List ℕ

-- A little-endian word of `n` bytes at the front of a block.
unfoldable pub le_word : ℕ → List ℕ → ℕ
le_word zero bs = 0
le_word (suc n) [] = 0
le_word (suc n) (b ∷ bs) = b + 256 * le_word n bs

-- A field of a raw message.
abbrev pub word : ℕ → ℕ → List ℕ → ℕ
word n offset raw = le_word n (drop offset raw)
