-- ===== src/Message/Transfer.antt =====
-- A message that is sent by GetMsg and taken by SetMsg.
use gmonitor.Base.{
  ℕ, zero, suc, ◌≤◌, ◌<◌, ◌≡◌, ap, refl, sym, ◌∙◌, List, [], ◌∷◌, ◌++◌, arith, length, All, some,
  success, true, false, take, drop, length-append, length-take, take_all, codes, ◌==◌, ltb, ◌||◌,
  take-append, ℤ,
}
use gmonitor.GmString.Digits.{sublong-fixed}
use gmonitor.Header.{
  Field, read, header_len, get_long, is_accepted, tam_mensaje, crc, set_header, get_char,
  tipo_mensaje, is_type,
}
use gmonitor.Header.Checks.{IsNumbered, IsNumbered-is_accepted}
use gmonitor.Message.{
  GmMessage, set_data, get_msg, set_msg, get_data, get_msg_len, call_all, Setting, of_text,
  of_number,
}
use gmonitor.Message.Settings.{Fits, read-call_all, call_all-IsNumbered, length-call_all}

pub drop-append : (xs ys : List ℕ) (n : ℕ) → n ≡ length xs → drop n (xs ++ ys) ≡ ys
drop-append [] ys zero h = refl
drop-append [] ys (suc n) h = absurd (omega arith)
drop-append (x ∷ xs) ys zero h = absurd (omega arith)
drop-append (x ∷ xs) ys (suc n) h = drop-append xs ys n (omega arith)

pub not_zero : (n : ℕ) → 0 < n → (n == 0) ≡ false
not_zero n h = ground arith

-- The text is put into a message, the block is sent, and another message takes it.
abbrev pub sent : List ℕ → List ℕ → GmMessage → GmMessage
sent raw d m = (set_data raw m (some d) (length d)).0

abbrev pub transferred : List ℕ → List ℕ → GmMessage → GmMessage → GmMessage × ℤ
transferred raw d m r = set_msg r (some (get_msg (sent raw d m)).0) (get_msg_len (sent raw d m))

abbrev pub message : List ℕ → List ℕ → List ℕ → GmMessage
message h block d = record { m_header = h; m_msg_buffer = block ++ d }

-- A message that is a header with a text behind it.
pub set_msg-whole :
    (h d : List ℕ) (r : GmMessage)
    → length h ≡ header_len
    → set_msg r (some (h ++ d)) (length (h ++ d)) ≡ (message h h d, success)
unfolding set_msg set_header
set_msg-whole h d r sized =
    let enough : (length (h ++ d) == 0 || ltb (length (h ++ d)) header_len) ≡ false =
      ground (arith, length-append h d) in
    rw (enough, take_all (h ++ d), take-append header_len h d (sym sized)) refl

module _ (h block d : List ℕ) (r : GmMessage) (sized : length h ≡ header_len)
    (place : length block ≡ header_len) where
  get_msg-message : (get_msg (message h block d)).0 ≡ h ++ d
  unfolding get_msg
  get_msg-message = ap (◌++◌ h) (drop-append block d header_len (sym place))

  length-message : get_msg_len (message h block d) ≡ length (h ++ d)
  length-message = omega (arith, length-append block d, length-append h d)

  pub set_msg-append :
      set_msg r (some (get_msg (message h block d)).0) (get_msg_len (message h block d))
      ≡ (message h h d, success)
  set_msg-append = rw (get_msg-message, length-message) (set_msg-whole h d r sized)

pub get_char_same : (f : Field) (h k : List ℕ) → read f h ≡ read f k → get_char f h ≡ get_char f k
unfolding get_char
get_char_same f h k e = let first : List ℕ → ℕ = λ bs. elim bs [ [] ↦ 0 | b ∷ _ ↦ b ] in ap first e

module _ (raw d : List ℕ) (m : GmMessage) (n : IsNumbered m.m_header) (filled : 0 < length d)
    (short : length d < 10000000000) (place : header_len ≤ length raw) where
  unfoldable pub settings : List Setting
  settings = of_text crc (codes "*** NULL CRC ***") ∷ of_number tam_mensaje (length d) ∷ []

  pub set_data_lem :
      set_data raw m (some d) (length d)
      ≡ (message (call_all settings m.m_header) (take header_len raw) d, success)
  unfolding set_data settings call_all
  set_data_lem = rw (not_zero (length d) filled, take_all d) refl

  pub settings-Fits : All Fits settings
  unfolding settings
  settings-Fits = (omega arith, (short, tt))

  pub header-IsNumbered : IsNumbered (call_all settings m.m_header)
  unfolding settings
  header-IsNumbered = call_all-IsNumbered settings m.m_header settings-Fits (refl, (refl, tt)) n

  get_long-tam_mensaje : get_long tam_mensaje (call_all settings m.m_header) ≡ length d
  unfolding get_long settings
  get_long-tam_mensaje =
      rw (read-call_all tam_mensaje settings m.m_header settings-Fits n.sized)
        (sublong-fixed 10 (length d) (omega arith) short (omega arith))

  length-header : length (call_all settings m.m_header) ≡ header_len
  length-header = length-call_all settings m.m_header settings-Fits ∙ n.sized

  get_char-settings :
      get_char tipo_mensaje (call_all settings m.m_header) ≡ get_char tipo_mensaje m.m_header
  unfolding settings
  get_char-settings =
      get_char_same tipo_mensaje (call_all settings m.m_header) m.m_header
        (read-call_all tipo_mensaje settings m.m_header settings-Fits n.sized)

  transferred_lem :
      (r : GmMessage)
      → transferred raw d m r
        ≡ (message (call_all settings m.m_header) (call_all settings m.m_header) d, success)
  transferred_lem r =
      ap (λ (x : GmMessage × ℤ). set_msg r (some (get_msg x.0).0) (get_msg_len x.0)) set_data_lem
      ∙ (set_msg-append (call_all settings m.m_header) (take header_len raw) d r length-header
          (omega (arith, length-take header_len raw)))

  -- A text that SetData puts into a message and that is sent as GetMsg and GetMsgLen show it is what
  -- GetData of the receiver returns after SetMsg, which succeeds; the receiver has the sender's
  -- header, its TamMensaje is the length of the text, and SetHeader's checks accept it. The text is
  -- not empty and shorter than 10^10 bytes, the sender's header has a type of the protocol, and
  -- digits and the version where they are checked, and whatever the receiver held before.
  pub set_msg-set_data :
      (r : GmMessage)
      → is_type (get_char tipo_mensaje m.m_header) ≡ true
      → ((transferred raw d m r).1 ≡ success)
        × (get_data (transferred raw d m r).0 ≡ d)
        × ((transferred raw d m r).0.m_header ≡ (sent raw d m).m_header)
        × (get_long tam_mensaje (transferred raw d m r).0.m_header ≡ length d)
        × (is_accepted (transferred raw d m r).0.m_header ≡ true)
  unfolding get_data
  set_msg-set_data r t =
      let e = transferred_lem r in
      (
        ap (λ (x : GmMessage × ℤ). x.1) e,
        ap (λ (x : GmMessage × ℤ). get_data x.0) e
            ∙ drop-append (call_all settings m.m_header) d header_len (sym length-header),
        ap (λ (x : GmMessage × ℤ). x.0.m_header) e
            ∙ sym (ap (λ (x : GmMessage × ℤ). x.0.m_header) set_data_lem),
        rw e (get_long-tam_mensaje),
        rw e (
            IsNumbered-is_accepted (call_all settings m.m_header) (rw get_char-settings t)
              header-IsNumbered),
      )
