-- ===== src/Common.antt =====
-- common/common.h and common/common.cpp: the enumerations that the service and the GUI share, the
-- validity tests and the escapes. `Qt` stands for what QString and QChar take from Qt's tables:
-- number conversion and character classes.
pub mod Escape
pub mod Validity
use celo_desktop_app.Base.{
  ℕ, zero, suc, ◌+◌, ◌≡◌, Bool, true, false, ◌&&◌, Option, none, some, List, [], ◌∷◌, ◌++◌, ltb,
  ◌==◌, if◌then◌else◌, length,
}
use celo_desktop_app.Base.Int.{ℤ, pos, negsuc, leb_ℤ, ltb_ℤ, IsInt}
use celo_desktop_app.Base.Text.{Text, split_skip}

-- QChar::toCaseFolded, QChar::isDigit, QChar::isSpace, QString::toInt (`none` where `ok` is false)
-- and QString::number.
pub record Qt : Type 0 where
  pub fold : ℕ → ℕ
  pub is_digit : ℕ → Bool
  pub is_space : ℕ → Bool
  pub to_int : Text → Option ℤ
  pub number : ℤ → Text

-- QString::toInt as a value: 0 where the text is no number.
abbrev pub int_of : Option ℤ → ℤ
int_of none = pos 0
int_of (some v) = v

pub data VpnState : Type 0 where
  disconnected connecting connected total : VpnState

abbrev pub state_code : VpnState → ℕ
state_code disconnected = 0
state_code connecting = 1
state_code connected = 2
state_code total = 3

-- `st != mState` on the enumeration.
abbrev pub eqb_state : VpnState → VpnState → Bool
eqb_state a b = state_code a == state_code b

-- `enum commands`: what the GUI asks of the service, and the codes of the service's notifications.
pub data Command : Type 0 where
  get_status start stop kill_running_openvpn set_credentials netdown : Command
  status_change status_word timeout error got_ip : Command

abbrev pub command_code : Command → ℕ
command_code get_status = 0
command_code start = 1
command_code stop = 2
command_code kill_running_openvpn = 3
command_code set_credentials = 4
command_code netdown = 5
command_code status_change = 6
command_code status_word = 7
command_code timeout = 8
command_code error = 9
command_code got_ip = 10

pub data StateWord : Type 0 where
  word_connecting word_tcp_connecting word_wait word_exiting word_reconnecting word_auth : StateWord
  word_get_config word_assign_ip word_resolve word_unknown : StateWord

abbrev pub word_code : StateWord → ℕ
word_code word_connecting = 0
word_code word_tcp_connecting = 1
word_code word_wait = 2
word_code word_exiting = 3
word_code word_reconnecting = 4
word_code word_auth = 5
word_code word_get_config = 6
word_code word_assign_ip = 7
word_code word_resolve = 8
word_code word_unknown = 9

-- EscapePsw.
unfoldable pub escape_psw : Text → Text
escape_psw [] = []
escape_psw (c ∷ cs) =
    let rest = escape_psw cs in
    if c == b'\\' then b'\\' ∷ b'\\' ∷ rest else if c == b'"' then b'\\' ∷ b'"' ∷ rest else c ∷ rest

-- escapeSpaces.
unfoldable pub escape_spaces : Text → Text
escape_spaces [] = []
escape_spaces (c ∷ cs) =
    let rest = escape_spaces cs in if c == b' ' then b'\\' ∷ b' ' ∷ rest else c ∷ rest

-- QString::count(c).
unfoldable pub count_unit : ℕ → Text → ℕ
count_unit c [] = 0
count_unit c (x ∷ xs) = (if x == c then 1 else 0) + count_unit c xs

module _ (qt : Qt) where
  -- A number that the loop of IsValidIp accepts.
  unfoldable pub is_octet : Option ℤ → Bool
  is_octet none = false
  is_octet (some v) = leb_ℤ (pos 0) v && leb_ℤ v (pos 255)

  -- The loop over the four parts: it stops at the first that is refused.
  unfoldable pub octets_ok : List Text → Bool
  octets_ok [] = true
  octets_ok (w ∷ ws) = let rest = octets_ok ws in if is_octet (qt.to_int w) then rest else false

  -- IsValidIp.
  unfoldable pub is_valid_ip : Text → Bool
  unfolding octets_ok is_octet
  is_valid_ip ip =
      let ar = split_skip b'.' ip in
      if count_unit b'.' ip == 3 then if length ar == 4 then octets_ok ar else false else false

  -- IsValidPort.
  unfoldable pub is_valid_port : Text → Bool
  is_valid_port s = elim (qt.to_int s) [
    | none ↦ false
    | some v ↦ if ltb_ℤ v (pos 1) then false else if ltb_ℤ (pos 65535) v then false else true
  ]
