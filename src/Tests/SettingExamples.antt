-- ===== src/Tests/SettingExamples.antt =====
-- The theorems about the settings, at concrete inputs. Numbers are printed as that many ones.
use celo_desktop_app.Base.{
  Bool, if◌then◌else◌, not, ◌&&◌, is_empty, ℕ, zero, suc, ◌+◌, ◌%◌, ◌≡◌, List, refl, ap, true,
  false, some, [], ◌∷◌, ◌++◌, arith, length, get_elem?,
}
use celo_desktop_app.Base.Int.{ℤ, pos, negsuc, eqb_ℤ}
use celo_desktop_app.Base.Text.{Text, codes, ◌=text◌}
use celo_desktop_app.Common.{Qt}
use celo_desktop_app.Auth.Types.{AServer, Account, no_server}
use celo_desktop_app.Auth.Servers.{current_encryption_servers}
use celo_desktop_app.Setting.Store.{
  bool_value, Variant, int_value, text_value, Conversions, Converts, Preferences, find,
}
use celo_desktop_app.Setting.Protocols.{rsa_protocols, rsa_ports, current_protocol, port}
use celo_desktop_app.Setting.Ports.{switch_times, switch_times_lem}
use celo_desktop_app.Setting.Choices.{Numbers}
use celo_desktop_app.Setting.Servers.{server_id, switch_to_next_node}
use celo_desktop_app.Setting.Nodes.{kind, switch_to_next_node_lem}
use celo_desktop_app.Tests.{ascii}

abbrev pub ones : ℕ → Text
ones zero = []
ones (suc n) = b'1' ∷ ones n

abbrev pub magnitude : ℤ → ℕ
magnitude (pos n) = n
magnitude (negsuc n) = n

abbrev pub unary : Qt
unary = record ascii { number = λ n. ones (magnitude n) }

abbrev pub as_int : Variant → ℤ
as_int (int_value n) = n
as_int (text_value t) = pos 0
as_int (bool_value b) = if b then pos 1 else pos 0

abbrev pub as_text : Variant → Text
as_text (int_value n) = ones (magnitude n)
as_text (text_value t) = t
as_text (bool_value b) = if b then codes "true" else codes "false"

abbrev pub as_bool : Variant → Bool
as_bool (int_value n) = not (eqb_ℤ n (pos 0))
as_bool (text_value t) = not (is_empty t) && not (t =text codes "false")
as_bool (bool_value b) = b

abbrev pub conversions : Conversions
conversions = record {
  to_int = as_int;
  to_text = as_text;
  to_bool = as_bool;
  to_uint = λ t. some (length t);
}

length-ones : (n : ℕ) → length (ones n) ≡ n
length-ones zero = refl
length-ones (suc n) = ap suc (length-ones n)

pub conversions-Converts : Converts conversions unary.number
conversions-Converts = record {
  int_int = λ n. refl;
  text_text = λ t. refl;
  bool_bool = λ b. refl;
  uint_number = λ n _. ap some (length-ones n);
}

ones_defined : (n : ℕ) → (ones n =text codes "undefined") ≡ false
ones_defined zero = refl
ones_defined (suc n) = refl

pub unary-Numbers : Numbers unary
unary-Numbers = record { to_int_empty = refl; number_defined = ones_defined }

-- The second protocol is chosen.
abbrev pub chosen : Preferences
chosen = record {
  settings =
      (codes "dd_Protocol_ix", int_value (pos 1))
      ∷ (codes "e_Ports", text_value (codes "80,22"))
      ∷ [];
  protocols = rsa_protocols;
  ports = rsa_ports;
  loading = false;
  signals = [];
}

switch_times_lem_example :
    (current_protocol conversions (switch_times conversions 5 chosen).1 ≡ pos ((1 + 5) % 3))
    × (port conversions (switch_times conversions 5 chosen).1 ≡ get_elem? rsa_ports ((1 + 5) % 3))
unfolding current_protocol find
switch_times_lem_example =
    switch_times_lem conversions unary.number conversions-Converts 5 1 chosen
      (record { names = refl; numbers = refl; idle = refl }) refl (omega arith)

abbrev pub node : Text → AServer
node name = record no_server { address = name; name = name }

abbrev pub account : Account
account = record {
  servers = node (codes "a") ∷ node (codes "b") ∷ node (codes "c") ∷ [];
  logged_in = true;
  cancelling_login = false;
  server_ids = pos 0 ∷ pos 1 ∷ pos 2 ∷ [];
  name_to_id = [];
  new_ip = [];
  old_ip = [];
  ip_attempts = 0;
  tcp_server_ids = pos 1 ∷ [];
  udp_server_ids = pos 2 ∷ pos 0 ∷ pos 1 ∷ [];
  vpn_login = codes "me";
  vpn_password = codes "pw";
}

switch_to_next_node_lem_example :
    ((j : ℤ) (rest : List ℤ)
      → current_encryption_servers account (kind unary conversions chosen)
        ≡ (pos 2 ∷ []) ++ (server_id unary conversions account chosen ∷ j ∷ rest)
      → server_id unary conversions account (switch_to_next_node unary conversions account chosen).1
        ≡ j)
    × (current_encryption_servers account (kind unary conversions chosen)
          ≡ (pos 2 ∷ []) ++ (server_id unary conversions account chosen ∷ [])
        → (switch_to_next_node unary conversions account chosen).1 ≡ chosen)
unfolding server_id find
switch_to_next_node_lem_example =
    switch_to_next_node_lem unary conversions account conversions-Converts chosen (pos 2 ∷ [])
      (record { names = refl; numbers = refl; idle = refl }) (refl, tt)
