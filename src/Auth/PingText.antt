-- ===== src/Auth/PingText.antt =====
-- The ping process: pingCommand, formatArguments and extractPing. `Numbers` stands for
-- QString::toDouble with the cast to int, and for QString::toInt.
pub mod Average
use celo_desktop_app.Base.{
  ℕ, ◌+◌, ◌-◌, Bool, true, false, Option, none, some, List, [], ◌∷◌, ◌++◌, if◌then◌else◌, length,
}
use celo_desktop_app.Base.Int.{ℤ, negsuc}
use celo_desktop_app.Base.Text.{Text, codes, next, index_of, find_text, contains, mid, split_skip}
use celo_desktop_app.Common.{Qt}
use celo_desktop_app.Openvpn.Types.{Os, linux, darwin, windows, trimmed}

unfoldable pub ping_command : Os → Text
ping_command darwin = codes "/sbin/ping"
ping_command linux = codes "/bin/ping"
ping_command windows = codes "ping"

unfoldable pub format_arguments : Os → Text → List Text
format_arguments linux adr = codes "-c" ∷ codes "1" ∷ codes "-w" ∷ codes "1" ∷ adr ∷ []
format_arguments darwin adr = codes "-c" ∷ codes "1" ∷ codes "-t" ∷ codes "1" ∷ adr ∷ []
format_arguments windows adr = codes "-n" ∷ codes "1" ∷ codes "-w" ∷ codes "1200" ∷ adr ∷ []

abbrev pub last_line : List Text → Option Text
last_line [] = none
last_line (w ∷ []) = some w
last_line (w ∷ v ∷ ws) = last_line (v ∷ ws)

abbrev pub ping_or : Option ℤ → ℤ
ping_or none = negsuc 0
ping_or (some p) = p

module _ (qt : Qt) (to_double : Text → Option ℤ) where
  -- Between the two slashes; `from` is the place behind the first.
  abbrev pub between : Text → ℕ → Option ℕ → ℤ
  between sp from none = negsuc 0
  between sp from (some end) = ping_or (to_double (mid from (end - from) sp))

  unfoldable pub unix_ping : Text → ℤ
  unix_ping sp =
      let from = next (index_of b'/' (next (index_of b'=' 0 sp)) sp) in
      if contains sp (codes "min/avg/max")
      then between sp from (index_of b'/' from sp)
      else negsuc 0

  abbrev pub behind : Text → Option ℕ → ℤ
  behind sp none = negsuc 0
  behind sp (some e) = ping_or (qt.to_int (mid (e + 1) (length sp - (e + 1 + 2)) sp))

  abbrev pub from_average : Text → Option ℕ → ℤ
  from_average sp none = negsuc 0
  from_average sp (some a) = behind sp (index_of b'=' a sp)

  unfoldable pub windows_ping : Text → ℤ
  windows_ping sp = from_average sp (find_text (codes "Average =") sp)

  unfoldable pub ping_of_line : Os → Option Text → ℤ
  ping_of_line os none = negsuc 0
  ping_of_line linux (some line) = unix_ping (trimmed qt line)
  ping_of_line darwin (some line) = unix_ping (trimmed qt line)
  ping_of_line windows (some line) = windows_ping (trimmed qt line)

  unfoldable pub extract_ping : Os → Text → ℤ
  extract_ping os s = ping_of_line os (last_line (split_skip b'\n' s))
