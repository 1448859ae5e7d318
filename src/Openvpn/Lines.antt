-- ===== src/Openvpn/Lines.antt =====
-- The addresses that gotConnected and parseNewIp cut out of a line.
use celo_desktop_app.Base.{
  ℕ, zero, suc, ◌+◌, ◌-◌, Bool, false, Option, none, some, if◌then◌else◌, leb, ltb, take, drop,
  get_elem?,
}
use celo_desktop_app.Base.Text.{Text, codes, next, index_of, find_text, mid}
use celo_desktop_app.Common.{Qt}

-- `for (k = 0; k < n; ++k) p = s.indexOf(',', p + 1)`.
unfoldable pub nth_comma : ℕ → Option ℕ → Text → Option ℕ
nth_comma zero p s = p
nth_comma (suc k) p s = nth_comma k (index_of b',' (next p) s) s

abbrev pub until_comma : ℕ → Option ℕ → Text → Text
until_comma p none s = drop (p + 1) s
until_comma p (some q) s = mid (p + 1) (q - p - 1) s

abbrev pub ip_after : Option ℕ → Text → Option Text
ip_after none s = none
ip_after (some p) s = some (until_comma p (index_of b',' (p + 1) s) s)

-- The address of gotConnected, if it emits one.
unfoldable pub connected_ip : Text → Option Text
connected_ip s = ip_after (nth_comma 4 none s) s

abbrev pub is_digit_at : Qt → Option ℕ → Bool
is_digit_at qt none = false
is_digit_at qt (some c) = qt.is_digit c

-- `for (; p2 > p0; --p2) if (!s[p2].isDigit()) break`.
unfoldable pub back_digits : Qt → Text → ℕ → ℕ → ℕ
back_digits qt s p0 zero = zero
back_digits qt s p0 (suc p2) =
    let earlier = back_digits qt s p0 p2 in
    if leb (suc p2) p0
    then suc p2
    else if is_digit_at qt (get_elem? s (suc p2))
    then earlier
    else suc p2

-- `s.mid(from, to - from)`, where a negative length means the rest of the text.
abbrev pub mid_to : ℕ → ℕ → Text → Text
mid_to from to s = if ltb to from then drop from s else mid from (to - from) s

abbrev pub link_between : Qt → Text → ℕ → ℕ → Option ℕ → Text
link_between qt s p0 p1 none = take p1 s
link_between qt s p0 p1 (some dot) = mid_to (back_digits qt s p0 (dot - 1) + 1) p1 s

abbrev pub link_after : Qt → Text → Option ℕ → Option Text
link_after qt s none = none
link_after qt s (some p0) = elim (index_of b':' (p0 + 1) s) [
  | none ↦ none
  | some p1 ↦ some (link_between qt s p0 p1 (index_of b'.' p0 s))
]

-- The address of parseNewIp, if it emits one.
unfoldable pub link_ip : Qt → Text → Option Text
link_ip qt s =
    link_after qt s (index_of b':' (next (find_text (codes "TCPv4_CLIENT link remote") s)) s)
