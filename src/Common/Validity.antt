-- ===== src/Common/Validity.antt =====
-- What IsValidIp and IsValidPort accept.
use celo_desktop_app.Base.{
  ℕ, ◌≤◌, ◌≡◌, refl, ◌↔◌, true, Option, none, some, List, [], ◌∷◌, arith, All, length,
}
use celo_desktop_app.Base.Int.{ℤ, pos, negsuc}
use celo_desktop_app.Base.Text.{Text, split_skip}
use celo_desktop_app.Common.{Qt, is_octet, octets_ok, is_valid_ip, is_valid_port, count_unit}

module _ (qt : Qt) where
  -- A part that is the decimal text of a number below 256.
  abbrev pub IsOctet : Text → Type 0
  IsOctet w = (n : ℕ) × (qt.to_int w ≡ some (pos n)) × (n ≤ 255)

  is_octet-IsOctet : (w : Text) → is_octet qt (qt.to_int w) ≡ true → IsOctet w
  unfolding is_octet
  is_octet-IsOctet w h = split_value (qt.to_int w) refl
    where
      split_value : (o : Option ℤ) → qt.to_int w ≡ o → IsOctet w
      split_value none e = ground arith
      split_value (some (pos n)) e = (n, e, ground arith)
      split_value (some (negsuc n)) e = ground arith

  IsOctet-is_octet : (w : Text) → IsOctet w → is_octet qt (qt.to_int w) ≡ true
  unfolding is_octet
  IsOctet-is_octet w (n, e, h) = ground arith

  octets-All : (ws : List Text) → octets_ok qt ws ≡ true → All IsOctet ws
  unfolding octets_ok
  octets-All [] h = tt
  octets-All (w ∷ ws) h = (is_octet-IsOctet w (ground arith), octets-All ws (ground arith))

  All-octets : (ws : List Text) → All IsOctet ws → octets_ok qt ws ≡ true
  unfolding octets_ok
  All-octets [] h = refl
  All-octets (w ∷ ws) h = ground (arith, IsOctet-is_octet w h.0, All-octets ws h.1)

  -- IsValidIp accepts exactly the texts with three dots whose non-empty parts are four numbers from
  -- 0 to 255.
  pub is_valid_ip_iff :
      (ip : Text)
      → (is_valid_ip qt ip ≡ true) ↔ (
          (count_unit b'.' ip ≡ 3)
          × (length (split_skip b'.' ip) ≡ 4)
          × All IsOctet (split_skip b'.' ip))
  unfolding is_valid_ip
  is_valid_ip_iff ip = (
    λ h. (ground arith, ground arith, octets-All (split_skip b'.' ip) (ground arith)),
    λ (dots, four, h). ground (arith, All-octets (split_skip b'.' ip) h),
  )

  -- IsValidPort accepts exactly the texts that Qt reads as a number from 1 to 65535.
  pub is_valid_port_iff :
      (s : Text)
      → (is_valid_port qt s ≡ true)
        ↔ ((n : ℕ) × (qt.to_int s ≡ some (pos n)) × (1 ≤ n) × (n ≤ 65535))
  unfolding is_valid_port
  is_valid_port_iff s = (split_value (qt.to_int s) refl, λ (n, e, p, q). ground arith)
    where
      split_value :
          (o : Option ℤ)
          → qt.to_int s ≡ o
          → is_valid_port qt s ≡ true
          → (n : ℕ) × (qt.to_int s ≡ some (pos n)) × (1 ≤ n) × (n ≤ 65535)
      split_value none e h = ground arith
      split_value (some (pos n)) e h = (n, e, ground arith, ground arith)
      split_value (some (negsuc n)) e h = ground arith
