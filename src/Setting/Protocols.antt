-- ===== src/Setting/Protocols.antt =====
-- The protocols of the encryption: currentEncryptionProtocols, setProtocol, loadProtocol, port,
-- determineNextPort and switchToNextPort.
use celo_desktop_app.Base.{
  ℕ, ◌%◌, true, false, ◌&&◌, not, Option, none, some, List, [], ◌∷◌, if◌then◌else◌, length,
  is_empty, get_elem?,
}
use celo_desktop_app.Base.Int.{ℤ, pos, negsuc, leb_ℤ, ltb_ℤ, eqb_ℤ, ◌+ℤ◌}
use celo_desktop_app.Base.State.{get, modify, skip, pure, ◌>>=◌, ◌>>◌}
use celo_desktop_app.Base.Text.{Text, codes, ◌=text◌}
use celo_desktop_app.Common.{Qt}
use celo_desktop_app.Openvpn.Types.{contains_word}
use celo_desktop_app.Setting.Store.{
  int_value, text_value, Conversions, Preferences, P, encryption_changed, protocol_changed, value,
  set_value, signal,
}

abbrev pub encryption_count : ℕ
encryption_count = 1

abbrev pub rsa_protocols : List Text
rsa_protocols = codes "UDP 1194 (RSA)" ∷ codes "UDP 53 (RSA)" ∷ codes "TCP 443 (RSA)" ∷ []

abbrev pub rsa_ports : List ℤ
rsa_ports = pos 1194 ∷ pos 53 ∷ pos 443 ∷ []

-- The index of a vector, with what is there.
abbrev pub at : {A : Type 0} → List A → ℤ → Option A
at xs (pos n) = get_elem? xs n
at xs (negsuc n) = none

-- PopulateColls, for the tables of the only encryption.
unfoldable pub populate_colls : P (Unit {0})
populate_colls = do
  p ← get
  if is_empty p.protocols
      then modify (λ q. record q { protocols = rsa_protocols; ports = rsa_ports })
      else skip

-- currentEncryptionProtocols.
unfoldable pub current_encryption_protocols : P (List Text)
current_encryption_protocols = do populate_colls; p ← get; pure p.protocols

-- The table as `ix > -1 && ix < size()` reads it: not at all for a negative index.
unfoldable pub names_for : ℤ → P (List Text)
names_for (pos n) = current_encryption_protocols
names_for (negsuc n) = pure []

module _ (cv : Conversions) where
  unfoldable pub encryption : Preferences → ℤ
  encryption p =
      let enc = cv.to_int (value (codes "dd_Encryption") (int_value (pos 0)) p) in
      if ltb_ℤ enc (pos 0) then pos 0 else if leb_ℤ (pos encryption_count) enc then pos 0 else enc

  unfoldable pub current_protocol : Preferences → ℤ
  current_protocol p = cv.to_int (value (codes "dd_Protocol_ix") (int_value (negsuc 0)) p)

  abbrev pub name_at : Option Text → Text
  name_at none = []
  name_at (some s) = s

  -- setProtocol.
  unfoldable pub set_protocol : ℤ → P (Unit {0})
  set_protocol ix p =
      if p.loading
      then (tt, p)
      else (do
        set_value (codes "dd_Protocol_ix") (int_value ix)
        names ← names_for ix
        set_value (codes "dd_Protocol_str") (text_value (name_at (at names ix)))
        signal protocol_changed)
          p

  -- The index that loadProtocol finds stored, if it is one of `names` and its name is stored with it.
  unfoldable pub stored_protocol : List Text → Preferences → Option ℤ
  stored_protocol names p =
      let ix = current_protocol p in
      let s = cv.to_text (value (codes "dd_Protocol_str") (text_value []) p) in
      elim (at names ix) [ none ↦ none | some name ↦ if s =text name then some ix else none ]

  abbrev pub or_random : Option ℤ → ℕ → ℕ → ℤ
  or_random none rand size = pos (rand % size)
  or_random (some ix) rand size = ix

  -- loadProtocol; `rand` is what rand() returns.
  unfoldable pub load_protocol : ℕ → P (Unit {0})
  load_protocol rand = do
    modify (λ p. record p { loading = true })
    names ← current_encryption_protocols
    p ← get
    set_protocol (or_random (stored_protocol names p) rand (length names))
    modify (λ q. record q { loading = false })

  unfoldable pub set_encryption : ℕ → ℤ → P (Unit {0})
  set_encryption rand enc = do
    p ← get
    if ltb_ℤ (negsuc 0) enc
          && (ltb_ℤ enc (pos encryption_count)
              && not (eqb_ℤ enc (cv.to_int (value (codes "dd_Encryption") (int_value (pos 0)) p))))
        then (do
          set_value (codes "dd_Encryption") (int_value enc)
          load_protocol rand
          signal encryption_changed)
        else skip

  -- protocolName.
  unfoldable pub protocol_name : ℤ → P Text
  protocol_name ix = do names ← names_for ix; pure (name_at (at names ix))

  abbrev pub port_at : Option ℤ → Option ℤ → Option ℤ
  port_at none first = first
  port_at (some v) first = some v

  -- port: `none` is the exception of `at(0)` on an empty table.
  unfoldable pub port : Preferences → Option ℤ
  port p = port_at (at p.ports (current_protocol p)) (get_elem? p.ports 0)

  unfoldable pub determine_next_port : Preferences → ℤ
  determine_next_port p =
      let ix = current_protocol p +ℤ pos 1 in if leb_ℤ (pos (length p.ports)) ix then pos 0 else ix

  unfoldable pub switch_to_next_port : P (Unit {0})
  switch_to_next_port = do p ← get; set_protocol (determine_next_port p)

  unfoldable pub tcp_or_udp : Qt → P Text
  tcp_or_udp qt = do
    p ← get
    description ← protocol_name (current_protocol p)
    pure (if contains_word qt description (codes "udp") then codes "udp" else codes "tcp")
