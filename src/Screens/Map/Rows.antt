-- ===== src/Screens/Map/Rows.antt =====
-- The rows of the list of locations, and the kind of the protocol that the list depends on.
use celo_desktop_app.Base.{
  ℕ, zero, suc, ◌<◌, ◌≡◌, refl, sym, ap, ◌∙◌, true, false, Option, none, some, List, [], ◌∷◌,
  if◌then◌else◌, arith, length, is_empty, get_elem?, Bool-cases, inl, inr,
}
use celo_desktop_app.Base.Int.{ℤ, pos, negsuc, eqb_ℤ, ltb_ℤ}
use celo_desktop_app.Base.Text.{Text, codes, shift}
use celo_desktop_app.Openvpn.Types.{contains_word}
use celo_desktop_app.Common.{Qt}
use celo_desktop_app.Auth.Types.{Account}
use celo_desktop_app.Setting.Store.{Variant, int_value, Conversions, Preferences, set_value, signal}
use celo_desktop_app.Setting.Protocols.{
  current_protocol, tcp_or_udp, protocol_name, names_for, current_encryption_protocols,
  populate_colls, rsa_protocols, rsa_ports, at, name_at,
}
use celo_desktop_app.Setting.Ports.{find-put-other, IsReady}
use celo_desktop_app.Setting.Nodes.{eqb-same, kind}
use celo_desktop_app.Setting.Servers.{index_of_id, set_server}

pub eqb_sound : (i j : ℤ) → eqb_ℤ i j ≡ true → i ≡ j
eqb_sound (pos m) (pos n) h = ground arith
eqb_sound (negsuc m) (negsuc n) h = ground arith
eqb_sound (pos m) (negsuc n) h = cc
eqb_sound (negsuc m) (pos n) h = cc

shifted : (o : Option ℕ) (k : ℕ) → shift o ≡ some k → (f : ℕ) × (o ≡ some f) × (k ≡ suc f)
shifted none k h = absurd (cc h)
shifted (some f) k h = (f, refl, cc)

-- The row that is found shows the id.
pub get-index_of_id :
    (i : ℤ) (ids : List ℤ) (f : ℕ) → index_of_id i ids ≡ some f → get_elem? ids f ≡ some i
unfolding index_of_id
get-index_of_id i [] f h = cc
get-index_of_id i (j ∷ js) f h = elim (Bool-cases (eqb_ℤ j i)) [
  | inl hit ↦ let at_first : f ≡ 0 = ground arith in rw (at_first, eqb_sound j i hit) refl
  | inr miss ↦
      let (g, found, e) = shifted (index_of_id i js) f (rw miss at h) in
      rw (e) (get-index_of_id i js g found)
]

-- An id of the list is found.
pub index_of_id-found :
    (ids : List ℤ) (k : ℕ) (i : ℤ)
    → get_elem? ids k ≡ some i
    → (f : ℕ) × (index_of_id i ids ≡ some f) × (f < length ids)
unfolding index_of_id
index_of_id-found [] k i h = absurd (cc h)
index_of_id-found (j ∷ js) zero i h = (0, ground (arith, eqb-same i), omega arith)
index_of_id-found (j ∷ js) (suc k) i h = elim (Bool-cases (eqb_ℤ j i)) [
  | inl hit ↦ (0, rw hit, omega arith)
  | inr miss ↦
      let (f, found, below) = index_of_id-found js k i h in (suc f, rw (miss, found), omega arith)
]

pub get-lt : (xs : List ℤ) (k : ℕ) {i : ℤ} → get_elem? xs k ≡ some i → k < length xs
get-lt [] k h = absurd (cc h)
get-lt (x ∷ xs) zero h = omega arith
get-lt (x ∷ xs) (suc k) h = omega (arith, get-lt xs k h)

abbrev ready_preferences : Preferences
ready_preferences = record {
  settings = [];
  protocols = rsa_protocols;
  ports = rsa_ports;
  loading = false;
  signals = [];
}

abbrev kind_of : Qt → Text → Text
kind_of qt description =
    if contains_word qt description (codes "udp") then codes "udp" else codes "tcp"

module _ (qt : Qt) (cv : Conversions) where
  names-ready :
      (ix : ℤ) (p : Preferences)
      → IsReady p
      → (names_for ix p).0 ≡ (names_for ix ready_preferences).0
  unfolding names_for current_encryption_protocols populate_colls
  names-ready (pos n) p h = ground arith
  names-ready (negsuc n) p h = refl

  -- With filled tables, the kind of the protocol is that of its index.
  pub kind-same :
      (p q : Preferences)
      → IsReady p
      → IsReady q
      → current_protocol cv p ≡ current_protocol cv q
      → kind qt cv p ≡ kind qt cv q
  unfolding tcp_or_udp protocol_name
  kind-same p q hp hq e =
      ap (λ (ix : ℤ). kind_of qt (name_at cv (at (names_for ix p).0 ix))) e
      ∙ ap (λ (names : List Text). kind_of qt (name_at cv (at names (current_protocol cv q))))
          (names-ready (current_protocol cv q) p hp
            ∙ sym (names-ready (current_protocol cv q) q hq))

  pub current_protocol-set_server :
      (a : Account) (j : ℤ) (p : Preferences)
      → current_protocol cv (set_server qt cv a j p).1 ≡ current_protocol cv p
  unfolding current_protocol set_server set_value signal
  current_protocol-set_server a j p =
      ap (λ (o : Option Variant). cv.to_int (elim o [ none ↦ int_value (negsuc 0) | some w ↦ w ]))
        (find-put-other (codes "dd_Protocol_ix") (codes "dd_Location_str") _ _ refl
          ∙ find-put-other (codes "dd_Protocol_ix") (codes "dd_Location_ix") _ p.settings refl)

pub nonempty : (xs : List ℤ) (f : ℕ) → f < length xs → is_empty xs ≡ false
nonempty [] f h = absurd (omega arith)
nonempty (x ∷ xs) f h = refl

pub not_negative : (j : ℕ) → ltb_ℤ (negsuc 0) (pos j) ≡ true
not_negative j = ground arith

pub positive : (k : ℕ) → ltb_ℤ (pos 0) (pos (suc k)) ≡ true
positive k = ground arith
