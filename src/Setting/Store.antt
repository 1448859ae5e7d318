-- ===== src/Setting/Store.antt =====
-- The members of Setting, and QSettings as a list of keys and values. The tables of protocols and
-- ports have one place, since ENCRYPTION_COUNT is 1.
use celo_desktop_app.Base.{ℕ, ◌<◌, ◌≡◌, Bool, Option, none, some, List, [], ◌∷◌, if◌then◌else◌}
use celo_desktop_app.Base.Int.{ℤ, pos}
use celo_desktop_app.Base.State.{State, modify}
use celo_desktop_app.Base.Text.{Text, ◌=text◌}

pub data Variant : Type 0 where
  int_value : ℤ → Variant
  text_value : Text → Variant
  bool_value : Bool → Variant

-- QVariant::toInt, QVariant::toString and QVariant::toBool, and QString::toUInt.
pub record Conversions : Type 0 where
  pub to_int : Variant → ℤ
  pub to_text : Variant → Text
  pub to_bool : Variant → Bool
  pub to_uint : Text → Option ℕ

-- A converted value of the same type is the value, and a number of 32 bits is read back from its text.
pub record Converts (cv : Conversions) (number : ℤ → Text) : Type 0 where
  pub int_int : (n : ℤ) → cv.to_int (int_value n) ≡ n
  pub text_text : (t : Text) → cv.to_text (text_value t) ≡ t
  pub bool_bool : (b : Bool) → cv.to_bool (bool_value b) ≡ b
  pub uint_number : (n : ℕ) → n < 4294967296 → cv.to_uint (number (pos n)) ≡ some n

pub data Signal : Type 0 where
  encryption_changed protocol_changed server_changed detect_insecure_wifi_changed : Signal

pub record Preferences : Type 0 where
  pub settings : List (Text × Variant)
  pub protocols : List Text
  pub ports : List ℤ
  -- The static _loading_protocol.
  pub loading : Bool
  -- The signals, latest first.
  pub signals : List Signal

abbrev pub P : Type 0 → Type 0
P A = State Preferences A

unfoldable pub find : Text → List (Text × Variant) → Option Variant
find k [] = none
find k ((j, v) ∷ rest) = if j =text k then some v else find k rest

unfoldable pub put : Text → Variant → List (Text × Variant) → List (Text × Variant)
put k v [] = (k, v) ∷ []
put k v ((j, w) ∷ rest) = if j =text k then (k, v) ∷ rest else (j, w) ∷ put k v rest

-- QSettings::value(key, otherwise).
abbrev pub value : Text → Variant → Preferences → Variant
value k otherwise p = elim (find k p.settings) [ none ↦ otherwise | some v ↦ v ]

-- QSettings::setValue.
unfoldable pub set_value : Text → Variant → P (Unit {0})
set_value k v = modify (λ p. record p { settings = put k v p.settings })

unfoldable pub signal : Signal → P (Unit {0})
signal s = modify (λ p. record p { signals = s ∷ p.signals })
