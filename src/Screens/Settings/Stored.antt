-- ===== src/Screens/Settings/Stored.antt =====
-- What a box of the settings screen reads after other settings are stored.
use celo_desktop_app.Base.{
  ◌≡◌, refl, sym, ap, ◌∙◌, Bool, true, false, Option, none, some, List, if◌then◌else◌, Bool-cases,
  inl, inr,
}
use celo_desktop_app.Base.Int.{ℤ}
use celo_desktop_app.Base.Separators.{=text-sound}
use celo_desktop_app.Base.Text.{Text, codes, ◌=text◌}
use celo_desktop_app.Setting.Store.{
  Variant, bool_value, Conversions, Converts, Preferences, set_value, signal, find, put,
}
use celo_desktop_app.Setting.Ports.{find-put, find-put-other}
use celo_desktop_app.Setting.Flags.{Flag, autoconnect, key, by_default, is_on, set_flag}
use celo_desktop_app.Screens.Settings.{same_flag}

-- The key is not that of a box.
abbrev pub NoFlag : Text → Type 0
NoFlag k = (f : Flag) → (k =text key f) ≡ false

pub encryption-NoFlag : NoFlag (codes "dd_Encryption")
unfolding key
encryption-NoFlag autoconnect = refl
encryption-NoFlag _ = refl

pub dns1-NoFlag : NoFlag (codes "e_PrimaryDns")
unfolding key
dns1-NoFlag autoconnect = refl
dns1-NoFlag _ = refl

pub dns2-NoFlag : NoFlag (codes "e_SecondaryDns")
unfolding key
dns2-NoFlag autoconnect = refl
dns2-NoFlag _ = refl

pub local_port-NoFlag : NoFlag (codes "e_LocalPort")
unfolding key
local_port-NoFlag autoconnect = refl
local_port-NoFlag _ = refl

module _ (cv : Conversions) (number : ℤ → Text) (laws : Converts cv number) where
  -- What a box reads in a list of settings.
  reads : Flag → List (Text × Variant) → Bool
  reads g s = cv.to_bool (elim (find (key g) s) [ none ↦ bool_value (by_default g) | some v ↦ v ])

  pub is_on-settings :
      (g : Flag) (p q : Preferences) → q.settings ≡ p.settings → is_on cv g q ≡ is_on cv g p
  unfolding is_on reads
  is_on-settings g p q e = ap (reads g) e

  pub is_on-other :
      (g : Flag) (k : Text) (v : Variant) (p : Preferences)
      → (k =text key g) ≡ false
      → is_on cv g (set_value k v p).1 ≡ is_on cv g p
  unfolding is_on set_value
  is_on-other g k v p h =
      ap
        (λ (o : Option Variant).
          cv.to_bool (elim o [ none ↦ bool_value (by_default g) | some w ↦ w ]))
        (find-put-other (key g) k v p.settings h)

  is_on-same :
      (f g : Flag) (v : Bool) (p : Preferences)
      → same_flag f g ≡ true
      → is_on cv g (set_value (key f) (bool_value v) p).1 ≡ v
  unfolding is_on set_value
  is_on-same f g v p h =
      ap
        (λ (o : Option Variant).
          cv.to_bool (elim o [ none ↦ bool_value (by_default g) | some w ↦ w ]))
        (ap (λ (k : Text). find k (put (key f) (bool_value v) p.settings))
            (sym (=text-sound (key f) (key g) h))
          ∙ find-put (key f) (bool_value v) p.settings)
      ∙ laws.bool_bool v

  set_flag-settings :
      (f : Flag) (v : Bool) (p : Preferences)
      → (set_flag f v p).1.settings ≡ (set_value (key f) (bool_value v) p).1.settings
  unfolding set_flag set_value signal
  set_flag-settings autoconnect v p = refl
  set_flag-settings _ v p = refl

  pub is_on-set_flag :
      (f g : Flag) (v : Bool) (p : Preferences)
      → is_on cv g (set_flag f v p).1 ≡ (if same_flag f g then v else is_on cv g p)
  is_on-set_flag f g v p =
      is_on-settings g (set_value (key f) (bool_value v) p).1 (set_flag f v p).1
        (set_flag-settings f v p)
      ∙ elim (Bool-cases (same_flag f g)) [
        | inl same ↦ rw same (is_on-same f g v p same)
        | inr other ↦ rw other (is_on-other g (key f) (bool_value v) p other)
      ]
