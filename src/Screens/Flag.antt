-- ===== src/Screens/Flag.antt =====
-- The flag, the place on the map and the short name of a server's country (celovpn/flag.cpp).
use Prim.Native.String.{String}
use celo_desktop_app.Base.{
  ℕ, zero, suc, ◌-◌, Option, none, some, List, [], ◌∷◌, ◌++◌, if◌then◌else◌, map, length,
}
use celo_desktop_app.Base.State.{maybe}
use celo_desktop_app.Base.Text.{Text, codes, starts_with}
use celo_desktop_app.Common.{Qt}
use celo_desktop_app.Openvpn.Types.{contains_word, trimmed}

pub record CountryDef : Type 0 where
  pub shortname : Text
  pub flagpng : Text
  pub x : ℕ
  pub y : ℕ

abbrev pub country_def : String → String → ℕ → ℕ → CountryDef
country_def name png x y = record { shortname = codes name; flagpng = codes png; x = x; y = y }

-- gs_countries.
abbrev pub countries : List CountryDef
countries =
    country_def "Australia" "AU" 247 107
    ∷ country_def "Austria" "AT" 0 0
    ∷ country_def "Belgium" "BE" 0 0
    ∷ country_def "Brasil" "BR" 80 92
    ∷ country_def "Brazil" "BR" 80 92
    ∷ country_def "Bulgaria" "BG" 156 34
    ∷ country_def "Canada" "CA" 37 25
    ∷ country_def "Chile" "CL" 64 108
    ∷ country_def "China" "CN" 223 55
    ∷ country_def "Costa Rica" "CR" 45 70
    ∷ country_def "Czech" "CZ" 0 0
    ∷ country_def "Estonia" "EE" 150 25
    ∷ country_def "Finland" "FI" 150 22
    ∷ country_def "France" "FR" 135 35
    ∷ country_def "Germany" "DE" 138 32
    ∷ country_def "Hong Kong" "HK" 230 63
    ∷ country_def "HongKong" "HK" 230 63
    ∷ country_def "Hungary" "HU" 156 34
    ∷ country_def "Iceland" "IS" 108 13
    ∷ country_def "Ireland" "IE" 118 27
    ∷ country_def "Israel" "IL" 156 51
    ∷ country_def "India" "IN" 197 65
    ∷ country_def "Isle of Man" "IM" 118 27
    ∷ country_def "Italy" "IT" 136 42
    ∷ country_def "Japan" "JP" 255 49
    ∷ country_def "Kyrgyzstan" "KG" 183 45
    ∷ country_def "Latvia" "LV" 150 25
    ∷ country_def "Lichtenstein" "LI" 0 0
    ∷ country_def "Liechtenstein" "LI" 0 0
    ∷ country_def "Lithuania" "LT" 150 25
    ∷ country_def "Luxembourg" "LU" 0 0
    ∷ country_def "Moldova" "MD" 156 34
    ∷ country_def "Netherlands" "NL" 0 0
    ∷ country_def "New Zealand" "NZ" 280 125
    ∷ country_def "Norway" "NO" 140 20
    ∷ country_def "Pakistan" "PK" 186 58
    ∷ country_def "Panama" "PA" 45 70
    ∷ country_def "Poland" "PL" 150 25
    ∷ country_def "Portugal" "PT" 125 45
    ∷ country_def "Romania" "RO" 156 34
    ∷ country_def "Russia" "RU" 210 20
    ∷ country_def "Serbia" "RS" 0 0
    ∷ country_def "Singapore" "SG" 230 63
    ∷ country_def "Slovakia" "SI" 0 0
    ∷ country_def "South Africa" "ZA" 148 115
    ∷ country_def "SouthKorea" "KR" 230 65
    ∷ country_def "Spain" "ES" 125 45
    ∷ country_def "Sweden" "SE" 145 22
    ∷ country_def "Switzerland" "CH" 0 0
    ∷ country_def "Taiwan" "TW" 230 65
    ∷ country_def "Thailand" "TH" 220 68
    ∷ country_def "Turkey" "TR" 153 46
    ∷ country_def "U.S." "US" 37 47
    ∷ country_def "US" "US" 37 47
    ∷ country_def "Ukraine" "UA" 158 34
    ∷ country_def "United Kingdom" "GB" 118 27
    ∷ country_def "UK" "GB" 118 27
    ∷ country_def "United States" "US" 37 47
    ∷ []

module _ (qt : Qt) where
  -- The entry that IdFromName finds: the first one whose name is part of the text in any case.
  unfoldable pub id_from_name : Text → List CountryDef → Option CountryDef
  id_from_name srv [] = none
  id_from_name srv (c ∷ cs) =
      if contains_word qt srv c.shortname then some c else id_from_name srv cs

  unfoldable pub icon_from_srv_name : Text → Text
  icon_from_srv_name srv = maybe (codes "_unknown") (λ c. c.flagpng) (id_from_name srv countries)

  abbrev pub first_found : Option CountryDef → Option CountryDef → Option CountryDef
  first_found none o = o
  first_found (some c) o = some c

  -- A name without a country is put where Germany is.
  unfoldable pub coords_from_srv_name : Text → ℕ × ℕ
  coords_from_srv_name srv =
      maybe (0, 0) (λ c. (c.x, c.y))
        (first_found (id_from_name srv countries) (id_from_name (codes "Germany") countries))

  -- QString::remove(text, Qt::CaseInsensitive), over so many units of a match that are still to go.
  unfoldable pub remove_word : Text → ℕ → Text → Text
  remove_word t n [] = []
  remove_word t zero (x ∷ xs) =
      let gone = remove_word t (length t - 1) xs in
      if starts_with (map qt.fold (x ∷ xs)) (map qt.fold t) then gone else x ∷ remove_word t zero xs
  remove_word t (suc n) (x ∷ xs) = remove_word t n xs

  -- QString::replace, likewise.
  unfoldable pub replace_text : Text → Text → ℕ → Text → Text
  replace_text t with n [] = []
  replace_text t with zero (x ∷ xs) =
      let gone = with ++ replace_text t with (length t - 1) xs in
      if starts_with (x ∷ xs) t then gone else x ∷ replace_text t with zero xs
  replace_text t with (suc n) (x ∷ xs) = replace_text t with n xs

  -- HandleTypo, over gs_Substitutions.
  unfoldable pub handle_typo : Text → Text
  handle_typo name =
      replace_text (codes "Lichtenstein") (codes "Liechtenstein") 0
        (replace_text (codes "Brasil") (codes "Brazil") 0 name)

  unfoldable pub short_name : Text → Text
  short_name name = handle_typo (
      maybe (trimmed qt (remove_word (codes "Boost") 0 (remove_word (codes "Hub") 0 name)))
        (λ c. c.shortname) (id_from_name name countries))
