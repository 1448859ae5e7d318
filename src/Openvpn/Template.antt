-- ===== src/Openvpn/Template.antt =====
-- The template of a server and port: its key, and the configuration file that is written from it.
use celo_desktop_app.Base.{
  ℕ, ◌+◌, ◌*◌, ◌/◌, ◌%◌, ◌≡◌, refl, ap, ◌∙◌, true, some, List, [], ◌∷◌, ◌++◌, arith, ◌==◌,
  if◌then◌else◌, ◌≢◌, ◌⊎◌, ◌&&◌, is_empty, get_elem?, zero, suc, false, Bool-cases, ==_iff, inl,
  inr,
}
use celo_desktop_app.Base.Int.{ℤ, pos, negsuc, eqb_ℤ, lookup, insert}
use celo_desktop_app.Base.Text.{Text, codes, split, put_first, contains}
use celo_desktop_app.Openvpn.Types.{Env, Manager, is_windows, write_config, ask, emit}
use celo_desktop_app.Openvpn.Connect.{
  server_key, current_key, filter_lines, mentions_dns, dns_options, write_lines, write_template,
  write_config_file,
}
use celo_desktop_app.Openvpn.Starting.{latest}

-- The class of a port: 1 for 1194, 2 for 53, 3 for every other.
abbrev port_class : ℤ → ℕ
port_class port = if eqb_ℤ port (pos 1194) then 1 else if eqb_ℤ port (pos 53) then 2 else 3

-- The key of a server with a number that is not negative is ten times that number and the class of
-- the port, so that `/ 10` and `% 10` give both back.
pub server_key_decodes :
    (id : ℕ) (port : ℤ)
    → (k : ℕ) × (server_key (pos id) port ≡ pos k) × (k / 10 ≡ id) × (k % 10 ≡ port_class port)
unfolding server_key
server_key_decodes id port = (id * 10 + port_class port, ground arith, ground arith, ground arith)

eqb_ℤ-refl : (k : ℤ) → eqb_ℤ k k ≡ true
eqb_ℤ-refl (pos n) = ground arith
eqb_ℤ-refl (negsuc n) = ground arith

lookup-insert {ℓ} :
    {V : Type ℓ} (k : ℤ) (v : V) (m : List (ℤ × V)) → lookup k (insert k v m) ≡ some v
unfolding lookup insert
lookup-insert k v [] = rw (eqb_ℤ-refl k)
lookup-insert k v ((j, w) ∷ m) = elim (Bool-cases (eqb_ℤ j k)) [
  | inl hit ↦ rw (hit, eqb_ℤ-refl k)
  | inr miss ↦ rw (miss, miss, lookup-insert k v m)
]

filter_lines-put_first :
    (x : ℕ) (ws : List Text) → ws ≢ [] → filter_lines (put_first x ws) ≡ x ∷ filter_lines ws
unfolding filter_lines
filter_lines-put_first x [] h = absurd (h refl)
filter_lines-put_first x (w ∷ ws) h = refl

split-ne-nil : (c : ℕ) (t : Text) → split c t ≢ []
unfolding split
split-ne-nil c [] = λ e. cc
split-ne-nil c (x ∷ xs) = ground (arith, put_first-ne-nil x (split c xs))
  where
    put_first-ne-nil : (x : ℕ) (ws : List Text) → put_first x ws ≢ []
    put_first-ne-nil x [] = λ e. cc
    put_first-ne-nil x (w ∷ ws) = λ e. cc

filter_lines_blank : (ws : List Text) → filter_lines ([] ∷ ws) ≡ b'\n' ∷ filter_lines ws
unfolding filter_lines
filter_lines_blank ws = refl

-- The loop over the lines writes the template back, with one more line end.
pub filter_lines-split : (t : Text) → filter_lines (split b'\n' t) ≡ t ++ (b'\n' ∷ [])
unfolding split
filter_lines-split [] = unfold filter_lines in refl
filter_lines-split (x ∷ xs) = elim (Bool-cases (x == b'\n')) [
  | inl e ↦
      rw e (filter_lines_blank (split b'\n' xs) ∙ cc (filter_lines-split xs, (==_iff x b'\n').0 e))
  | inr e ↦ rw e (
      filter_lines-put_first x (split b'\n' xs) (split-ne-nil b'\n' xs)
      ∙ ap (◌∷◌ x) (filter_lines-split xs))
]

-- One of the lines names DNS.
abbrev pub NamesDns : List Text → Type 0
NamesDns ls = (i : ℕ) × (l : Text) × (get_elem? ls i ≡ some l) × (contains l (codes "DNS") ≡ true)

not_later :
    (l : Text) (ls : List Text)
    → contains l (codes "DNS") ≡ false
    → ¬ (NamesDns ls)
    → ¬ (NamesDns (l ∷ ls))
not_later l ls h n (zero, k, e, names) = cc
not_later l ls h n (suc i, k, e, names) = n (i, k, e, names)

-- The loop over the lines finds one that names DNS, or there is none.
mentions_dns_lem :
    (ls : List Text)
    → (NamesDns ls × (mentions_dns ls ≡ true)) ⊎ (¬ (NamesDns ls) × (mentions_dns ls ≡ false))
unfolding mentions_dns
mentions_dns_lem [] = inr ((λ (i, l, e, names). cc), refl)
mentions_dns_lem (l ∷ ls) = elim (Bool-cases (contains l (codes "DNS"))) [
  | inl h ↦ inl ((0, l, refl, h), rw h refl)
  | inr h ↦ elim (mentions_dns_lem ls) [
    | inl ((i, k, e, names), found) ↦ inl ((suc i, k, e, names), rw (h, found) refl)
    | inr (none_names, e) ↦ inr (not_later l ls h none_names, rw (h, e) refl)
  ]
]

-- A line of the configuration for a server of names, if the user gave one.
abbrev pub dns_line : Text → Text
dns_line dns = if is_empty dns then [] else codes "push \"dhcp-option DNS " ++ (dns ++ codes "\"\n")

-- What is written for the lines of a template that does not name DNS.
abbrev pub user_dns : Env → Manager → Text
user_dns env m =
    (if m.fix_dns && is_windows env.os && env.windows10 then codes "block-outside-dns\n" else [])
    ++ (dns_line m.dns1 ++ dns_line m.dns2)

-- When the template of the current server and port is at hand and the configuration file opens, what
-- is written ends with the template's bytes and a line end. Where a line of the template names DNS
-- nothing stands before them, and else there stand, each in a line, `block-outside-dns`, if the
-- addresses are to be fixed on Windows 10, and the options of the first and the second server of
-- names, if there are such.
pub write_config_file_lem :
    (env : Env) (m : Manager) (bytes : Text)
    → env.config_opens m.asked ≡ true
    → lookup (current_key env m) m.ovpn_template ≡ some bytes
    → let written = latest (write_config_file env m).1.trace in
      ((write_config_file env m).0 ≡ true)
      × ((NamesDns (split b'\n' bytes) × (written ≡ some (write_config (bytes ++ (b'\n' ∷ [])))))
          ⊎ (¬ (NamesDns (split b'\n' bytes))
              × (written ≡ some (write_config (user_dns env m ++ (bytes ++ (b'\n' ∷ [])))))))
unfolding write_config_file write_template write_lines ask emit dns_options
write_config_file_lem env m bytes opens at_hand =
    rw (opens, at_hand, filter_lines-split bytes)
      (
        refl,
        elim (mentions_dns_lem (split b'\n' bytes)) [
          | inl (names, e) ↦ rw e (inl (names, refl))
          | inr (none_names, e) ↦ rw e (inr (none_names, refl))
        ],
      )
