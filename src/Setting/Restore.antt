-- ===== src/Setting/Restore.antt =====
-- The server of the last run is found again by its name.
use celo_desktop_app.Base.{
  ℕ, suc, ◌+◌, ◌≡◌, refl, sym, ap, ◌∙◌, subst, Bool, true, false, not, ◌&&◌, Option, none, some,
  List, [], ◌∷◌, is_empty, Bool-cases, inl, inr, arith, get_elem?,
}
use celo_desktop_app.Base.Int.{ℤ, pos, negsuc, ltb_ℤ}
use celo_desktop_app.Base.Separators.{=text-sound}
use celo_desktop_app.Base.Text.{Text, codes, ◌=text◌}
use celo_desktop_app.Common.{Qt}
use celo_desktop_app.Auth.Types.{AServer, Account}
use celo_desktop_app.Auth.Servers.{
  get_server, server_at, current_encryption_servers, server_ix_from_name, or_empty, ix_or_minus,
}
use celo_desktop_app.Auth.Names.{IsCached, first_named, server_ix_from_name_lem}
use celo_desktop_app.Setting.Store.{
  int_value, text_value, Conversions, Converts, Preferences, Variant, value, set_value, signal,
}
use celo_desktop_app.Setting.Protocols.{tcp_or_udp}
use celo_desktop_app.Setting.Ports.{find-put, IsReady, tcp_or_udp-ready}
use celo_desktop_app.Setting.Nodes.{server_id-set}
use celo_desktop_app.Setting.Servers.{server_id, set_server}
use celo_desktop_app.Setting.Load.{saved_ix, select_saved, load_server}

abbrev index_of_some : Option ℕ → ℕ
index_of_some none = 0
index_of_some (some i) = i

the_index : (i k : ℕ) → some i ≡ some k → k ≡ i + 0
the_index i k h = let e : i ≡ k = ap index_of_some h in omega arith

first_named-name :
    (i k : ℕ) (name : Text) (ss : List AServer)
    → first_named i name ss ≡ some k
    → (j : ℕ) × (k ≡ i + j) × ((or_empty (get_elem? ss j)).name ≡ name)
unfolding first_named
first_named-name i k name [] h = absurd (cc h)
first_named-name i k name (s ∷ ss) h = elim (Bool-cases (s.name =text name)) [
  | inl hit ↦ (0, the_index i k (rw hit at h), =text-sound s.name name hit)
  | inr miss ↦
      let (j, e, n) = first_named-name (suc i) k name ss (rw miss at h) in (suc j, omega arith, n)
]

-- An index that is not negative, of a server of the name.
abbrev Names : Account → Text → ℤ → Type 0
Names a name ix = (ltb_ℤ ix (pos 0) ≡ false) × ((get_server a ix).name ≡ name)

pos-ge : (s : ℕ) → ltb_ℤ (pos s) (pos 0) ≡ false
pos-ge s = ground arith

and_second : (b c : Bool) → (b && c) ≡ true → c ≡ true
and_second true c h = h
and_second false c h = absurd (cc h)

-- What a lookup of the saved server comes to.
abbrev Found : Account → Text → ℤ × Account → Type 0
Found a name r = Names a name r.0 × (r.1.servers ≡ a.servers)

saved_ix_lem :
    (s k : ℕ) (name : Text) (a : Account)
    → (name =text codes "undefined") ≡ false
    → first_named 0 name a.servers ≡ some k
    → IsCached a
    → Found a name (saved_ix (pos s) name a)
unfolding saved_ix server_ix_from_name get_server
saved_ix_lem s k name a u f c =
    let here = get_server a (pos s) in
    elim (Bool-cases (not (is_empty here.name) && (here.name =text name))) [
      | inl same ↦
          let kept : saved_ix (pos s) name a ≡ (pos s, a) = rw (pos-ge s, same) refl in
          subst (Found a name) (sym kept) (
            (
              pos-ge s,
              =text-sound here.name name
                  (and_second (not (is_empty here.name)) (here.name =text name) same),
            ),
            refl,
          )
      | inr other ↦
          let looked : saved_ix (pos s) name a ≡ server_ix_from_name name a =
            rw (pos-ge s, other, u) refl in
          let (j, e, n) = first_named-name 0 k name a.servers f in
          let at : (server_ix_from_name name a).0 ≡ pos j =
            (server_ix_from_name_lem name a c).0 ∙ ap ix_or_minus (f ∙ ap some (omega arith)) in
          subst (Found a name) (sym looked) (
            (ap (λ r. ltb_ℤ r (pos 0)) at ∙ pos-ge j, ap (λ r. (get_server a r).name) at ∙ n),
            refl,
          )
    ]

module _ (qt : Qt) (cv : Conversions) (laws : Converts cv qt.number) where
  -- The name that setServer leaves.
  location_name :
      (a : Account) (ix : ℤ) (p : Preferences)
      → cv.to_text (
          value
            (codes "dd_Location_str")
            (text_value (codes "undefined"))
            (set_server qt cv a ix p).1)
        ≡ (get_server a ix).name
  unfolding set_server set_value signal
  location_name a ix p =
      ap
        (λ (o : Option Variant).
          cv.to_text (elim o [ none ↦ text_value (codes "undefined") | some w ↦ w ]))
        (find-put (codes "dd_Location_str") (text_value (get_server a ix).name) _)
      ∙ laws.text_text (get_server a ix).name

-- The settings after loadServer: the name is stored, and the stored index is that of a server of
-- this name.
abbrev pub Holds : Qt → Conversions → Account → Text → Preferences → Type 0
Holds qt cv a name p =
    (cv.to_text (value (codes "dd_Location_str") (text_value (codes "undefined")) p) ≡ name)
    × ((get_server a (server_id qt cv a p)).name ≡ name)

module _ (qt : Qt) (cv : Conversions) (laws : Converts cv qt.number)
    (sort : List (ℤ × ℤ) → List (ℤ × ℤ)) (pings : List ℤ) (first second : ℕ) where
  select_saved-Holds :
      (a : Account) (name : Text) (r : ℤ × Account) (p : Preferences)
      → Found a name r
      → Holds qt cv a name (select_saved qt cv sort pings first second r p).1
  unfolding select_saved get_server server_id
  select_saved-Holds a name (ix, b) p ((ge, named), same) =
      let there : (get_server b ix).name ≡ name =
        ap (λ ss. (or_empty (server_at ss ix)).name) same ∙ named in
      rw ge (
        (
          location_name qt cv laws b ix p ∙ there,
          ap (λ i. (get_server a i).name) (server_id-set qt cv b laws ix p) ∙ named,
        ))

  -- When the tables of the protocols are filled, the list of the current protocol's kind is not empty, an
  -- index that is not negative and a name other than "undefined" are stored, some server has this name, and
  -- the cache of the names is empty or filled from the list, then after loadServer the same name is stored,
  -- and the stored index is that of a server of this name.
  pub load_server_lem :
      (a : Account) (p : Preferences) (s k : ℕ) (name : Text)
      → IsReady p
      → is_empty (current_encryption_servers a (tcp_or_udp cv qt p).0) ≡ false
      → cv.to_int (value (codes "dd_Location_ix") (int_value (negsuc 0)) p) ≡ pos s
      → cv.to_text (value (codes "dd_Location_str") (text_value (codes "undefined")) p) ≡ name
      → (name =text codes "undefined") ≡ false
      → first_named 0 name a.servers ≡ some k
      → IsCached a
      → Holds qt cv a name (load_server qt cv sort pings first second a p).1
  unfolding load_server
  load_server_lem a p s k name ready listed saved named defined found cached =
      rw (tcp_or_udp-ready cv qt p ready, listed, saved, named)
        (select_saved-Holds a name (saved_ix (pos s) name a) p
          (saved_ix_lem s k name a defined found cached))
