-- ===== src/Auth/Names.antt =====
-- serverIxFromName: the cache of the names against the list of the servers.
use celo_desktop_app.Base.{
  ℕ, suc, ◌≡◌, refl, sym, ap, ◌∙◌, Bool, true, false, Option, none, some, List, [], ◌∷◌, ◌⊎◌, inl,
  inr, if◌then◌else◌, Bool-cases, is_empty, ◌&&◌, not,
}
use celo_desktop_app.Base.Separators.{=text-sound}
use celo_desktop_app.Base.Text.{Text, ◌=text◌}
use celo_desktop_app.Auth.Types.{AServer, Account}
use celo_desktop_app.Auth.Servers.{
  insert_name, find_name, fill_names, names_of, ix_or_minus, server_ix_from_name,
}

-- The first server of a name, counted from `i`.
unfoldable pub first_named : ℕ → Text → List AServer → Option ℕ
first_named i srv [] = none
first_named i srv (s ∷ ss) = if s.name =text srv then some i else first_named (suc i) srv ss

abbrev pub or_option : Option ℕ → Option ℕ → Option ℕ
or_option none o = o
or_option (some v) o = some v

or_none : (o : Option ℕ) → or_option o none ≡ o
or_none none = refl
or_none (some v) = refl

find-insert :
    (k j : Text) (v : ℕ) (m : List (Text × ℕ))
    → find_name k (insert_name j v m)
      ≡ or_option (find_name k m) (if j =text k then some v else none)
unfolding find_name insert_name
find-insert k j v [] = refl
find-insert k j v ((i, w) ∷ m) = elim (Bool-cases (i =text j)) [
  | inl same ↦ rw same (elim (Bool-cases (i =text k)) [
    | inl hit ↦ rw hit refl
    | inr miss ↦
        let missed : (j =text k) ≡ false =
          ap (λ x. x =text k) (sym (=text-sound i j same)) ∙ miss in
        rw (miss, missed) (sym (or_none (find_name k m)))
  ])
  | inr other ↦ rw other (elim (Bool-cases (i =text k)) [
    | inl hit ↦ rw hit refl
    | inr miss ↦ rw miss (find-insert k j v m)
  ])
]

or-insert :
    (o r : Option ℕ) (b : Bool) (i : ℕ)
    → or_option (or_option o (if b then some i else none)) r ≡ or_option o (if b then some i else r)
or-insert none r true i = refl
or-insert none r false i = refl
or-insert (some v) r b i = refl

find-fill :
    (srv : Text) (ss : List AServer) (i : ℕ) (m : List (Text × ℕ))
    → find_name srv (fill_names i ss m) ≡ or_option (find_name srv m) (first_named i srv ss)
unfolding fill_names first_named
find-fill srv [] i m = sym (or_none (find_name srv m))
find-fill srv (s ∷ ss) i m =
    find-fill srv ss (suc i) (insert_name s.name i m)
    ∙ (ap (λ o. or_option o (first_named (suc i) srv ss)) (find-insert srv s.name i m)
        ∙ or-insert (find_name srv m) (first_named (suc i) srv ss) (s.name =text srv) i)

-- The cache is empty, or it was filled from the list of the servers.
abbrev pub IsCached : Account → Type 0
IsCached a = (a.name_to_id ≡ []) ⊎ (a.name_to_id ≡ fill_names 0 a.servers [])

filled_or_kept :
    (n : List (Text × ℕ)) (ss : List AServer)
    → (n ≡ []) ⊎ (n ≡ fill_names 0 ss [])
    → (if is_empty n && not (is_empty ss) then fill_names 0 ss n else n) ≡ fill_names 0 ss []
unfolding fill_names
filled_or_kept [] [] h = refl
filled_or_kept [] (s ∷ ss) h = refl
filled_or_kept (x ∷ n) ss (inl e) = absurd (cc e)
filled_or_kept (x ∷ n) ss (inr e) = e

names_of-filled : (a : Account) → IsCached a → names_of a ≡ fill_names 0 a.servers []
names_of-filled a h = filled_or_kept a.name_to_id a.servers h

-- When the cache is empty or was filled from the list of the servers, the index is that of the first
-- server of the name, or -1 where there is none, and the cache is filled from the list.
pub server_ix_from_name_lem :
    (srv : Text) (a : Account)
    → IsCached a
    → ((server_ix_from_name srv a).0 ≡ ix_or_minus (first_named 0 srv a.servers))
      × ((server_ix_from_name srv a).1.name_to_id ≡ fill_names 0 a.servers [])
unfolding server_ix_from_name find_name
server_ix_from_name_lem srv a h =
    let filled = names_of-filled a h in
    (
      ap (λ m. ix_or_minus (find_name srv m)) filled
          ∙ ap ix_or_minus (find-fill srv a.servers 0 []),
      filled,
    )
