-- ===== src/Screens/Map/Redraw.antt =====
-- The row that repopulateLocations selects for the server that was selected before.
use native.Mathlib.Nat.{mod-lt}
use celo_desktop_app.Base.{
  arith, ℕ, ◌+◌, ◌%◌, ◌≤◌, ◌<◌, ◌≡◌, refl, ◌↔◌, Bool, true, false, Option, none, some, List,
  if◌then◌else◌, length,
}
use celo_desktop_app.Base.Int.{ℤ, pos, negsuc, ltb_ℤ}
use celo_desktop_app.Base.Separators.{=text-refl}
use celo_desktop_app.Base.Text.{Text}
use celo_desktop_app.Auth.Types.{Account}
use celo_desktop_app.Auth.Servers.{get_server, server_ix_from_name}
use celo_desktop_app.Setting.Servers.{index_of_id}
use celo_desktop_app.Screens.Map.{MapEnv, row_by_id, row_by_name, reselect, id_in_row}
use celo_desktop_app.Screens.Map.Rows.{not_negative, get-index_of_id}

if_none : (b : Bool) (o : Option ℕ) → o ≡ none → (if b then o else none) ≡ none
if_none true o h = h
if_none false o h = refl

module _ (env : MapEnv) (o : ℕ) (ids : List ℤ) (a : Account) where
  abbrev here : Text
  here = (get_server a (pos o)).name

  row_by_name-none :
      (r : ℤ × Account) → index_of_id r.0 ids ≡ none → (row_by_name env r ids).0 ≡ none
  row_by_name-none (ix, b) h = if_none (ltb_ℤ (negsuc 0) ix) (index_of_id ix ids) h

  -- A server that is still in the list keeps its place: the row shows its id.
  pub reselect-kept :
      (f : ℕ)
      → index_of_id (pos o) ids ≡ some f
      → id_in_row ids (pos (reselect env (pos o) ids a).0) ≡ pos o
  unfolding reselect row_by_id
  reselect-kept f h =
      rw (not_negative o, =text-refl here, h) (rw (get-index_of_id (pos o) ids f h) refl)

  reselect-drawn :
      index_of_id (pos o) ids ≡ none
      → index_of_id (server_ix_from_name here a).0 ids ≡ none
      → (reselect env (pos o) ids a).0 ≡ env.rand % (length ids + 1) + 1
  unfolding reselect row_by_id
  reselect-drawn h k =
      rw (not_negative o, =text-refl here, h, row_by_name-none (server_ix_from_name here a) k) refl

  -- Where the server that was selected is in the new list neither by its id nor by its name, a row is
  -- drawn, and it lies behind the last row of the box, which has one row more than there are servers,
  -- exactly when the number drawn is their count modulo the number of rows.
  pub reselect_lem :
      index_of_id (pos o) ids ≡ none
      → index_of_id (server_ix_from_name here a).0 ids ≡ none
      → (length ids + 1 ≤ (reselect env (pos o) ids a).0)
        ↔ (env.rand % (length ids + 1) ≡ length ids)
  reselect_lem h k = rw (reselect-drawn h k) (
      let b : env.rand % (length ids + 1) < length ids + 1 = mod-lt env.rand (omega arith) in
      ((λ p. omega arith), (λ p. omega arith)))
