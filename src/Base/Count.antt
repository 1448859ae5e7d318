-- ===== src/Base/Count.antt =====
-- How often a unit occurs in a text, and the search for it.
use Prim.Native.Nat.{ℕ, zero, suc, ◌≤◌}
use mathlib.Core.Bool.{false}
use mathlib.Core.List.{[], ◌∷◌}
use mathlib.Core.Logic.{inl, inr}
use mathlib.Core.Option.{Option, none, some}
use mathlib.Core.Path.{◌≡◌, refl}
use native.Mathlib.Omega.{arith}
use celo_desktop_app.Base.Lists.{length, keep, drop}
use celo_desktop_app.Base.Tests.{◌==◌, Bool-cases}
use celo_desktop_app.Base.Text.{Text, shift, find_unit, index_of}

-- QString::count.
abbrev pub count : ℕ → Text → ℕ
count u s = length (keep (λ c. c == u) s)

module _ (u : ℕ) where
  -- The units from `t` on, counted at the place that is found.
  abbrev pub Counted : ℕ → Text → Option ℕ → Type 0
  Counted t s none = count u (drop t s) ≡ 0
  Counted t s (some p) = count u (drop t s) ≡ suc (count u (drop (suc p) s))

  shift-Counted :
      (t : ℕ) (c : ℕ) (s : Text) (o : Option ℕ) → Counted t s o → Counted (suc t) (c ∷ s) (shift o)
  shift-Counted t c s none h = h
  shift-Counted t c s (some p) h = h

  skip-Counted :
      (c : ℕ) (s : Text) (o : Option ℕ)
      → (c == u) ≡ false
      → Counted 0 s o
      → Counted 0 (c ∷ s) (shift o)
  skip-Counted c s none e h = rw e h
  skip-Counted c s (some p) e h = rw e h

  find-Counted : (s : Text) → Counted 0 s (find_unit u s)
  unfolding find_unit
  find-Counted [] = refl
  find-Counted (c ∷ s) = elim (Bool-cases (c == u)) [
    | inl t ↦ rw t (rw t refl)
    | inr f ↦ rw f (skip-Counted c s (find_unit u s) f (find-Counted s))
  ]

  pub index-Counted : (t : ℕ) (s : Text) → Counted t s (index_of u t s)
  unfolding index_of
  index-Counted zero s = find-Counted s
  index-Counted (suc t) [] = refl
  index-Counted (suc t) (c ∷ s) = shift-Counted t c s (index_of u t s) (index-Counted t s)

  -- Fewer are left further on.
  pub count-drop-le : (a b : ℕ) (s : Text) → a ≤ b → count u (drop b s) ≤ count u (drop a s)
  count-drop-le zero zero s h = omega arith
  count-drop-le (suc a) zero s h = elim h [ ]
  count-drop-le zero (suc b) [] h = omega arith
  count-drop-le (suc a) (suc b) [] h = omega arith
  count-drop-le zero (suc b) (c ∷ s) h =
      let rest = count-drop-le zero b s (omega arith) in ground (arith, rest)
  count-drop-le (suc a) (suc b) (c ∷ s) h = count-drop-le a b s (omega arith)
