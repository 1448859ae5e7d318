-- ===== src/Base/Separators.antt =====
-- Equal texts, and texts cut at a separator.
use Prim.Native.Nat.{ℕ, ◌+◌}
use mathlib.Core.Bool.{true, false}
use mathlib.Core.List.{[], ◌∷◌, ◌++◌}
use mathlib.Core.Logic.{◌⊎◌, inl, inr}
use mathlib.Core.Option.{none, some}
use mathlib.Core.Path.{◌≡◌, refl, ap, ◌∙◌}
use celo_desktop_app.Base.Tests.{◌==◌, Bool-cases, ==_refl, ==_iff}
use celo_desktop_app.Base.Lists.{All, length, drop, take}
use native.Mathlib.Omega.{arith}
use celo_desktop_app.Base.Text.{Text, ◌=text◌, find_unit, index_of}

-- The text does not hold the unit.
abbrev pub Lacks : ℕ → Text → Type 0
Lacks c = All (λ x. (x == c) ≡ false)

module _ (c : ℕ) where
  pub find_unit-append :
      (f rest : Text) → Lacks c f → find_unit c (f ++ (c ∷ rest)) ≡ some (length f)
  unfolding find_unit
  find_unit-append [] rest h = rw (==_refl c)
  find_unit-append (x ∷ xs) rest h = rw (h.0, find_unit-append xs rest h.1)

  pub find_unit-Lacks : (f : Text) → Lacks c f → find_unit c f ≡ none
  unfolding find_unit
  find_unit-Lacks [] h = refl
  find_unit-Lacks (x ∷ xs) h = rw (h.0, find_unit-Lacks xs h.1)

  -- The separator does not occur, or the text up to its first place is followed by it and a rest.
  pub separated :
      (s : Text) → Lacks c s ⊎ ((f : Text) × (rest : Text) × Lacks c f × (s ≡ f ++ (c ∷ rest)))
  separated [] = inl tt
  separated (x ∷ xs) = elim (Bool-cases (x == c)) [
    | inl hit ↦ inr ([], xs, tt, ap (λ (y : ℕ). y ∷ xs) ((==_iff x c).0 hit))
    | inr miss ↦ elim (separated xs) [
      | inl h ↦ inl (miss, h)
      | inr (f, rest, h, e) ↦ inr (x ∷ f, rest, (miss, h), ap (◌∷◌ x) e)
    ]
  ]

  -- The search behind a prefix.
  pub index-field :
      (pre f rest : Text)
      → Lacks c f
      → index_of c (length pre) (pre ++ (f ++ (c ∷ rest))) ≡ some (length pre + length f)
  unfolding index_of
  index-field [] f rest h = find_unit-append f rest h ∙ ap some (omega arith)
  index-field (x ∷ xs) f rest h = rw (index-field xs f rest h) (ap some (omega arith))

  pub index-none : (pre f : Text) → Lacks c f → index_of c (length pre) (pre ++ f) ≡ none
  unfolding index_of
  index-none [] f h = find_unit-Lacks f h
  index-none (x ∷ xs) f h = rw (index-none xs f h)

pub take-prefix : (f s : Text) → take (length f) (f ++ s) ≡ f
take-prefix [] s = refl
take-prefix (x ∷ xs) s = ap (◌∷◌ x) (take-prefix xs s)

pub drop-prefix : (pre s : Text) → drop (length pre) (pre ++ s) ≡ s
drop-prefix [] s = refl
drop-prefix (x ∷ xs) s = drop-prefix xs s

pub =text-refl : (t : Text) → (t =text t) ≡ true
=text-refl [] = refl
=text-refl (c ∷ cs) = ground (arith, ==_refl c, =text-refl cs)

pub =text-sound : (s t : Text) → (s =text t) ≡ true → s ≡ t
=text-sound [] [] h = refl
=text-sound [] (d ∷ t) h = ground arith
=text-sound (c ∷ s) [] h = ground arith
=text-sound (c ∷ s) (d ∷ t) h = cc (=text-sound s t (ground arith), (==_iff c d).0 (ground arith))
