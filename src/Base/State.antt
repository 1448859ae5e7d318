-- ===== src/Base/State.antt =====
-- Stateful code as a function from a state to a result and the next state, and the rule that lets
-- an invariant pass through it.
use mathlib.Core.Bool.{Bool, true, false}
use mathlib.Core.Option.{Option, none, some}
use mathlib.Core.Path.{◌≡◌}
use celo_desktop_app.Base.Tests.{if◌then◌else◌}

abbrev pub State {ℓ κ} : Type ℓ → Type κ → Type (ℓ ⊔ κ)
State S A = S → A × S

module _ {ℓ} {S : Type ℓ} where
  abbrev pub pure {κ} : {A : Type κ} → A → State S A
  pure a s = (a, s)

  -- The state itself.
  abbrev pub get : State S S
  get s = (s, s)

  abbrev pub modify : (S → S) → State S (Unit {0})
  modify f s = (tt, f s)

  abbrev pub skip : State S (Unit {0})
  skip s = (tt, s)

infixl 5 ◌>>=◌ ◌>>◌
abbrev pub ◌>>=◌ {ℓ κ μ} :
    {S : Type ℓ} {A : Type κ} {B : Type μ} → State S A → (A → State S B) → State S B
◌>>=◌ m f s = let (a, t) = m s in f a t

abbrev pub ◌>>◌ {ℓ κ} : {S : Type ℓ} {B : Type κ} → State S (Unit {0}) → State S B → State S B
m >> k = m >>= λ _. k

-- The first branch for `none`, the second for a value.
abbrev pub maybe {ℓ κ} : {A : Type ℓ} {B : Type κ} → B → (A → B) → Option A → B
maybe n f none = n
maybe n f (some a) = f a

-- `m` takes states with `P` to states with `P`.
pub record Keeps {ℓ κ μ} {S : Type ℓ} {A : Type κ} (P : S → Type μ) (m : State S A)
    : Type (ℓ ⊔ μ) where
  pub at : (s : S) → P s → P (m s).1

module _ {ℓ μ} {S : Type ℓ} {P : S → Type μ} where
  pub Keeps-pure {κ} : {A : Type κ} (a : A) → Keeps P (pure a)
  Keeps-pure a = record { at = λ s h. h }

  pub Keeps-get : Keeps P (get {S = S})
  Keeps-get = record { at = λ s h. h }

  pub Keeps-skip : Keeps P (skip {S = S})
  Keeps-skip = record { at = λ s h. h }

  pub Keeps-bind {κ ν} :
      {A : Type κ} {B : Type ν} {m : State S A} {f : A → State S B}
      → Keeps P m
      → ((a : A) → Keeps P (f a))
      → Keeps P (m >>= f)
  Keeps-bind {m = m} {f = f} hm hf = record { at = λ s h. (hf (m s).0).at (m s).1 (hm.at s h) }

  pub Keeps-if {κ} :
      {A : Type κ} {m n : State S A} (b : Bool)
      → Keeps P m
      → Keeps P n
      → Keeps P (if b then m else n)
  Keeps-if true hm hn = hm
  Keeps-if false hm hn = hn

  pub Keeps-maybe {κ ν} :
      {A : Type κ} {B : Type ν} {m : State S A} {f : B → State S A} (o : Option B)
      → Keeps P m
      → ((b : B) → Keeps P (f b))
      → Keeps P (maybe m f o)
  Keeps-maybe none hm hf = hm
  Keeps-maybe (some b) hm hf = hf b

pub ruleset keeps_rules = (Keeps-bind, Keeps-if, Keeps-maybe, Keeps-pure, Keeps-get, Keeps-skip)

-- A test that is known to be true.
pub if_true-holds {ℓ κ μ} :
    {S : Type ℓ} {A : Type κ} (P : S → Type μ) (b : Bool) (m n : State S A) (s : S)
    → b ≡ true
    → P (m s).1
    → P ((if b then m else n) s).1
if_true-holds P true m n s e h = h
if_true-holds P false m n s e h = absurd (cc e)
