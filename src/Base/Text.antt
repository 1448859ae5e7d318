-- ===== src/Base/Text.antt =====
-- Text as a list of UTF-16 code units, with the QString methods that the program calls. A position
-- is `none` where Qt returns -1.
use Prim.Native.Char.{code}
use Prim.Native.Nat.{ℕ, zero, suc, ◌+◌}
use Prim.Native.String.{String}
use mathlib.Core.Bool.{Bool, true, false, ◌&&◌}
use mathlib.Core.List.{List, [], ◌∷◌, ◌++◌}
use mathlib.Core.Option.{Option, none, some}
use celo_desktop_app.Base.Tests.{◌==◌, if◌then◌else◌}
use celo_desktop_app.Base.Lists.{take, drop, is_empty}

abbrev pub Text : Type 0
Text = List ℕ

-- The code units of a literal.
abbrev pub codes : String → Text
codes String.[] = []
codes (String.◌∷◌ c s) = code c ∷ codes s

infix 50 ◌=text◌
abbrev pub ◌=text◌ : Text → Text → Bool
[] =text [] = true
[] =text (y ∷ ys) = false
(x ∷ xs) =text [] = false
(x ∷ xs) =text (y ∷ ys) = (x == y) && (xs =text ys)

-- QString::startsWith.
abbrev pub starts_with : Text → Text → Bool
starts_with s [] = true
starts_with [] (y ∷ ys) = false
starts_with (x ∷ xs) (y ∷ ys) = (x == y) && starts_with xs ys

-- `p + 1` for a position that may be -1.
abbrev pub next : Option ℕ → ℕ
next none = 0
next (some p) = p + 1

abbrev pub shift : Option ℕ → Option ℕ
shift none = none
shift (some p) = some (suc p)

-- The first unit `c` of the text.
unfoldable pub find_unit : ℕ → Text → Option ℕ
find_unit c [] = none
find_unit c (x ∷ xs) = if x == c then some 0 else shift (find_unit c xs)

-- QString::indexOf(c, from).
unfoldable pub index_of : ℕ → ℕ → Text → Option ℕ
index_of c zero s = find_unit c s
index_of c (suc from) [] = none
index_of c (suc from) (x ∷ xs) = shift (index_of c from xs)

-- QString::indexOf(text), from the start.
unfoldable pub find_text : Text → Text → Option ℕ
find_text t [] = if is_empty t then some 0 else none
find_text t (x ∷ xs) = if starts_with (x ∷ xs) t then some 0 else shift (find_text t xs)

abbrev pub is_found : Option ℕ → Bool
is_found none = false
is_found (some p) = true

-- QString::contains(text).
unfoldable pub contains : Text → Text → Bool
contains s t = is_found (find_text t s)

-- QString::mid(from, count) and QString::mid(from).
abbrev pub mid : ℕ → ℕ → Text → Text
mid from count s = take count (drop from s)

-- QString::split(c) with QString::KeepEmptyParts.
abbrev pub put_first : ℕ → List Text → List Text
put_first x [] = (x ∷ []) ∷ []
put_first x (w ∷ ws) = (x ∷ w) ∷ ws

unfoldable pub split : ℕ → Text → List Text
split c [] = [] ∷ []
split c (x ∷ xs) = if x == c then [] ∷ split c xs else put_first x (split c xs)

abbrev pub drop_empty : List Text → List Text
drop_empty [] = []
drop_empty (w ∷ ws) = if is_empty w then drop_empty ws else w ∷ drop_empty ws

-- QString::split(c, QString::SkipEmptyParts).
abbrev pub split_skip : ℕ → Text → List Text
split_skip c s = drop_empty (split c s)

-- QString::remove(c) for a single unit.
unfoldable pub remove_unit : ℕ → Text → Text
remove_unit c [] = []
remove_unit c (x ∷ xs) = if x == c then remove_unit c xs else x ∷ remove_unit c xs

-- QStringList::join.
unfoldable pub join : ℕ → List Text → Text
join c [] = []
join c (w ∷ []) = w
join c (w ∷ v ∷ ws) = w ++ (c ∷ join c (v ∷ ws))

-- QString::trimmed, for the class of spaces `p`.
unfoldable pub trim_start : (ℕ → Bool) → Text → Text
trim_start p [] = []
trim_start p (x ∷ xs) = if p x then trim_start p xs else x ∷ xs

unfoldable pub trim_end : (ℕ → Bool) → Text → Text
trim_end p [] = []
trim_end p (x ∷ xs) =
    let rest = trim_end p xs in if is_empty rest then (if p x then [] else x ∷ []) else x ∷ rest
