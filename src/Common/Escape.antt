-- ===== src/Common/Escape.antt =====
-- What EscapePsw keeps of a name or password.
use celo_desktop_app.Base.{
  ℕ, ◌≡◌, refl, sym, ap, ◌∙◌, ◌≢◌, true, false, Option, none, some, [], ◌∷◌, ◌++◌, arith, ◌==◌,
  if◌then◌else◌, Bool-cases, ==_iff, inl, inr,
}
use celo_desktop_app.Base.Text.{Text}
use celo_desktop_app.Common.{escape_psw, count_unit}

-- An inverse of EscapePsw, for the proofs: what was read, and what follows the closing quote.
abbrev Quoted : Type 0
Quoted = Option (Text × Text)

abbrev and_read : ℕ → Quoted → Quoted
and_read c none = none
and_read c (some (s, rest)) = some (c ∷ s, rest)

unfoldable read_quoted : Text → Quoted
read_quoted [] = none
read_quoted (c ∷ []) = if c == b'"' then some ([], []) else none
read_quoted (c ∷ d ∷ cs) =
    let escaped = and_read d (read_quoted cs) in
    let plain = and_read c (read_quoted (d ∷ cs)) in
    if c == b'"' then some ([], d ∷ cs) else if c == b'\\' then escaped else plain

-- An ordinary unit in front of a text that still has a unit is read as itself.
read_plain :
    (c : ℕ) (s : Text)
    → (c == b'"') ≡ false
    → (c == b'\\') ≡ false
    → s ≢ []
    → read_quoted (c ∷ s) ≡ and_read c (read_quoted s)
unfolding read_quoted
read_plain c [] p q h = absurd (h refl)
read_plain c (d ∷ cs) p q h = rw (p, q)

escaped-ne-nil : (s rest : Text) → escape_psw s ++ (b'"' ∷ rest) ≢ []
unfolding escape_psw
escaped-ne-nil [] rest = ground arith
escaped-ne-nil (c ∷ cs) rest = ground arith

read_escaped : (d : ℕ) (s : Text) → read_quoted (b'\\' ∷ d ∷ s) ≡ and_read d (read_quoted s)
unfolding read_quoted
read_escaped d s = refl

-- The reader undoes the escape of a backslash and of a quote.
read_special :
    (c d : ℕ) (s rest : Text)
    → read_quoted (escape_psw s ++ (b'"' ∷ rest)) ≡ some (s, rest)
    → (c == d) ≡ true
    → read_quoted (b'\\' ∷ d ∷ (escape_psw s ++ (b'"' ∷ rest))) ≡ some (c ∷ s, rest)
read_special c d s rest ih h =
    read_escaped d (escape_psw s ++ (b'"' ∷ rest))
    ∙ ap (and_read d) ih
    ∙ ap (λ x. some (x ∷ s, rest)) (sym ((==_iff c d).0 h))

-- The inverse reads back what was escaped.
read_quoted-escape_psw :
    (s rest : Text) → read_quoted (escape_psw s ++ (b'"' ∷ rest)) ≡ some (s, rest)
unfolding escape_psw
read_quoted-escape_psw [] [] = unfold read_quoted in refl
read_quoted-escape_psw [] (d ∷ rest) = unfold read_quoted in refl
read_quoted-escape_psw (c ∷ cs) rest = elim (Bool-cases (c == b'\\')) [
  | inl p ↦ rw p (read_special c b'\\' cs rest (read_quoted-escape_psw cs rest) p)
  | inr p ↦ elim (Bool-cases (c == b'"')) [
    | inl q ↦ rw (p, q) (read_special c b'"' cs rest (read_quoted-escape_psw cs rest) q)
    | inr q ↦
        rw (p, q)
          (read_plain c (escape_psw cs ++ (b'"' ∷ rest)) q p (escaped-ne-nil cs rest)
            ∙ ap (and_read c) (read_quoted-escape_psw cs rest))
  ]
]

read_text : Quoted → Text
read_text none = []
read_text (some r) = r.0

left_over : Quoted → Text
left_over none = []
left_over (some r) = r.1

-- Where two texts begin with an escaped text and a quote behind it and are equal, the texts that were
-- escaped are equal, and so is what follows the quotes.
pub escape_psw-quoted :
    (s t rest end : Text)
    → escape_psw s ++ (b'"' ∷ rest) ≡ escape_psw t ++ (b'"' ∷ end)
    → (s ≡ t) × (rest ≡ end)
unfolding read_text left_over
escape_psw-quoted s t rest end h =
    let e : some (s, rest) ≡ some (t, end) =
      sym (read_quoted-escape_psw s rest) ∙ (ap read_quoted h ∙ read_quoted-escape_psw t end) in
    (ap read_text e, ap left_over e)

-- EscapePsw leaves line ends alone: as many as in the text that it is given.
pub count_unit-escape_psw : (s : Text) → count_unit b'\n' (escape_psw s) ≡ count_unit b'\n' s
unfolding escape_psw count_unit
count_unit-escape_psw [] = refl
count_unit-escape_psw (c ∷ cs) = ground (arith, count_unit-escape_psw cs)
