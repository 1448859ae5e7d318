-- ===== src/Openvpn/LogPosition.antt =====
-- The position in the OpenVPN log: what is read from one version of the file after another.
use celo_desktop_app.Base.{
  ℕ, zero, suc, ◌+◌, ◌≤◌, ◌<◌, ◌≡◌, refl, sym, ap, ◌∙◌, List, [], ◌∷◌, ◌++◌, arith, ltb, ltb→lt,
  length, length-append, drop, append_assoc, append-nil, Bool-cases, inl, inr,
}
use celo_desktop_app.Base.Text.{Text}
use celo_desktop_app.Openvpn.LogFile.{new_bytes}

-- What a sequence of notifications reads, as the file grows by these pieces: the text handed to the
-- parser and the position at the end.
unfoldable pub read_all : ℕ → Text → List Text → Text × ℕ
read_all p file [] = ([], p)
read_all p file (piece ∷ pieces) =
    let now = file ++ piece in
    let step = new_bytes p now in
    let rest = read_all step.1 now pieces in (step.0 ++ rest.0, rest.1)

abbrev pub whole : Text → List Text → Text
whole file [] = file
whole file (piece ∷ pieces) = whole (file ++ piece) pieces

drop_all : (xs : Text) → drop (length xs) xs ≡ []
drop_all [] = refl
drop_all (x ∷ xs) = drop_all xs

drop-append : (n : ℕ) (xs ys : Text) → n ≤ length xs → drop n (xs ++ ys) ≡ drop n xs ++ ys
drop-append zero xs ys h = refl
drop-append (suc n) [] ys h = absurd (omega arith)
drop-append (suc n) (x ∷ xs) ys h = drop-append n xs ys (omega arith)

new_bytes_more :
    (p : ℕ) (file : Text) → p + 1 < length file → new_bytes p file ≡ (drop p file, length file)
unfolding new_bytes
new_bytes_more p file h = ground arith

new_bytes_few :
    (p : ℕ) (file : Text) → p ≤ length file → length file ≤ p + 1 → new_bytes p file ≡ ([], p)
unfolding new_bytes
new_bytes_few p file h k = ground arith

-- One notification about a file that has not shrunk hands over what lies behind the position, or
-- nothing, and leaves at most one unit unread.
pub new_bytes_lem :
    (p : ℕ) (file : Text)
    → p ≤ length file
    → ((new_bytes p file).0 ++ drop (new_bytes p file).1 file ≡ drop p file)
      × ((new_bytes p file).1 ≤ length file)
      × (length file ≤ (new_bytes p file).1 + 1)
new_bytes_lem p file h = elim (Bool-cases (ltb (p + 1) (length file))) [
  | inl more ↦
      rw (new_bytes_more p file (ltb→lt _ _ more))
        (rw (drop_all file) (append-nil _), omega arith, omega arith)
  | inr few ↦
      let k : length file ≤ p + 1 = ground arith in
      rw (new_bytes_few p file h k) (refl, omega arith, omega arith)
]

-- The file as it grows on is its present text and more.
whole-append : (file : Text) (pieces : List Text) → (t : Text) × (whole file pieces ≡ file ++ t)
whole-append file [] = ([], sym (append-nil file))
whole-append file (piece ∷ pieces) =
    let (t, e) = whole-append (file ++ piece) pieces in (piece ++ t, e ∙ append_assoc file piece t)

-- However often a growing log file is read, what was handed to the parser, followed by what is still
-- unread, is the file from the first position on: nothing is lost, doubled or reordered.
pub read_all_lem :
    (p : ℕ) (file : Text) (pieces : List Text)
    → p ≤ length file
    → (read_all p file pieces).0 ++ drop (read_all p file pieces).1 (whole file pieces)
      ≡ drop p (whole file pieces)
unfolding read_all
read_all_lem p file [] h = refl
read_all_lem p file (piece ∷ pieces) h =
    let now = file ++ piece in
    let b = new_bytes p now in
    let n : p ≤ length now = omega (arith, length-append file piece) in
    let (joined, inside, _) = new_bytes_lem p now n in
    let (t, e) = whole-append now pieces in
    append_assoc b.0 _ _
    ∙ ap (◌++◌ b.0) (read_all_lem b.1 now pieces inside)
    ∙ rw e (
        ap (◌++◌ b.0) (drop-append b.1 now t inside)
        ∙ sym (append_assoc b.0 _ t)
        ∙ ap (λ (x : Text). x ++ t) joined
        ∙ sym (drop-append p now t n))
