-- ===== src/Auth/Jump/Lists.antt =====
-- Lists of pings: sorted, filtered, and what they hold.
use celo_desktop_app.Base.{
  ℕ, zero, suc, ◌<◌, ◌≤◌, ◌≡◌, refl, sym, ap, ◌∙◌, Bool, true, false, not, Option, none, some, List,
  [], ◌∷◌, is_empty, get_elem?, length, keep, All, arith, ◌⊎◌, Bool-cases, inl, inr, subst,
}
use celo_desktop_app.Base.Int.{ℤ, pos, negsuc, eqb_ℤ, ltb_ℤ, leb_ℤ}
use celo_desktop_app.Auth.Jump.{ping_at, get_pings, others, ping_ix}

-- The first parts of the pairs ascend.
abbrev pub Sorted : List (ℤ × ℤ) → Type 0
Sorted [] = Unit
Sorted (x ∷ xs) = All (λ y. leb_ℤ x.0 y.0 ≡ true) xs × Sorted xs

-- The value stands somewhere in the list.
abbrev pub Among {ℓ} : {A : Type ℓ} → A → List A → Type ℓ
Among x xs = (i : ℕ) × (get_elem? xs i ≡ some x)

-- What std::sort promises: an ascending order of the same elements.
pub record Sorts (sort : List (ℤ × ℤ) → List (ℤ × ℤ)) : Type 0 where
  pub sorted : (l : List (ℤ × ℤ)) → Sorted (sort l)
  pub same : (p : ℤ × ℤ → Bool) (l : List (ℤ × ℤ)) → length (keep p (sort l)) ≡ length (keep p l)
  pub member : (l : List (ℤ × ℤ)) (e : ℤ × ℤ) → Among e (sort l) → Among e l

abbrev or_else {ℓ} : {A : Type ℓ} → A → Option A → A
or_else d none = d
or_else d (some z) = z

some-eq {ℓ} : {A : Type ℓ} {x y : A} → some x ≡ some y → x ≡ y
some-eq {x = x} e = ap (or_else x) e

pub Among-cons {ℓ} : {A : Type ℓ} (x y : A) (ys : List A) → Among x (y ∷ ys) → (y ≡ x) ⊎ Among x ys
Among-cons x y ys (zero, h) = inl (some-eq h)
Among-cons x y ys (suc i, h) = inr (i, h)

later {ℓ} : {A : Type ℓ} → (x y : A) (xs : List A) → Among x xs → Among x (y ∷ xs)
later x y xs (i, h) = (suc i, h)

pub keep-Among {ℓ} :
    {A : Type ℓ} (q : A → Bool) (x : A) (xs : List A)
    → Among x (keep q xs)
    → Among x xs × (q x ≡ true)
keep-Among q x [] (i, h) = absurd (cc h)
keep-Among q x (y ∷ ys) h = elim (Bool-cases (q y)) [
  | inl t ↦ elim (Among-cons x y (keep q ys) (rw t at h)) [
    | inl e ↦ ((0, ap some e), subst (λ z. q z ≡ true) e t)
    | inr k ↦ let (a, b) = keep-Among q x ys k in (later x y ys a, b)
  ]
  | inr f ↦ let (a, b) = keep-Among q x ys (rw f at h) in (later x y ys a, b)
]

module _ (q : ℤ × ℤ → Bool) where
  none_kept : (l : List (ℤ × ℤ)) → All (λ y. q y ≡ false) l → length (keep q l) ≡ 0
  none_kept [] h = refl
  none_kept (x ∷ xs) h = rw h.0 (none_kept xs h.1)

  keep-cons-le :
      (x : ℤ × ℤ) (xs : List (ℤ × ℤ)) → length (keep q (x ∷ xs)) ≤ suc (length (keep q xs))
  keep-cons-le x xs = ground arith

pub all_kept : (l : List (ℤ × ℤ)) → length (keep (λ y. true) l) ≡ length l
all_kept [] = refl
all_kept (x ∷ xs) = ap suc (all_kept xs)

not_less : (a b : ℤ) → leb_ℤ a b ≡ true → ltb_ℤ b a ≡ false
not_less a b h = ground arith

ltb_ℤ-irrefl : (a : ℤ) → ltb_ℤ a a ≡ false
ltb_ℤ-irrefl a = ground arith

ge-All :
    (e : ℤ) (xs : List (ℤ × ℤ))
    → All (λ y. leb_ℤ e y.0 ≡ true) xs
    → All (λ y. ltb_ℤ y.0 e ≡ false) xs
ge-All e [] h = tt
ge-All e (x ∷ xs) h = (not_less e x.0 h.0, ge-All e xs h.1)

-- Before the place `i` of a sorted list stand all that are smaller.
pub smaller-le :
    (l : List (ℤ × ℤ)) (i : ℕ) (e : ℤ × ℤ)
    → Sorted l
    → get_elem? l i ≡ some e
    → length (keep (λ y. ltb_ℤ y.0 e.0) l) ≤ i
smaller-le [] i e s h = absurd (cc h)
smaller-le (x ∷ xs) zero e s h =
    subst (λ (y : ℤ × ℤ). length (keep (λ z. ltb_ℤ z.0 y.0) (x ∷ xs)) ≤ 0) (some-eq h)
      (let k = none_kept (λ z. ltb_ℤ z.0 x.0) (x ∷ xs) (ltb_ℤ-irrefl x.0, ge-All x.0 xs s.0) in
        omega (arith, k))
smaller-le (x ∷ xs) (suc i) e s h =
    let rest = smaller-le xs i e s.1 h in
    let one = keep-cons-le (λ y. ltb_ℤ y.0 e.0) x xs in omega (arith, rest, one)

pub get_elem?-lt {ℓ} :
    {A : Type ℓ} → (l : List A) (i : ℕ) → i < length l → (e : A) × (get_elem? l i ≡ some e)
get_elem?-lt [] i h = elim h [ ]
get_elem?-lt (x ∷ xs) zero h = (x, refl)
get_elem?-lt (x ∷ xs) (suc i) h = get_elem?-lt xs i (omega arith)

-- What `others` keeps.
pub others-Among :
    (prev r : ℤ) (ids : List ℤ) → Among r (others prev ids) → Among r ids × (eqb_ℤ r prev ≡ false)
unfolding others
others-Among prev r ids h =
    let (a, b) = keep-Among (λ id. not (eqb_ℤ id prev)) r ids h in (a, ground (arith, b))

-- A known ping is the ping of its server.
pub known-Among :
    (ps ids : List ℤ) (e : ℤ × ℤ)
    → Among e (ping_ix (get_pings ps ids) ids)
    → Among e.1 ids × (ping_at ps e.1 ≡ e.0) × (ltb_ℤ (negsuc 0) e.0 ≡ true)
unfolding ping_ix get_pings
known-Among ps [] e (i, h) = absurd (cc h)
known-Among ps (id ∷ ids) e h = elim (Bool-cases (ltb_ℤ (negsuc 0) (ping_at ps id))) [
  | inl t ↦ elim (Among-cons e (ping_at ps id, id) (ping_ix (get_pings ps ids) ids) (rw t at h)) [
    | inl k ↦
        let q : ping_at ps e.1 ≡ e.0 =
          ap (λ (z : ℤ × ℤ). ping_at ps z.1) (sym k) ∙ ap (λ (z : ℤ × ℤ). z.0) k in
        (
          (0, ap (λ (z : ℤ × ℤ). some z.1) k),
          q,
          subst (λ (z : ℤ × ℤ). ltb_ℤ (negsuc 0) z.0 ≡ true) k t,
        )
    | inr k ↦ let (a, b, c) = known-Among ps ids e k in (later e.1 id ids a, b, c)
  ]
  | inr f ↦ let (a, b, c) = known-Among ps ids e (rw f at h) in (later e.1 id ids a, b, c)
]

pub no_length {ℓ} : {A : Type ℓ} → (l : List A) → length l ≡ 0 → is_empty l ≡ true
no_length [] h = refl
no_length (x ∷ xs) h = ground (arith, h)

pub some_length {ℓ} : {A : Type ℓ} {n : ℕ} → (l : List A) → length l ≡ suc n → is_empty l ≡ false
some_length [] h = ground (arith, h)
some_length (x ∷ xs) h = refl

pub All-Among :
    (xs : List ℤ) (x : ℤ)
    → Among x xs
    → All (λ id. ltb_ℤ id (pos 0) ≡ false) xs
    → ltb_ℤ x (pos 0) ≡ false
All-Among [] x (i, h) b = absurd (cc h)
All-Among (y ∷ ys) x h b = elim (Among-cons x y ys h) [
  | inl e ↦ subst (λ z. ltb_ℤ z (pos 0) ≡ false) e b.0
  | inr k ↦ All-Among ys x k b.1
]
