-- ===== src/Tests/SortExamples.antt =====
-- Insertion sort: an instance of what the code asks of std::sort.
use celo_desktop_app.Base.{
  ◌≡◌, refl, ap, ◌∙◌, Bool, true, false, some, List, [], ◌∷◌, suc, if◌then◌else◌, length, keep, All,
  arith, Bool-cases, inl, inr,
}
use celo_desktop_app.Base.Int.{ℤ, leb_ℤ}
use celo_desktop_app.Auth.Jump.Lists.{Sorted, Sorts, Among, Among-cons}

abbrev insert_pair : ℤ × ℤ → List (ℤ × ℤ) → List (ℤ × ℤ)
insert_pair x [] = x ∷ []
insert_pair x (y ∷ ys) = if leb_ℤ x.0 y.0 then x ∷ y ∷ ys else y ∷ insert_pair x ys

abbrev pub sort_pairs : List (ℤ × ℤ) → List (ℤ × ℤ)
sort_pairs [] = []
sort_pairs (x ∷ xs) = insert_pair x (sort_pairs xs)

leb_trans : (a b c : ℤ) → leb_ℤ a b ≡ true → leb_ℤ b c ≡ true → leb_ℤ a c ≡ true
leb_trans a b c h k = ground arith

leb_total : (a b : ℤ) → leb_ℤ a b ≡ false → leb_ℤ b a ≡ true
leb_total a b h = ground arith

All-le :
    (a b : ℤ) (l : List (ℤ × ℤ))
    → leb_ℤ a b ≡ true
    → All (λ z. leb_ℤ b z.0 ≡ true) l
    → All (λ z. leb_ℤ a z.0 ≡ true) l
All-le a b [] h k = tt
All-le a b (x ∷ xs) h k = (leb_trans a b x.0 h k.0, All-le a b xs h k.1)

All-insert :
    (a : ℤ) (x : ℤ × ℤ) (l : List (ℤ × ℤ))
    → leb_ℤ a x.0 ≡ true
    → All (λ z. leb_ℤ a z.0 ≡ true) l
    → All (λ z. leb_ℤ a z.0 ≡ true) (insert_pair x l)
All-insert a x [] h k = (h, tt)
All-insert a x (y ∷ ys) h k = elim (Bool-cases (leb_ℤ x.0 y.0)) [
  | inl t ↦ rw t (h, k)
  | inr f ↦ rw f (k.0, All-insert a x ys h k.1)
]

insert-Sorted : (x : ℤ × ℤ) (l : List (ℤ × ℤ)) → Sorted l → Sorted (insert_pair x l)
insert-Sorted x [] h = (tt, tt)
insert-Sorted x (y ∷ ys) h = elim (Bool-cases (leb_ℤ x.0 y.0)) [
  | inl t ↦ rw t ((t, All-le x.0 y.0 ys t h.0), h)
  | inr f ↦ rw f (All-insert y.0 x ys (leb_total x.0 y.0 f) h.0, insert-Sorted x ys h.1)
]

insert-keep :
    (p : ℤ × ℤ → Bool) (x : ℤ × ℤ) (l : List (ℤ × ℤ))
    → length (keep p (insert_pair x l)) ≡ length (keep p (x ∷ l))
insert-keep p x [] = refl
insert-keep p x (y ∷ ys) = elim (Bool-cases (leb_ℤ x.0 y.0)) [
  | inl t ↦ rw t refl
  | inr f ↦ rw f (swap (insert-keep p x ys))
]
  where
    swap :
        length (keep p (insert_pair x ys)) ≡ length (keep p (x ∷ ys))
        → length (keep p (y ∷ insert_pair x ys)) ≡ length (keep p (x ∷ y ∷ ys))
    swap h = ground (arith, h)

insert-Among : (e x : ℤ × ℤ) (l : List (ℤ × ℤ)) → Among e (insert_pair x l) → Among e (x ∷ l)
insert-Among e x [] h = h
insert-Among e x (y ∷ ys) h = elim (Bool-cases (leb_ℤ x.0 y.0)) [
  | inl t ↦ rw t at h
  | inr f ↦ elim (Among-cons e y (insert_pair x ys) (rw f at h)) [
    | inl k ↦ (1, ap some k)
    | inr k ↦ elim (Among-cons e x ys (insert-Among e x ys k)) [
      | inl z ↦ (0, ap some z)
      | inr z ↦ (suc (suc z.0), z.1)
    ]
  ]
]

sort-Sorted : (l : List (ℤ × ℤ)) → Sorted (sort_pairs l)
sort-Sorted [] = tt
sort-Sorted (x ∷ xs) = insert-Sorted x (sort_pairs xs) (sort-Sorted xs)

sort-keep :
    (p : ℤ × ℤ → Bool) (l : List (ℤ × ℤ)) → length (keep p (sort_pairs l)) ≡ length (keep p l)
sort-keep p [] = refl
sort-keep p (x ∷ xs) = insert-keep p x (sort_pairs xs) ∙ one_more (sort-keep p xs)
  where
    one_more :
        length (keep p (sort_pairs xs)) ≡ length (keep p xs)
        → length (keep p (x ∷ sort_pairs xs)) ≡ length (keep p (x ∷ xs))
    one_more h = ground (arith, h)

sort-Among : (l : List (ℤ × ℤ)) (e : ℤ × ℤ) → Among e (sort_pairs l) → Among e l
sort-Among [] e h = h
sort-Among (x ∷ xs) e h =
    elim (Among-cons e x (sort_pairs xs) (insert-Among e x (sort_pairs xs) h)) [
      | inl k ↦ (0, ap some k)
      | inr k ↦ let (i, z) = sort-Among xs e k in (suc i, z)
    ]

pub sort_pairs-Sorts : Sorts sort_pairs
sort_pairs-Sorts = record { sorted = sort-Sorted; same = sort-keep; member = sort-Among }
