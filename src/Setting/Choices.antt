-- ===== src/Setting/Choices.antt =====
-- The values that the user chooses: what is stored is what is read, if it is accepted.
use celo_desktop_app.Base.{
  ℕ, suc, ◌+◌, ◌-◌, ◌%◌, ◌<◌, ◌≤◌, ◌≡◌, refl, ap, ◌∙◌, ◌↔◌, true, false, not, Option, none, some,
  List, [], ◌∷◌, arith, if◌then◌else◌, Bool-cases, inl, inr, All, is_empty, length, ◌⊎◌,
}
use celo_desktop_app.Base.Int.{ℤ, pos, leb_ℤ}
use celo_desktop_app.Base.Text.{Text, codes, ◌=text◌, split}
use celo_desktop_app.Common.{Qt, int_of, is_valid_port}
use celo_desktop_app.Common.Validity.{is_valid_port_iff}
use celo_desktop_app.Setting.Store.{
  Variant, text_value, Conversions, Converts, Preferences, value, set_value,
}
use celo_desktop_app.Setting.Values.{
  insert_sorted, sort, local_port, set_local_port, valid_ports, or_none, forward_ports, within_day,
  check_age, check_for_updates, update_message_shown,
}
use celo_desktop_app.Setting.Ports.{find-put}

-- Qt reads no number from an empty text, and the text of a number is not `undefined`.
pub record Numbers (qt : Qt) : Type 0 where
  pub to_int_empty : qt.to_int [] ≡ none
  pub number_defined : (n : ℕ) → (qt.number (pos n) =text codes "undefined") ≡ false

module _ (qt : Qt) (cv : Conversions) (numbers : Numbers qt) (laws : Converts cv qt.number) where
  pub text_stored :
      (k t : Text) (otherwise : Variant) (p : Preferences)
      → cv.to_text (value k otherwise (set_value k (text_value t) p).1) ≡ t
  unfolding set_value
  text_stored k t otherwise p =
      ap (λ (o : Option Variant). cv.to_text (elim o [ none ↦ otherwise | some w ↦ w ]))
        (find-put k (text_value t) p.settings)
      ∙ laws.text_text t

  local_port-text :
      (q : Preferences) (s : Text)
      → cv.to_text (value (codes "e_LocalPort") (text_value (codes "11")) q) ≡ s
      → is_empty s ≡ false
      → local_port qt cv q ≡ s
  unfolding local_port
  local_port-text q s e n = ap (λ (x : Text). if is_empty x then codes "6842" else x) e ∙ rw n refl

  valid-ne-empty : (s : Text) → is_valid_port qt s ≡ true → is_empty s ≡ false
  valid-ne-empty [] h =
      let (n, e, _, _) = (is_valid_port_iff qt []).0 h in absurd (cc (e, numbers.to_int_empty))
  valid-ne-empty (c ∷ s) h = refl

  -- A local port that is accepted is the one that is used, and one that is refused changes nothing.
  pub set_local_port_lem :
      (s : Text) (p : Preferences)
      → local_port qt cv (set_local_port qt cv s p).1
        ≡ (if is_valid_port qt s then s else local_port qt cv p)
  unfolding set_local_port
  set_local_port_lem s p = elim (Bool-cases (is_valid_port qt s)) [
    | inl ok ↦ rw ok (
        local_port-text _ s (text_stored (codes "e_LocalPort") s (text_value (codes "11")) p)
          (valid-ne-empty s ok))
    | inr bad ↦ rw bad refl
  ]

  pub check-text :
      (curr n : ℕ) (q : Preferences)
      → n < 4294967296
      → cv.to_text (value (codes "LastUpdMsg") (text_value (codes "undefined")) q)
        ≡ qt.number (pos n)
      → check_for_updates qt cv curr q ≡ not (within_day qt cv curr n)
  unfolding check_for_updates
  check-text curr n q k e =
      ap
        (λ (x : Text).
          if x =text codes "undefined" then true else check_age qt cv curr (cv.to_uint x))
        e
      ∙ rw (numbers.number_defined n, laws.uint_number n k) refl

  pub elapsed :
      (t curr : ℕ) → t ≤ curr → curr < 4294967296 → (curr + 4294967296 - t) % 4294967296 ≡ curr - t
  elapsed t curr h k = omega arith

  -- Within a day of the message about an update no other is due, and from then on one is, until the
  -- times are 2 ^ 31 seconds apart.
  pub update_message_shown_lem :
      (t curr : ℕ) (p : Preferences)
      → t ≤ curr
      → curr < 4294967296
      → (check_for_updates qt cv curr (update_message_shown qt cv t p).1 ≡ true)
        ↔ ((86400 ≤ curr - t) × (curr - t < 2147483648))
  unfolding update_message_shown
  update_message_shown_lem t curr p h k =
      let e =
        check-text curr t (set_value (codes "LastUpdMsg") (text_value (qt.number (pos t))) p).1
          (omega arith)
          (text_stored (codes "LastUpdMsg") (qt.number (pos t)) (text_value (codes "undefined"))
            p) in
      rw (e, elapsed t curr h k) (λ on. (ground arith, ground arith), λ (late, near). ground arith)

-- A number from 1 to 65535.
abbrev pub IsPort : ℤ → Type 0
IsPort v = (n : ℕ) × (v ≡ pos n) × (1 ≤ n) × (n ≤ 65535)

insert_sorted-All :
    (x : ℤ) (ys : List ℤ) → IsPort x → All IsPort ys → All IsPort (insert_sorted x ys)
unfolding insert_sorted
insert_sorted-All x [] hx h = (hx, tt)
insert_sorted-All x (y ∷ ys) hx h = elim (Bool-cases (leb_ℤ x y)) [
  | inl le ↦ rw le (hx, h)
  | inr gt ↦ rw gt (h.0, insert_sorted-All x ys hx h.1)
]

sort-All : (xs : List ℤ) → All IsPort xs → All IsPort (sort xs)
unfolding sort
sort-All [] h = tt
sort-All (x ∷ xs) h = insert_sorted-All x (sort xs) h.0 (sort-All xs h.1)

length-insert_sorted : (x : ℤ) (ys : List ℤ) → length (insert_sorted x ys) ≡ suc (length ys)
unfolding insert_sorted
length-insert_sorted x [] = refl
length-insert_sorted x (y ∷ ys) = elim (Bool-cases (leb_ℤ x y)) [
  | inl le ↦ rw le refl
  | inr gt ↦ rw gt (ap suc (length-insert_sorted x ys))
]

length-sort : (xs : List ℤ) → length (sort xs) ≡ length xs
unfolding sort
length-sort [] = refl
length-sort (x ∷ xs) = length-insert_sorted x (sort xs) ∙ ap suc (length-sort xs)

module _ (qt : Qt) (cv : Conversions) where
  -- What the loop of forwardPorts collects: a port for every part, or nothing.
  Collected : List Text → Option (List ℤ) → Type 0
  Collected ws none = Unit {0}
  Collected ws (some vs) = All IsPort vs × (length vs ≡ length ws)

  valid_ports-step :
      (w : Text) (ws : List Text) (o : Option (List ℤ))
      → Collected ws o
      → Collected (w ∷ ws) (elim o [
        | none ↦ none
        | some rest ↦ if is_valid_port qt w then some (int_of (qt.to_int w) ∷ rest) else none
      ])
  unfolding Collected
  valid_ports-step w ws none h = tt
  valid_ports-step w ws (some rest) h = elim (Bool-cases (is_valid_port qt w)) [
    | inl ok ↦
        let (n, e, low, high) = (is_valid_port_iff qt w).0 ok in
        rw (ok, e) (((n, refl, low, high), h.0), ap suc h.1)
    | inr bad ↦ rw bad tt
  ]

  valid_ports-Collected : (ws : List Text) → Collected ws (valid_ports qt cv ws)
  unfolding valid_ports Collected
  valid_ports-Collected [] = (tt, refl)
  valid_ports-Collected (w ∷ ws) =
      valid_ports-step w ws (valid_ports qt cv ws) (valid_ports-Collected ws)

  -- The parts of the stored text of ports.
  abbrev pub parts : Preferences → List Text
  parts p = split b',' (cv.to_text (value (codes "e_Ports") (text_value []) p))

  -- forwardPorts gives ports from 1 to 65535 only, and either one for each part of the stored text or
  -- none at all.
  pub forward_ports_lem :
      (p : Preferences)
      → All IsPort (forward_ports qt cv p)
        × ((forward_ports qt cv p ≡ []) ⊎ (length (forward_ports qt cv p) ≡ length (parts p)))
  unfolding forward_ports Collected sort
  forward_ports_lem p = by_result (valid_ports qt cv (parts p)) (valid_ports-Collected (parts p))
    where
      by_result :
          (o : Option (List ℤ))
          → Collected (parts p) o
          → All IsPort (sort (or_none qt cv o))
            × ((sort (or_none qt cv o) ≡ []) ⊎ (length (sort (or_none qt cv o)) ≡ length (parts p)))
      by_result none h = (tt, inl refl)
      by_result (some vs) h = (sort-All vs h.0, inr (length-sort vs ∙ h.1))
