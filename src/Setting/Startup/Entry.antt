-- ===== src/Setting/Startup/Entry.antt =====
-- Which entries delete_startup finds in the text of the file.
use celo_desktop_app.Base.{
  ℕ, zero, suc, ◌+◌, ◌≤◌, ◌<◌, ◌≡◌, refl, ap, ◌∙◌, Option, none, some, [], ◌++◌, drop, arith,
}
use celo_desktop_app.Base.Count.{count, Counted, index-Counted, count-drop-le}
use celo_desktop_app.Base.Text.{Text, codes, index_of, find_text, find_unit}
use celo_desktop_app.Setting.Startup.{
  desktop_entry, line_ends, next_ends, search_ends, beginning, cut, delete_at, delete_startup,
}

-- The entry by itself, as setStartup writes it into a new file.
own : delete_startup desktop_entry desktop_entry ≡ some []
unfolding delete_startup beginning next_ends search_ends desktop_entry find_text index_of find_unit
own = refl

after_index :
    (n last : ℕ) (s : Text) (o : Option ℕ)
    → Counted b'\n' (last + 1) s o
    → count b'\n' (drop (last + 1) s) < suc n
    → ((p : ℕ) → count b'\n' (drop (p + 1) s) < n → search_ends n p s ≡ none)
    → elim o as (λ x. Option ℕ) [ none ↦ none | some p ↦ search_ends n p s ] ≡ none
after_index n last s none h b ih = refl
after_index n last s (some p) h b ih =
    let e : p + 1 ≡ suc p = omega arith in ih p (rw e (omega (arith, h, b)))

-- The searches fail where fewer line ends are left.
search_ends-none :
    (n last : ℕ) (s : Text) → count b'\n' (drop (last + 1) s) < n → search_ends n last s ≡ none
unfolding search_ends
search_ends-none zero last s b = elim b [ ]
search_ends-none (suc n) last s b =
    after_index n last s (index_of b'\n' (last + 1) s) (index-Counted b'\n' (last + 1) s) b
      (λ p c. search_ends-none n p s c)

few_left : (p : ℕ) → 15 ≤ p → count b'\n' (drop (p + 1) desktop_entry) < line_ends desktop_entry
unfolding desktop_entry
few_left p h =
    let k = count-drop-le b'\n' 16 (p + 1) desktop_entry (omega (arith, h)) in omega (arith, k)

-- The lines that delete_startup looks for.
abbrev pub first_lines : Text
first_lines = codes "[Desktop Entry]\nType=Application\nName=celoVPN"

beginning-entry : beginning desktop_entry ≡ some first_lines
unfolding beginning next_ends desktop_entry index_of find_unit
beginning-entry = refl

looked :
    (s : Text)
    → delete_startup desktop_entry s ≡ delete_at desktop_entry s (find_text first_lines s)
unfolding delete_startup
looked s =
    ap
      (λ (o : Option Text). elim o as (λ x. Option Text) [
        | none ↦ none
        | some first ↦ delete_at desktop_entry s (find_text first s)
      ])
      beginning-entry

at_start : (rest : Text) → delete_startup desktop_entry (desktop_entry ++ rest) ≡ some rest
unfolding delete_startup beginning next_ends search_ends desktop_entry find_text index_of find_unit
at_start rest = refl

-- From the text of a file that begins with an entry, delete_startup computes the text behind it. When
-- the first lines of an entry stand first at a place p ≥ 15 of the text, it computes nothing.
pub delete_startup_lem :
    (rest s : Text) (p : ℕ)
    → 15 ≤ p
    → find_text first_lines s ≡ some p
    → (delete_startup desktop_entry (desktop_entry ++ rest) ≡ some rest)
      × (delete_startup desktop_entry s ≡ none)
delete_startup_lem rest s p h e = (
  at_start rest,
  looked s
      ∙ (ap (delete_at desktop_entry s) e
          ∙ ap (cut s p)
              (search_ends-none (line_ends desktop_entry) p desktop_entry (few_left p h))),
)
