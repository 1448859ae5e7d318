-- ===== src/Setting/Startup.antt =====
-- Setting::setStartup on Linux: the entry in the autostart file, and delete_startup.
pub mod Entry
use celo_desktop_app.Base.{
  ℕ, zero, suc, ◌+◌, Bool, true, false, Option, none, some, List, [], ◌∷◌, ◌++◌, if◌then◌else◌,
  length, keep, take, drop, ◌==◌,
}
use celo_desktop_app.Base.Count.{count}
use celo_desktop_app.Base.Text.{Text, codes, next, index_of, find_text}

-- gs_desktop.
unfoldable pub desktop_entry : Text
desktop_entry =
    codes
      "[Desktop Entry]\nType=Application\nName=celoVPN\nExec=/opt/celovpn/celovpn\nIcon=/usr/share/icons/hicolor/64x64/apps/celovpn.png\nComment=OpenVPN client for celo.net\nX-GNOME-Autostart-enabled=true\n"

abbrev pub line_ends : Text → ℕ
line_ends s = count b'\n' s

-- `n` searches for a line end in `entry`, each from behind the last place, while there is one.
unfoldable pub search_ends : ℕ → ℕ → Text → Option ℕ
search_ends zero last entry = some last
search_ends (suc n) last entry = elim (index_of b'\n' (last + 1) entry) [
  | none ↦ none
  | some p ↦ search_ends n p entry
]

-- `n` searches for a line end, whether or not there is one.
unfoldable pub next_ends : ℕ → Option ℕ → Text → Option ℕ
next_ends zero last entry = last
next_ends (suc n) last entry = next_ends n (index_of b'\n' (next last) entry) entry

-- The first lines of the entry, up to its third line end.
unfoldable pub beginning : Text → Option Text
beginning entry = elim (next_ends 3 (some 0) entry) [ none ↦ none | some n3 ↦ some (take n3 entry) ]

abbrev pub cut : Text → ℕ → Option ℕ → Option Text
cut s p none = none
cut s p (some last) = some (take p s ++ drop (last + 1) s)

abbrev pub delete_at : Text → Text → Option ℕ → Option Text
delete_at entry s none = none
delete_at entry s (some p) = cut s p (search_ends (line_ends entry) p entry)

-- The text that delete_startup computes, or nothing.
unfoldable pub delete_startup : Text → Text → Option Text
delete_startup entry s = elim (beginning entry) [
  | none ↦ none
  | some first ↦ delete_at entry s (find_text first s)
]

-- The calls of setStartup for the directory and the file. A write starts where the file's position is:
-- behind read_all and resize that is the new end.
pub data FileAction : Type 0 where
  make_path open_read_write open_append read_all : FileAction
  resize : ℕ → FileAction
  write : Text → FileAction

abbrev pub rewrite : Option Text → List FileAction
rewrite none = []
rewrite (some out) = resize (length out) ∷ write out ∷ []

-- Whether the file exists, and then what it holds.
abbrev pub add_entry : Option Text → List FileAction
add_entry none = open_append ∷ write desktop_entry ∷ []
add_entry (some s) =
    open_read_write
    ∷ read_all
    ∷ (rewrite (delete_startup desktop_entry s) ++ (write desktop_entry ∷ []))

abbrev pub remove_entry : Option Text → List FileAction
remove_entry none = []
remove_entry (some s) = open_read_write ∷ read_all ∷ rewrite (delete_startup desktop_entry s)

-- setStartup behind the setting; `made` is what mkpath returns.
unfoldable pub set_startup : Bool → Bool → Option Text → List FileAction
set_startup made v file =
    if v then make_path ∷ (if made then add_entry file else []) else remove_entry file
