-- ===== src/Auth/PingText/Average.antt =====
-- The summary of ping: `… min/avg/max… = a/b/…`, of which b is taken.
use celo_desktop_app.Base.{
  ℕ, suc, ◌+◌, ◌-◌, ◌≡◌, sym, ap, ◌∙◌, true, false, Option, some, [], ◌∷◌, ◌++◌, arith, length,
  length-append, append_assoc, take,
}
use celo_desktop_app.Base.Int.{ℤ}
use celo_desktop_app.Base.Separators.{Lacks, index-field, drop-prefix, take-prefix}
use celo_desktop_app.Base.Text.{Text, codes, index_of, contains, mid, split_skip, next}
use celo_desktop_app.Common.{Qt}
use celo_desktop_app.Openvpn.Types.{Os, is_windows, linux, darwin, windows, trimmed}
use celo_desktop_app.Auth.PingText.{
  last_line, ping_or, between, unix_ping, ping_of_line, extract_ping,
}

-- The summary line, cut at the first `=` and at the two slashes behind it.
abbrev pub summary : Text → Text → Text → Text → Text
summary p a b c = p ++ (b'=' ∷ (a ++ (b'/' ∷ (b ++ (b'/' ∷ c)))))

snoc_append : (p s : Text) (x : ℕ) → p ++ (x ∷ s) ≡ (p ++ (x ∷ [])) ++ s
snoc_append p s x = sym (append_assoc p (x ∷ []) s)

length-snoc : (p : Text) (x : ℕ) → length (p ++ (x ∷ [])) ≡ suc (length p)
length-snoc p x = omega (arith, length-append {0} p (x ∷ []))

mid-prefix : (p b c : Text) → mid (length p) (length b) (p ++ (b ++ c)) ≡ b
mid-prefix p b c = ap (λ s. take (length b) s) (drop-prefix p (b ++ c)) ∙ take-prefix b c

module _ (qt : Qt) (to_double : Text → Option ℤ) where
  unix_ping-from :
      (s : Text) (n : ℕ)
      → contains s (codes "min/avg/max") ≡ true
      → next (index_of b'/' (next (index_of b'=' 0 s)) s) ≡ n
      → unix_ping qt to_double s ≡ between qt to_double s n (index_of b'/' n s)
  unfolding unix_ping
  unix_ping-from s n h e = rw h (ap (λ (k : ℕ). between qt to_double s k (index_of b'/' k s)) e)

  unix_ping-summary :
      (p a b c : Text)
      → Lacks b'=' p
      → Lacks b'/' a
      → Lacks b'/' b
      → contains (summary p a b c) (codes "min/avg/max") ≡ true
      → unix_ping qt to_double (summary p a b c) ≡ ping_or (to_double b)
  unix_ping-summary p a b c hp ha hb h =
      let s = summary p a b c in
      let p1 : Text = p ++ (b'=' ∷ []) in
      let p2 : Text = p1 ++ (a ++ (b'/' ∷ [])) in
      let e1 : s ≡ p1 ++ (a ++ (b'/' ∷ (b ++ (b'/' ∷ c)))) = snoc_append p _ b'=' in
      let e2 : s ≡ p2 ++ (b ++ (b'/' ∷ c)) =
        e1
        ∙ (ap (◌++◌ p1) (snoc_append a (b ++ (b'/' ∷ c)) b'/')
            ∙ sym (append_assoc p1 (a ++ (b'/' ∷ [])) (b ++ (b'/' ∷ c)))) in
      let equals : index_of b'=' 0 s ≡ some (length p) =
        index-field b'=' [] p (a ++ (b'/' ∷ (b ++ (b'/' ∷ c)))) hp ∙ ap some (omega arith) in
      let first : index_of b'/' (length p1) s ≡ some (length p1 + length a) =
        rw e1 (index-field b'/' p1 a (b ++ (b'/' ∷ c)) ha) in
      let second : index_of b'/' (length p2) s ≡ some (length p2 + length b) =
        rw e2 (index-field b'/' p2 b c hb) in
      let behind_first : next (index_of b'=' 0 s) ≡ length p1 =
        ap next equals ∙ omega (arith, length-snoc p b'=') in
      let behind_second : next (index_of b'/' (next (index_of b'=' 0 s)) s) ≡ length p2 =
        ap (λ (n : ℕ). next (index_of b'/' n s)) behind_first
        ∙ (ap next first
            ∙ omega (arith, length-append {0} p1 (a ++ (b'/' ∷ [])), length-snoc a b'/')) in
      let middle : mid (length p2) (length p2 + length b - length p2) s ≡ b =
        ap (λ (n : ℕ). mid (length p2) n s) (omega arith)
        ∙ (ap (λ t. mid (length p2) (length b) t) e2 ∙ mid-prefix p2 b (b'/' ∷ c)) in
      unix_ping-from s (length p2) h behind_second
      ∙ (ap (between qt to_double s (length p2)) second ∙ ap (λ t. ping_or (to_double t)) middle)

  -- When the last line of the output that is not empty, trimmed, holds `min/avg/max` and is cut at its first
  -- `=` and at the next two slashes, then on Linux and macOS the ping is the number between these slashes, or -1.
  pub extract_ping_lem :
      (os : Os) (out line p a b c : Text)
      → is_windows os ≡ false
      → last_line (split_skip b'\n' out) ≡ some line
      → trimmed qt line ≡ summary p a b c
      → Lacks b'=' p
      → Lacks b'/' a
      → Lacks b'/' b
      → contains (summary p a b c) (codes "min/avg/max") ≡ true
      → extract_ping qt to_double os out ≡ ping_or (to_double b)
  unfolding extract_ping ping_of_line
  extract_ping_lem linux out line p a b c o l t hp ha hb h =
      rw (l, t) (unix_ping-summary p a b c hp ha hb h)
  extract_ping_lem darwin out line p a b c o l t hp ha hb h =
      rw (l, t) (unix_ping-summary p a b c hp ha hb h)
  extract_ping_lem windows out line p a b c o l t hp ha hb h = absurd (cc o)
