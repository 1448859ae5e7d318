-- ===== src/Openvpn/Addresses.antt =====
-- The address that gotConnected takes from a state line `time,word,detail,local,remote,…`.
use celo_desktop_app.Base.{
  ℕ, suc, ◌+◌, ◌-◌, ◌≡◌, refl, sym, ap, ◌∙◌, Option, none, some, List, [], ◌∷◌, ◌++◌, arith, length,
  length-append, append_assoc, append-nil, All,
}
use celo_desktop_app.Base.Separators.{Lacks, drop-prefix, index-field, index-none, take-prefix}
use celo_desktop_app.Base.Text.{Text, next, index_of}
use celo_desktop_app.Openvpn.Lines.{nth_comma, connected_ip, until_comma}

-- A text with no comma.
abbrev pub IsField : Text → Type 0
IsField = Lacks b','

-- The fields, each with its comma, and what follows.
abbrev pub line : List Text → Text → Text
line [] rest = rest
line (f ∷ fs) rest = f ++ (b',' ∷ line fs rest)

-- One round of the loop, from behind a prefix to behind its next field.
nth_comma-step :
    (k : ℕ) (p : Option ℕ) (pre f rest : Text)
    → next p ≡ length pre
    → IsField f
    → nth_comma (suc k) p (pre ++ (f ++ (b',' ∷ rest)))
      ≡ nth_comma k (some (length pre + length f)) (pre ++ (f ++ (b',' ∷ rest)))
unfolding nth_comma
nth_comma-step k p pre f rest e h = rw (e, index-field b',' pre f rest h)

regroup : (pre f rest : Text) → pre ++ (f ++ (b',' ∷ rest)) ≡ (pre ++ (f ++ (b',' ∷ []))) ++ rest
regroup pre f rest =
    ap (◌++◌ pre) (sym (append_assoc f (b',' ∷ []) rest)) ∙ sym (append_assoc pre _ rest)

length-regroup : (pre f : Text) → length (pre ++ (f ++ (b',' ∷ []))) ≡ length pre + length f + 1
length-regroup pre f =
    omega (arith, length-append pre (f ++ (b',' ∷ [])), length-append f (b',' ∷ []))

-- After as many rounds as there are fields the loop stands on the last one's comma.
nth_comma-line :
    (fs : List Text) (p : Option ℕ) (pre rest : Text)
    → next p ≡ length pre
    → All IsField fs
    → next (nth_comma (length fs) p (pre ++ line fs rest)) ≡ length (pre ++ line fs [])
nth_comma-line [] p pre rest e h = unfold nth_comma in e ∙ ap length (sym (append-nil pre))
nth_comma-line (f ∷ fs) p pre rest e h =
    rw (nth_comma-step (length fs) p pre f (line fs rest) e h.0) (
      rw (regroup pre f (line fs rest)) (
        nth_comma-line fs (some (length pre + length f)) (pre ++ (f ++ (b',' ∷ []))) rest
          (sym (length-regroup pre f)) h.1
        ∙ ap length (sym (regroup pre f (line fs [])))))

length-line : (f : Text) (fs : List Text) → (n : ℕ) × (length (line (f ∷ fs) []) ≡ suc n)
length-line f fs =
    (length f + length (line fs []), omega (arith, length-append f (b',' ∷ line fs [])))

found-next : (p : Option ℕ) (n : ℕ) → next p ≡ suc n → p ≡ some n
found-next none n e = absurd (omega arith)
found-next (some q) n e = ap some (omega arith)

-- Where the loop stops behind at least one field: on a comma.
nth_comma-fields :
    (f : Text) (fs : List Text) (rest : Text)
    → All IsField (f ∷ fs)
    → (q : ℕ) × (nth_comma (length (f ∷ fs)) none (line (f ∷ fs) rest) ≡ some q)
      × (q + 1 ≡ length (line (f ∷ fs) []))
nth_comma-fields f fs rest h =
    let (n, e) = length-line f fs in
    (n, found-next _ n (nth_comma-line (f ∷ fs) none [] rest refl h ∙ e), omega arith)

until_comma-field :
    (pre ip rest : Text) (q : ℕ)
    → q + 1 ≡ length pre
    → until_comma q (some (length pre + length ip)) (pre ++ (ip ++ rest)) ≡ ip
until_comma-field pre ip rest q e =
    let n : length pre + length ip - q - 1 ≡ length ip = omega arith in
    rw (e, n, drop-prefix pre (ip ++ rest)) (take-prefix ip rest)

until_comma-end : (pre ip : Text) (q : ℕ) → q + 1 ≡ length pre → until_comma q none (pre ++ ip) ≡ ip
until_comma-end pre ip q e = rw e (drop-prefix pre ip)

line-append : (fs : List Text) (rest : Text) → line fs rest ≡ line fs [] ++ rest
line-append [] rest = refl
line-append (f ∷ fs) rest =
    ap (λ (x : Text). f ++ (b',' ∷ x)) (line-append fs rest)
    ∙ sym (append_assoc f (b',' ∷ line fs []) rest)

-- From a state line with more than four fields, gotConnected takes the fifth, whether or not more
-- fields follow.
pub connected_ip_lem :
    (a b c d ip rest : Text)
    → All IsField (a ∷ b ∷ c ∷ d ∷ ip ∷ [])
    → (connected_ip (line (a ∷ b ∷ c ∷ d ∷ ip ∷ []) rest) ≡ some ip)
      × (connected_ip (line (a ∷ b ∷ c ∷ d ∷ []) ip) ≡ some ip)
unfolding connected_ip
connected_ip_lem a b c d ip rest (ha, (hb, (hc, (hd, (hi, _))))) = (
  more_fields
      (nth_comma-fields a (b ∷ c ∷ d ∷ []) (ip ++ (b',' ∷ rest)) (ha, (hb, (hc, (hd, tt))))),
  last_field (nth_comma-fields a (b ∷ c ∷ d ∷ []) ip (ha, (hb, (hc, (hd, tt))))),
)
  where
    pre : Text
    pre = line (a ∷ b ∷ c ∷ d ∷ []) []

    more_fields :
        (q : ℕ) × (nth_comma 4 none (line (a ∷ b ∷ c ∷ d ∷ []) (ip ++ (b',' ∷ rest))) ≡ some q)
          × (q + 1 ≡ length pre)
        → connected_ip (line (a ∷ b ∷ c ∷ d ∷ ip ∷ []) rest) ≡ some ip
    more_fields (q, e, n) = rw e (
        rw
          (
            line-append (a ∷ b ∷ c ∷ d ∷ []) (ip ++ (b',' ∷ rest)),
            n,
            index-field b',' pre ip rest hi,
          )
          (ap some (until_comma-field pre ip (b',' ∷ rest) q n)))

    last_field :
        (q : ℕ) × (nth_comma 4 none (line (a ∷ b ∷ c ∷ d ∷ []) ip) ≡ some q) × (q + 1 ≡ length pre)
        → connected_ip (line (a ∷ b ∷ c ∷ d ∷ []) ip) ≡ some ip
    last_field (q, e, n) = rw e (
        rw (line-append (a ∷ b ∷ c ∷ d ∷ []) ip, n, index-none b',' pre ip hi)
          (ap some (until_comma-end pre ip q n)))

-- From a state line with three fields, such as a state word without addresses, gotConnected takes
-- the second field, which is the state word: after the last comma its search starts again at the
-- start of the line.
pub connected_ip-wraps :
    (a b c : Text) → All IsField (a ∷ b ∷ c ∷ []) → connected_ip (line (a ∷ b ∷ []) c) ≡ some b
unfolding connected_ip
connected_ip-wraps a b c (ha, (hb, (hc, _))) = rw (stops_at_first) (rw (at_second) (ap some second))
  where
    s : Text
    s = line (a ∷ b ∷ []) c

    pre : Text
    pre = a ++ (b',' ∷ [])

    pre' : Text
    pre' = pre ++ (b ++ (b',' ∷ []))

    s_pre : s ≡ pre ++ (b ++ (b',' ∷ c))
    s_pre = regroup [] a (b ++ (b',' ∷ c))

    s_pre' : s ≡ pre' ++ c
    s_pre' = s_pre ∙ regroup pre b c

    first_found : index_of b',' 0 s ≡ some (length a)
    first_found = index-field b',' [] a (b ++ (b',' ∷ c)) ha ∙ ap some (omega arith)

    at_second : index_of b',' (length a + 1) s ≡ some (length pre + length b)
    at_second =
        ap (λ (n : ℕ). index_of b',' n s) (omega (arith, length-append a (b',' ∷ [])))
        ∙ ap (index_of b',' (length pre)) s_pre
        ∙ index-field b',' pre b c hb

    none_left : index_of b',' (length pre + length b + 1) s ≡ none
    none_left =
        ap (λ (n : ℕ). index_of b',' n s) (sym (length-regroup pre b))
        ∙ ap (index_of b',' (length pre')) s_pre'
        ∙ index-none b',' pre' c hc

    stops_at_first : nth_comma 4 none s ≡ some (length a)
    stops_at_first = unfold nth_comma in rw (first_found, at_second, none_left, first_found) refl

    second : until_comma (length a) (some (length pre + length b)) s ≡ b
    second =
        ap (until_comma (length a) (some (length pre + length b))) s_pre
        ∙ until_comma-field pre b (b',' ∷ c) (length a) (omega (arith, length-append a (b',' ∷ [])))
