-- ===== src/Auth/OldIp/Attempts.antt =====
-- The requests for the old address, and the texts that are taken for one.
use celo_desktop_app.Base.{
  ℕ, zero, suc, ◌+◌, ◌≤◌, ◌≡◌, refl, sym, ap, ◌∙◌, Bool, true, false, ◌&&◌, Option, none, some,
  List, [], ◌∷◌, Bool-cases, inl, inr, if◌then◌else◌, length, leb, ltb, drop, arith, All, min,
  subst, ◌↔◌, ◌≢◌, ltb→lt,
}
use celo_desktop_app.Base.Count.{count, Counted, index-Counted}
use celo_desktop_app.Base.State.{skip, ◌>>◌}
use celo_desktop_app.Base.Text.{Text, index_of}
use celo_desktop_app.Auth.Types.{Auth, A, AuthAction, fetch_old_ip, act, on_account}
use celo_desktop_app.Auth.Servers.{Reply, bytes}
use celo_desktop_app.Auth.OldIp.{
  get_old_ip, after_dot, find_dots, looks_like_ip, read_ip, end_old_ip, process_old_ip,
}

-- How many dots the text has.
abbrev pub dots : Text → ℕ
dots s = count b'.' s

leb-suc : (n k : ℕ) → leb n k ≡ leb (suc n) (suc k)
leb-suc n k = ground arith

after_dot_lem :
    (n t : ℕ) (s : Text) (o : Option ℕ)
    → Counted b'.' t s o
    → ((u : ℕ) → find_dots n u s ≡ leb n (dots (drop u s)))
    → after_dot o (λ u. find_dots n u s) ≡ leb (suc n) (dots (drop t s))
after_dot_lem n t s none h ih = rw h (ground arith)
after_dot_lem n t s (some p) h ih =
    let e : p + 1 ≡ suc p = omega arith in
    rw (h, e) (ih (suc p) ∙ leb-suc n (dots (drop (suc p) s)))

find_dots_lem : (n t : ℕ) (s : Text) → find_dots n t s ≡ leb n (dots (drop t s))
unfolding find_dots
find_dots_lem zero t s = ground arith
find_dots_lem (suc n) t s =
    after_dot_lem n t s (index_of b'.' t s) (index-Counted b'.' t s) (λ u. find_dots_lem n u s)

taken-true : (o : Option Text) (b : Bool) → o ≢ none → (if b then o else none) ≡ o → b ≡ true
taken-true o true n h = refl
taken-true o false n h = absurd (n (sym h))

in_range : (d n : ℕ) → (leb 3 d && (leb 7 n && leb n 15)) ≡ true → (3 ≤ d) × (7 ≤ n) × (n ≤ 15)
in_range d n h = (ground arith, ground arith, ground arith)

within : (d n : ℕ) → (3 ≤ d) × (7 ≤ n) × (n ≤ 15) → (leb 3 d && (leb 7 n && leb n 15)) ≡ true
within d n h = ground arith

-- The answer of a request that succeeds is taken for an address exactly when it has at least three
-- dots and a length from 7 to 15.
pub read_ip_lem :
    (s : Text) → (read_ip (bytes s) ≡ some s) ↔ ((3 ≤ dots s) × (7 ≤ length s) × (length s ≤ 15))
unfolding read_ip looks_like_ip
read_ip_lem [] = ((λ h. absurd (cc h)), λ h. ground (arith, h))
read_ip_lem (c ∷ cs) =
    let s : Text = c ∷ cs in
    (
      (λ h.
          in_range (dots s) (length s)
            (taken-true (some s) _ (λ e. cc e) (rw (find_dots_lem 3 0 s) at h))),
      λ h. rw (find_dots_lem 3 0 s, within (dots s) (length s) h) refl,
    )

full : (a n : ℕ) → a ≤ 4 → ltb a 4 ≡ false → min 4 (a + n) ≡ min 4 (a + suc n)
full a n h f = let e : a ≡ 4 = ground (arith, f) in omega (arith, e)

-- A request, and the answers to it and to those that follow.
unfoldable pub old_ip_replies : List Reply → A (Unit {0})
old_ip_replies [] = skip
old_ip_replies (r ∷ rs) = process_old_ip r >> old_ip_replies rs

-- How many requests for the old address were sent.
abbrev pub sent_requests : List AuthAction → ℕ
sent_requests [] = 0
sent_requests (fetch_old_ip ∷ older) = suc (sent_requests older)
sent_requests (_ ∷ older) = sent_requests older

-- What answers that are no address lead to: `n` attempts, and a request for every new one.
pub record Tried (n : ℕ) (m k : Auth) : Type 0 where
  pub requests : sent_requests k.trace + m.account.ip_attempts ≡ sent_requests m.trace + n
  pub attempts : k.account.ip_attempts ≡ n
  pub old_ip : k.account.old_ip ≡ m.account.old_ip

retry :
    (r : Reply) (m : Auth)
    → read_ip r ≡ none
    → ltb m.account.ip_attempts 4 ≡ true
    → (process_old_ip r m).1 ≡ (get_old_ip m).1
unfolding process_old_ip end_old_ip
retry r m h t =
    ap (λ o. (end_old_ip o m).1) h ∙ ap (λ (b : Bool). ((if b then get_old_ip else skip) m).1) t

give_up :
    (r : Reply) (m : Auth)
    → read_ip r ≡ none
    → ltb m.account.ip_attempts 4 ≡ false
    → (process_old_ip r m).1 ≡ m
unfolding process_old_ip end_old_ip
give_up r m h f =
    ap (λ o. (end_old_ip o m).1) h ∙ ap (λ (b : Bool). ((if b then get_old_ip else skip) m).1) f

bad_replies :
    (rs : List Reply) (m : Auth)
    → All (λ r. read_ip r ≡ none) rs
    → m.account.ip_attempts ≤ 4
    → Tried (min 4 (m.account.ip_attempts + length rs)) m (old_ip_replies rs m).1
unfolding old_ip_replies get_old_ip on_account act
bad_replies [] m h hi = record {
  requests = omega (arith, hi);
  attempts = omega (arith, hi);
  old_ip = refl;
}
bad_replies (r ∷ rs) m h hi = elim (Bool-cases (ltb m.account.ip_attempts 4)) [
  | inl t ↦
      subst (λ k. Tried (min 4 (m.account.ip_attempts + suc (length rs))) m (old_ip_replies rs k).1)
        (sym (retry r m h.0 t))
        (let rest = bad_replies rs (get_old_ip m).1 h.1 (ltb→lt m.account.ip_attempts 4 t) in
          record {
            requests = let q = rest.requests in omega (arith, q);
            attempts = rest.attempts ∙ omega arith;
            old_ip = rest.old_ip;
          })
  | inr f ↦
      subst (λ k. Tried (min 4 (m.account.ip_attempts + suc (length rs))) m (old_ip_replies rs k).1)
        (sym (give_up r m h.0 f))
        (let rest = bad_replies rs m h.1 hi in
          record {
            requests =
                rest.requests
                ∙ ap (λ n. sent_requests m.trace + n) (full m.account.ip_attempts (length rs) hi f);
            attempts = rest.attempts ∙ full m.account.ip_attempts (length rs) hi f;
            old_ip = rest.old_ip;
          })
]

-- When getOldIP is called with no attempt before it, and every answer fails to give an address, then
-- after n answers min 4 (n + 1) requests were sent and counted, and the old address is what it was.
pub get_old_ip-bad_replies :
    (rs : List Reply) (m : Auth)
    → All (λ r. read_ip r ≡ none) rs
    → m.account.ip_attempts ≡ 0
    → Tried (min 4 (suc (length rs))) m ((get_old_ip >> old_ip_replies rs) m).1
unfolding get_old_ip on_account act
get_old_ip-bad_replies rs m h z =
    let rest = bad_replies rs (get_old_ip m).1 h (omega (arith, z)) in
    record {
      requests = let q = rest.requests in omega (arith, q, z);
      attempts = rest.attempts ∙ omega (arith, z);
      old_ip = rest.old_ip;
    }
