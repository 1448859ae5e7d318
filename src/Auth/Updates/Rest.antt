-- ===== src/Auth/Updates/Rest.antt =====
-- The messages about updates leave the user a day of rest.
use celo_desktop_app.Base.{
  ℕ, ◌+◌, ◌-◌, ◌≤◌, ◌<◌, ◌≡◌, sym, ap, ◌∙◌, Bool, true, false, not, ◌||◌, Option, none, some, List,
  [], ◌∷◌, if◌then◌else◌, is_empty, arith, Bool-cases, inl, inr, ltb, leb,
}
use celo_desktop_app.Base.Int.{pos}
use celo_desktop_app.Base.State.{skip, ◌>>◌}
use celo_desktop_app.Base.Text.{Text, codes}
use celo_desktop_app.Auth.Servers.{Reply, failed, bytes}
use celo_desktop_app.Setting.Store.{Converts, Preferences, value, text_value}
use celo_desktop_app.Setting.Values.{check_for_updates, update_message_shown, within_day}
use celo_desktop_app.Setting.Choices.{Numbers, check-text, text_stored, elapsed}
use celo_desktop_app.Auth.Updates.{
  UpdateAction, fetch_updates, confirm, launch_update_url, Updates, UpdateEnv, U, do_update,
  on_preferences, Start, check_updates, first_build, is_newer, offer_update, process_updates_xml,
  start_update, start_updates,
}

-- The times of the messages, latest first.
abbrev pub messages : List UpdateAction → List ℕ
messages [] = []
messages (fetch_updates _ ∷ rest) = messages rest
messages (confirm t _ ∷ rest) = t ∷ messages rest
messages (launch_update_url ∷ rest) = messages rest

-- Between two messages lies a day.
unfoldable pub AreSpaced : List ℕ → Type 0
AreSpaced [] = Unit
AreSpaced (t ∷ []) = Unit
AreSpaced (t ∷ s ∷ ts) = (s + 86400 ≤ t) × AreSpaced (s ∷ ts)

-- The starts and their messages come one after the other, before 2 ^ 31.
unfoldable pub InOrder : ℕ → List Start → Type 0
InOrder now [] = Unit
InOrder now (v ∷ vs) =
    (now ≤ v.time) × (v.time ≤ v.answered) × (v.answered < 2147483648) × InOrder v.answered vs

or-false : (b c : Bool) → c ≡ false → (b || c) ≡ true → b ≡ true
or-false b c h k = ground arith

far_enough :
    (d t curr : ℕ)
    → t + d ≡ curr
    → not (if ltb d 86400 then true else leb 2147483648 d) ≡ true
    → t + 86400 ≤ curr
far_enough d t curr e w = ground arith

module _ (env : UpdateEnv) (numbers : Numbers env.qt) (laws : Converts env.cv env.qt.number) where
  -- The time of the last message is stored.
  Remembers : List ℕ → Preferences → ℕ → Type 0
  Remembers [] p now = Unit
  Remembers (t ∷ ts) p now =
      (t ≤ now)
      × (env.cv.to_text (value (codes "LastUpdMsg") (text_value (codes "undefined")) p)
          ≡ env.qt.number (pos t))

  IsDue : List ℕ → ℕ → Type 0
  IsDue [] now = Unit
  IsDue (t ∷ ts) now = t + 86400 ≤ now

  IsRested : ℕ → Updates → Type 0
  IsRested now u = AreSpaced (messages u.trace) × Remembers (messages u.trace) u.preferences now

  AreSpaced-cons : (t : ℕ) (ts : List ℕ) → AreSpaced ts → IsDue ts t → AreSpaced (t ∷ ts)
  unfolding AreSpaced IsDue
  AreSpaced-cons t [] h d = tt
  AreSpaced-cons t (s ∷ ts) h d = (d, h)

  Remembers-later :
      (ts : List ℕ) (p : Preferences) (now later : ℕ)
      → now ≤ later
      → Remembers ts p now
      → Remembers ts p later
  unfolding Remembers
  Remembers-later [] p now later h r = tt
  Remembers-later (t ∷ ts) p now later h r = (omega arith, r.1)

  within_day-late :
      (t curr : ℕ)
      → t ≤ curr
      → curr < 4294967296
      → not (within_day env.qt env.cv curr t) ≡ true
      → t + 86400 ≤ curr
  within_day-late t curr h k w =
      let d =
        ap (λ x. not (if ltb x 86400 then true else leb 2147483648 x))
          (elapsed env.qt env.cv numbers laws t curr h k) in
      far_enough (curr - t) t curr (omega arith) (sym d ∙ w)

  -- A check that is due finds the last message a day old.
  check-IsDue :
      (ts : List ℕ) (p : Preferences) (now at : ℕ)
      → Remembers ts p now
      → now ≤ at
      → at < 2147483648
      → check_for_updates env.qt env.cv at p ≡ true
      → IsDue ts at
  unfolding Remembers IsDue
  check-IsDue [] p now at r h k c = tt
  check-IsDue (t ∷ ts) p now at (le, e) h k c =
      let w = sym (check-text env.qt env.cv numbers laws at t p (omega arith) e) ∙ c in
      within_day-late t at (omega arith) (omega arith) w

  IsDue-later : (ts : List ℕ) (now later : ℕ) → now ≤ later → IsDue ts now → IsDue ts later
  unfolding IsDue
  IsDue-later [] now later h d = tt
  IsDue-later (t ∷ ts) now later h d = omega arith

  abbrev shown : ℕ → Bool → Text → U (Unit {0})
  shown now accepts b = do
    do_update (confirm now b)
    on_preferences (update_message_shown env.qt env.cv now)
    if accepts then do_update launch_update_url else skip

  -- A message stores its time.
  message-IsRested :
      (now : ℕ) (b : Text) (u : Updates)
      → IsRested now u
      → IsDue (messages u.trace) now
      → IsRested now (record {
        preferences = (update_message_shown env.qt env.cv now u.preferences).1;
        trace = confirm now b ∷ u.trace;
      })
  unfolding IsRested Remembers update_message_shown
  message-IsRested now b u r d = (
    AreSpaced-cons now (messages u.trace) r.0 d,
    (
      omega arith,
      text_stored env.qt env.cv numbers laws (codes "LastUpdMsg") (env.qt.number (pos now))
          (text_value (codes "undefined")) u.preferences,
    ),
  )

  shown-IsRested :
      (now : ℕ) (accepts : Bool) (b : Text) (u : Updates)
      → IsRested now u
      → IsDue (messages u.trace) now
      → IsRested now (shown now accepts b u).1
  unfolding IsRested do_update on_preferences
  shown-IsRested now true b u r d = message-IsRested now b u r d
  shown-IsRested now false b u r d = message-IsRested now b u r d

  offer_update-IsRested :
      (now : ℕ) (accepts : Bool) (o : Option Text) (u : Updates)
      → IsRested now u
      → IsDue (messages u.trace) now
      → IsRested now (offer_update env now accepts o u).1
  unfolding offer_update
  offer_update-IsRested now accepts none u r d = r
  offer_update-IsRested now accepts (some b) u r d =
      elim (Bool-cases (is_newer env (env.qt.to_int b))) [
        | inr old ↦ rw old r
        | inl newer ↦ rw newer (shown-IsRested now accepts b u r d)
      ]

  process_updates_xml-IsRested :
      (now : ℕ) (accepts : Bool) (r : Reply) (u : Updates)
      → IsRested now u
      → IsDue (messages u.trace) now
      → IsRested now (process_updates_xml env now accepts r u).1
  unfolding process_updates_xml
  process_updates_xml-IsRested now accepts (failed e) u h d = h
  process_updates_xml-IsRested now accepts (bytes s) u h d = elim (Bool-cases (is_empty s)) [
    | inl e ↦ rw e h
    | inr e ↦ rw e (offer_update-IsRested now accepts (first_build env (env.builds s)) u h d)
  ]

  start_update-IsRested :
      (now : ℕ) (v : Start) (u : Updates)
      → env.testing ≡ false
      → now ≤ v.time
      → v.time ≤ v.answered
      → v.answered < 2147483648
      → IsRested now u
      → IsRested v.answered (start_update env v u).1
  unfolding start_update check_updates do_update IsRested
  start_update-IsRested now v u off h k l r =
      let later =
        Remembers-later (messages u.trace) u.preferences now v.answered (omega arith) r.1 in
      elim (Bool-cases (check_for_updates env.qt env.cv v.time u.preferences || env.testing)) [
        | inr fresh ↦ rw fresh (r.0, later)
        | inl due ↦ rw due (
            let d = IsDue-later (messages u.trace) v.time v.answered k (
              check-IsDue (messages u.trace) u.preferences now v.time r.1 h (omega arith)
                (or-false _ env.testing off due)) in
            elim (Bool-cases (is_empty env.update_url)) [
              | inl e ↦
                  rw e (process_updates_xml-IsRested v.answered v.accepts v.reply u (r.0, later) d)
              | inr e ↦ rw e (
                  process_updates_xml-IsRested v.answered v.accepts v.reply
                    (record u { trace = fetch_updates env.update_url ∷ u.trace }) (r.0, later) d)
            ])
      ]

  start_updates-IsRested :
      (vs : List Start) (now : ℕ) (u : Updates)
      → env.testing ≡ false
      → InOrder now vs
      → IsRested now u
      → AreSpaced (messages (start_updates env vs u).1.trace)
  unfolding start_updates InOrder IsRested
  start_updates-IsRested [] now u off o r = r.0
  start_updates-IsRested (v ∷ vs) now u off (h, k, l, o) r =
      start_updates-IsRested vs v.answered (start_update env v u).1 off o
        (start_update-IsRested now v u off h k l r)

  -- Between two messages about an update lies at least a day, over any sequence of starts one after
  -- the other and whatever the replies are, where the program does not test, no message was shown
  -- before and the times are below 2 ^ 31.
  pub start_updates-AreSpaced :
      (vs : List Start) (p : Preferences)
      → env.testing ≡ false
      → InOrder 0 vs
      → AreSpaced (messages (start_updates env vs (record { preferences = p; trace = [] })).1.trace)
  unfolding IsRested Remembers AreSpaced
  start_updates-AreSpaced vs p off o =
      start_updates-IsRested vs 0 (record { preferences = p; trace = [] }) off o (tt, tt)
