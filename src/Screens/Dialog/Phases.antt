-- ===== src/Screens/Dialog/Phases.antt =====
-- What the connection dialog offers, as a machine of three phases.
use celo_desktop_app.Base.{
  ℕ, ◌≡◌, refl, ap, ◌∙◌, Option, none, some, Bool, true, false, not, List, [], ◌∷◌, if◌then◌else◌,
  Bool-cases, inl, inr, if-both,
}
use celo_desktop_app.Base.Int.{ℤ, pos, eqb_ℤ, lookup, ltb_ℤ}
use celo_desktop_app.Base.Text.{Text, ◌=text◌, codes}
use celo_desktop_app.Common.{Qt, word_code, word_wait}
use celo_desktop_app.Auth.Types.{Account}
use celo_desktop_app.Setting.Store.{Conversions}
use celo_desktop_app.Setting.Servers.{server_id}
use celo_desktop_app.Screens.Dialog.{
  Status, green, red, yellow, step, Dialog, enable_buttons, state_word_images, image_of,
  state_word_changed, dialog_connected, dialog_state_changed, set_no_server, dialog_set_new_ip,
  set_old_ip, set_account_name, set_email, Panel, on_dialog, of_settings, set_flag,
  dialog_set_server, update_encryption, dialog_update_protocol, update_server, create_dialog,
  DialogEvent, state, word, new_ip_loaded, server_changed, dialog_step, dialog_run,
}

pub data Phase : Type 0 where
  ready busy up : Phase

-- A state of the service leads to its phase, any word of OpenVPN to `busy`; else the phase stays.
abbrev pub next_phase : DialogEvent → Phase → Phase
next_phase (state st) p = if eqb_ℤ st (pos 2) then up else if eqb_ℤ st (pos 1) then busy else ready
next_phase (word w) p = busy
next_phase _ p = p

abbrev pub phase_after : List (Account × DialogEvent) → Phase → Phase
phase_after [] p = p
phase_after ((a, e) ∷ es) p = phase_after es (next_phase e p)

abbrev pub phase_of : Status → Phase
phase_of green = up
phase_of red = ready
phase_of yellow = busy
phase_of (step image) = busy

abbrev pub is_ready : Phase → Bool
is_ready ready = true
is_ready busy = false
is_ready up = false

abbrev pub is_busy : Phase → Bool
is_busy ready = false
is_busy busy = true
is_busy up = false

-- The dialog shows the phase: Connect or else Cancel, the rows, and the color.
pub record ShowsPhase (p : Phase) (d : Dialog) : Type 0 where
  pub connect : d.connect_shown ≡ is_ready p
  pub cancel : d.cancel_shown ≡ not (is_ready p)
  pub rows : d.rows ≡ not (is_busy p)
  pub color : phase_of d.status ≡ p

phase_of-image : (w : ℤ) (o : Option Text) → phase_of (image_of w o) ≡ busy
phase_of-image w (some image) = refl
phase_of-image w none =
    if-both (λ s. phase_of s ≡ busy) (eqb_ℤ w (pos (word_code word_wait))) (step (codes "wait"))
      yellow refl refl

state_word_changed-busy : (w : ℤ) (d : Dialog) → ShowsPhase busy (state_word_changed w d)
unfolding state_word_changed enable_buttons
state_word_changed-busy w d = record {
  connect = refl;
  cancel = refl;
  rows = refl;
  color = phase_of-image w (lookup w state_word_images);
}

dialog_state_changed-phase :
    (st : ℤ) (p : Phase) (d : Dialog)
    → ShowsPhase (next_phase (state st) p) (dialog_state_changed st d)
unfolding dialog_state_changed dialog_connected enable_buttons
dialog_state_changed-phase st p d = elim (Bool-cases (eqb_ℤ st (pos 2))) [
  | inl connected ↦
      rw connected (record { connect = refl; cancel = refl; rows = refl; color = refl })
  | inr other ↦ elim (Bool-cases (eqb_ℤ st (pos 1))) [
    | inl connecting ↦
        rw (other, connecting) (record { connect = refl; cancel = refl; rows = refl; color = refl })
    | inr neither ↦
        rw (other, neither) (record { connect = refl; cancel = refl; rows = refl; color = refl })
  ]
]

-- Buttons, rows and color are the same.
record Alike (d e : Dialog) : Type 0 where
  connect : e.connect_shown ≡ d.connect_shown
  cancel : e.cancel_shown ≡ d.cancel_shown
  rows : e.rows ≡ d.rows
  status : e.status ≡ d.status

Alike-ShowsPhase : {p : Phase} (d e : Dialog) → Alike d e → ShowsPhase p d → ShowsPhase p e
Alike-ShowsPhase d e k h = record {
  connect = k.connect ∙ h.connect;
  cancel = k.cancel ∙ h.cancel;
  rows = k.rows ∙ h.rows;
  color = ap phase_of k.status ∙ h.color;
}

module _ (qt : Qt) (cv : Conversions) (a : Account) where
  dialog_set_server-Alike : (srv : ℤ) (d : Dialog) → Alike d (dialog_set_server qt cv a srv d)
  unfolding dialog_set_server set_no_server set_flag
  dialog_set_server-Alike srv d =
      if-both (Alike d) (ltb_ℤ srv (pos 0)) _ _
        (record { connect = refl; cancel = refl; rows = refl; status = refl })
        (record { connect = refl; cancel = refl; rows = refl; status = refl })

  dialog_set_new_ip-Alike : (s : Text) (d : Dialog) → Alike d (dialog_set_new_ip s d)
  unfolding dialog_set_new_ip
  dialog_set_new_ip-Alike s d =
      if-both (Alike d) (s =text codes "127.0.0.1") _ _
        (record { connect = refl; cancel = refl; rows = refl; status = refl })
        (record { connect = refl; cancel = refl; rows = refl; status = refl })

  dialog_step-ShowsPhase :
      (e : DialogEvent) (p : Phase) (l : Panel)
      → ShowsPhase p l.dialog
      → ShowsPhase (next_phase e p) (dialog_step qt cv a e l).1.dialog
  unfolding dialog_step on_dialog set_old_ip set_email set_account_name update_encryption
      dialog_update_protocol update_server of_settings
  dialog_step-ShowsPhase (state st) p l h = dialog_state_changed-phase st p l.dialog
  dialog_step-ShowsPhase (word w) p l h = state_word_changed-busy w l.dialog
  dialog_step-ShowsPhase (new_ip_loaded s) p l h =
      Alike-ShowsPhase l.dialog _ (dialog_set_new_ip-Alike s l.dialog) h
  dialog_step-ShowsPhase server_changed p l h =
      Alike-ShowsPhase l.dialog _
        (dialog_set_server-Alike (server_id qt cv a l.preferences) l.dialog) h
  dialog_step-ShowsPhase _ p l h = record {
    connect = h.connect;
    cancel = h.cancel;
    rows = h.rows;
    color = h.color;
  }

module _ (qt : Qt) (cv : Conversions) where
  dialog_run-ShowsPhase :
      (es : List (Account × DialogEvent)) (p : Phase) (l : Panel)
      → ShowsPhase p l.dialog
      → ShowsPhase (phase_after es p) (dialog_run qt cv es l).1.dialog
  unfolding dialog_run
  dialog_run-ShowsPhase [] p l h = h
  dialog_run-ShowsPhase ((a, e) ∷ es) p l h =
      dialog_run-ShowsPhase es (next_phase e p) (dialog_step qt cv a e l).1
        (dialog_step-ShowsPhase qt cv a e p l h)

  create_dialog-ready :
      (a : Account) (rand : ℕ) (l : Panel)
      → ShowsPhase ready (create_dialog qt cv a rand l).1.dialog
  unfolding create_dialog on_dialog of_settings update_encryption dialog_update_protocol
      update_server set_old_ip set_no_server dialog_state_changed enable_buttons
  create_dialog-ready a rand l =
      Alike-ShowsPhase _ _ (dialog_set_server-Alike qt cv a _ _)
        (record { connect = refl; cancel = refl; rows = refl; color = refl })

  -- From its constructor on, after any signals in any order, the dialog is as the last state of the
  -- service or word of OpenVPN asks, and all other signals leave that: green with Cancel and the rows
  -- enabled for a connected state, yellow with Cancel and the rows disabled for a connecting state or any
  -- word, whatever the state was, and red with Connect and the rows enabled for any other state and at
  -- the start.
  pub dialog_run_lem :
      (es : List (Account × DialogEvent)) (a : Account) (rand : ℕ) (l : Panel)
      → ShowsPhase
          (phase_after es ready)
          (dialog_run qt cv es (create_dialog qt cv a rand l).1).1.dialog
  dialog_run_lem es a rand l =
      dialog_run-ShowsPhase es ready (create_dialog qt cv a rand l).1 (create_dialog-ready a rand l)
