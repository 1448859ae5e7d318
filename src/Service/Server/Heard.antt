-- ===== src/Service/Server/Heard.antt =====
-- What a client has heard of the manager's state.
use celo_desktop_app.Base.{◌≡◌, refl, sym, ap, ◌∙◌, List, [], ◌∷◌, ◌++◌, All, ◌⊎◌, inl, inr}
use celo_desktop_app.Base.Int.{pos}
use celo_desktop_app.Base.Text.{Text, codes}
use celo_desktop_app.Common.{
  VpnState, disconnected, state_code, StateWord, word_code, command_code, status_change,
  status_word, timeout, error, got_ip,
}
use celo_desktop_app.Openvpn.Types.{
  Action, state_changed, got_new_ip, state_word_changed, send_error, timed_out,
}
use celo_desktop_app.Openvpn.Invariant.{last_state}
use celo_desktop_app.Service.Client.{
  Json, Value, number, string, Client, create_client, notify, send_message, vpn_state_changed,
  vpn_status, vpn_state_word, vpn_error, vpn_new_ip, vpn_timed_out,
}
use celo_desktop_app.Service.Told.{Follows}

-- A message of the service.
pub data Message : Type 0 where
  told_state : VpnState → Message
  told_word : StateWord → Message
  told_error told_ip : Text → Message
  told_timeout : Message

abbrev pub object_of : Message → List (Text × Value)
object_of (told_state st) =
    (codes "code", number (pos (command_code status_change)))
    ∷ (codes "state", number (pos (state_code st)))
    ∷ []
object_of (told_word word) =
    (codes "code", number (pos (command_code status_word)))
    ∷ (codes "state", number (pos (word_code word)))
    ∷ []
object_of (told_error message) =
    (codes "code", number (pos (command_code error))) ∷ (codes "message", string message) ∷ []
object_of (told_ip ip) =
    (codes "code", number (pos (command_code got_ip))) ∷ (codes "ip", string ip) ∷ []
object_of told_timeout = (codes "code", number (pos (command_code timeout))) ∷ []

-- The lines of some messages, latest first.
abbrev pub lines : Json → List Message → Text
lines json [] = []
lines json (m ∷ older) =
    lines json older ++ (json.to_latin1 (json.print (object_of m)) ++ (b'\n' ∷ []))

-- The state that the latest status names; a client that has heard of none takes it for disconnected.
abbrev pub last_told : List Message → VpnState
last_told [] = disconnected
last_told (told_state st ∷ older) = st
last_told (_ ∷ older) = last_told older

-- The message names no state but `disconnected`.
abbrev pub IsQuiet : Message → Type 0
IsQuiet (told_state st) = st ≡ disconnected
IsQuiet _ = Unit {0}

-- What was sent to the client are the lines of messages. Their last status names the connection's
-- state. This is the manager's state, or no message has named another state than `disconnected`.
pub record Heard (json : Json) (c : Client) (st : VpnState) : Type 0 where
  pub said : List Message
  pub sent : c.sent ≡ lines json said
  pub told : last_told said ≡ c.state
  pub current : (c.state ≡ st) ⊎ All IsQuiet said

pub last_told-quiet : (ms : List Message) → All IsQuiet ms → last_told ms ≡ disconnected
last_told-quiet [] h = refl
last_told-quiet (told_state st ∷ ms) h = h.0
last_told-quiet (told_word w ∷ ms) h = last_told-quiet ms h.1
last_told-quiet (told_error e ∷ ms) h = last_told-quiet ms h.1
last_told-quiet (told_ip ip ∷ ms) h = last_told-quiet ms h.1
last_told-quiet (told_timeout ∷ ms) h = last_told-quiet ms h.1

module _ (json : Json) where
  -- A message that names no state.
  abbrev IsOther : Message → Type 0
  IsOther m = ((ms : List Message) → last_told (m ∷ ms) ≡ last_told ms) × IsQuiet m

  more :
      (m : Message) (c : Client) (st : VpnState)
      → IsOther m
      → Heard json c st
      → Heard json (send_message json (object_of m) c) st
  unfolding send_message
  more m c st o h = record {
    said = m ∷ h.said;
    sent = ap (λ t. t ++ (json.to_latin1 (json.print (object_of m)) ++ (b'\n' ∷ []))) h.sent;
    told = (o.0) h.said ∙ h.told;
    current = elim (h.current) [ inl same ↦ inl same | inr quiet ↦ inr (o.1, quiet) ];
  }

  changed :
      (new : VpnState) (c : Client) (st : VpnState)
      → Heard json c st
      → Heard json (vpn_state_changed json new c) new
  unfolding vpn_state_changed vpn_status send_message
  changed new c st h = record {
    said = told_state new ∷ h.said;
    sent =
        ap (λ t. t ++ (json.to_latin1 (json.print (object_of (told_state new))) ++ (b'\n' ∷ [])))
          h.sent;
    told = refl;
    current = inl refl;
  }

  notified :
      (a : Action) (c : Client) (st : VpnState)
      → Heard json c st
      → Heard json (notify json a c) (last_state st (a ∷ []))
  unfolding notify vpn_state_word vpn_error vpn_new_ip vpn_timed_out
  notified (state_changed new) c st h = changed new c st h
  notified (state_word_changed w) c st h = more (told_word w) c st ((λ ms. refl), tt) h
  notified (send_error e) c st h = more (told_error e) c st ((λ ms. refl), tt) h
  notified (got_new_ip ip) c st h = more (told_ip ip) c st ((λ ms. refl), tt) h
  notified timed_out c st h = more told_timeout c st ((λ ms. refl), tt) h
  notified _ c st h = h

  answered :
      (c : Client) (st : VpnState)
      → Heard json c st
      → Heard json (vpn_state_changed json c.state c) st
  unfolding vpn_state_changed vpn_status send_message
  answered c st h = record {
    said = told_state c.state ∷ h.said;
    sent =
        ap
          (λ t. t ++ (json.to_latin1 (json.print (object_of (told_state c.state))) ++ (b'\n' ∷ [])))
          h.sent;
    told = refl;
    current = elim (h.current) [
      | inl same ↦ inl same
      | inr quiet ↦ inr (sym h.told ∙ last_told-quiet h.said quiet, quiet)
    ];
  }

  pub heard-Follows : Follows json (λ id c st. Heard json c st)
  heard-Follows = record {
    notified = λ id a c st h. notified a c st h;
    answered = λ id c st h. answered c st h;
    kept = λ id c k st own sent h. record {
      said = h.said;
      sent = sent ∙ h.sent;
      told = h.told ∙ sym own;
      current = elim (h.current) [ inl same ↦ inl (own ∙ same) | inr quiet ↦ inr quiet ];
    };
  }

  pub create_client-Heard : (raw : Client) (st : VpnState) → Heard json (create_client raw) st
  unfolding create_client
  create_client-Heard raw st = record { said = []; sent = refl; told = refl; current = inr tt }

  pub disconnected-Heard :
      (c : Client) (st : VpnState) → st ≡ disconnected → Heard json c st → c.state ≡ st
  disconnected-Heard c st e h = elim (h.current) [
    | inl same ↦ same
    | inr quiet ↦ sym h.told ∙ (last_told-quiet h.said quiet ∙ sym e)
  ]
