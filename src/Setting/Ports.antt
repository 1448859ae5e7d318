-- ===== src/Setting/Ports.antt =====
-- The port that the next attempt uses, over any number of attempts, and what loadProtocol stores.
use celo_desktop_app.Base.{
  if◌then◌else◌, ℕ, zero, suc, ◌+◌, ◌%◌, ◌<◌, ◌≡◌, refl, ap, ◌∙◌, false, Option, none, some, List,
  [], ◌∷◌, arith, Bool-cases, inl, inr, get_elem?, is_empty,
}
use celo_desktop_app.Base.Int.{ℤ, pos, negsuc}
use celo_desktop_app.Base.Separators.{=text-refl, =text-sound}
use celo_desktop_app.Base.State.{modify, skip, ◌>>◌}
use celo_desktop_app.Base.Text.{Text, codes, ◌=text◌}
use celo_desktop_app.Common.{Qt}
use celo_desktop_app.Setting.Store.{
  Variant, int_value, Conversions, Converts, Preferences, P, find, put, set_value, signal,
}
use celo_desktop_app.Setting.Protocols.{
  rsa_protocols, rsa_ports, names_for, tcp_or_udp, protocol_name, populate_colls,
  current_encryption_protocols, current_protocol, set_protocol, load_protocol, determine_next_port,
  switch_to_next_port, port, port_at,
}

pub find-put : (k : Text) (v : Variant) (s : List (Text × Variant)) → find k (put k v s) ≡ some v
unfolding find put
find-put k v [] = rw (=text-refl k)
find-put k v ((j, w) ∷ s) = elim (Bool-cases (j =text k)) [
  | inl hit ↦ rw (hit, =text-refl k)
  | inr miss ↦ rw (miss, miss, find-put k v s)
]

pub find-put-other :
    (j k : Text) (v : Variant) (s : List (Text × Variant))
    → (k =text j) ≡ false
    → find j (put k v s) ≡ find j s
unfolding find put
find-put-other j k v [] h = rw h
find-put-other j k v ((i, w) ∷ s) h = elim (Bool-cases (i =text k)) [
  | inl hit ↦ rw (hit, h, =text-sound i k hit, h) refl
  | inr miss ↦ rw (miss, find-put-other j k v s h) refl
]

-- The tables are filled in, and no protocol is being loaded.
pub record IsReady (p : Preferences) : Type 0 where
  pub names : p.protocols ≡ rsa_protocols
  pub numbers : p.ports ≡ rsa_ports
  pub idle : p.loading ≡ false

-- So many attempts with the next port.
abbrev pub switch_times : Conversions → ℕ → P (Unit {0})
switch_times cv zero = skip
switch_times cv (suc n) = switch_to_next_port cv >> switch_times cv n

module _ (cv : Conversions) (number : ℤ → Text) (laws : Converts cv number) where
  -- The index that is stored under a name stored after it is the current one.
  current_protocol-put :
      (q : Preferences) (v : Variant) (s : List (Text × Variant)) (ix : ℤ)
      → q.settings ≡ put (codes "dd_Protocol_str") v (put (codes "dd_Protocol_ix") (int_value ix) s)
      → current_protocol cv q ≡ ix
  unfolding current_protocol
  current_protocol-put q v s ix e =
      let found : find (codes "dd_Protocol_ix") q.settings ≡ some (int_value ix) =
        ap (find (codes "dd_Protocol_ix")) e
        ∙ find-put-other (codes "dd_Protocol_ix") (codes "dd_Protocol_str") v _ refl
        ∙ find-put (codes "dd_Protocol_ix") (int_value ix) s in
      ap (λ (o : Option Variant). cv.to_int (elim o [ none ↦ int_value (negsuc 0) | some w ↦ w ]))
        found
      ∙ laws.int_int ix

  -- A stored index is the current one, and the tables stay.
  set_protocol-stores :
      (ix : ℤ) (p : Preferences)
      → IsReady p
      → (current_protocol cv (set_protocol cv ix p).1 ≡ ix) × IsReady (set_protocol cv ix p).1
  unfolding set_protocol names_for current_encryption_protocols populate_colls set_value signal
  set_protocol-stores (pos n) p h =
      rw (h.idle, h.names)
        (
          current_protocol-put _ _ p.settings (pos n) refl,
          record { names = refl; numbers = h.numbers; idle = refl },
        )
  set_protocol-stores (negsuc n) p h = rw h.idle (
    current_protocol-put _ _ p.settings (negsuc n) refl,
    record { names = h.names; numbers = h.numbers; idle = refl },
  )

  -- One attempt more: the next place of the table, and the first behind the last.
  pub switch-step :
      (i : ℕ) (p : Preferences)
      → IsReady p
      → current_protocol cv p ≡ pos i
      → i < 3
      → (current_protocol cv (switch_to_next_port cv p).1 ≡ pos ((i + 1) % 3))
        × IsReady (switch_to_next_port cv p).1
  unfolding switch_to_next_port determine_next_port
  switch-step i p h e b =
      let next : determine_next_port cv p ≡ pos ((i + 1) % 3) = rw (e, h.numbers) (ground arith) in
      rw next (set_protocol-stores (pos ((i + 1) % 3)) p h)

  port_at-rsa :
      (i : ℕ) → i < 3 → port_at cv (get_elem? rsa_ports i) (some (pos 1194)) ≡ get_elem? rsa_ports i
  port_at-rsa zero b = refl
  port_at-rsa (suc zero) b = refl
  port_at-rsa (suc (suc zero)) b = refl
  port_at-rsa (suc (suc (suc i))) b = absurd (omega arith)

  -- With filled tables and a stored place i of the table, n switches to the next port lead n
  -- places on, around the end of the table, and port() is what the table has there.
  pub switch_times_lem :
      (n i : ℕ) (p : Preferences)
      → IsReady p
      → current_protocol cv p ≡ pos i
      → i < 3
      → (current_protocol cv (switch_times cv n p).1 ≡ pos ((i + n) % 3))
        × (port cv (switch_times cv n p).1 ≡ get_elem? rsa_ports ((i + n) % 3))
  unfolding port
  switch_times_lem zero i p h e b =
      let k : (i + 0) % 3 ≡ i = omega arith in rw (k, e, h.numbers) (refl, port_at-rsa i b)
  switch_times_lem (suc n) i p h e b =
      let (stored, ready) = switch-step i p h e b in
      let (index, number_at) =
        switch_times_lem n ((i + 1) % 3) (switch_to_next_port cv p).1 ready stored (omega arith) in
      let k : ((i + 1) % 3 + n) % 3 ≡ (i + suc n) % 3 = omega arith in
      (index ∙ ap pos k, number_at ∙ ap (get_elem? rsa_ports) k)

-- loadProtocol stores nothing and signals nothing: the call of setProtocol that would store the
-- index returns at once, since loadProtocol has set _loading_protocol.
pub load_protocol_lem :
    (cv : Conversions) (rand : ℕ) (p : Preferences)
    → ((load_protocol cv rand p).1.settings ≡ p.settings)
      × ((load_protocol cv rand p).1.signals ≡ p.signals)
      × ((load_protocol cv rand p).1.loading ≡ false)
unfolding load_protocol set_protocol current_encryption_protocols populate_colls
load_protocol_lem cv rand p = elim (Bool-cases (is_empty p.protocols)) [
  | inl none_yet ↦ rw none_yet (refl, refl, refl)
  | inr there ↦ rw there (refl, refl, refl)
]

names_for-ready : (ix : ℤ) (p : Preferences) → IsReady p → (names_for ix p).1 ≡ p
unfolding names_for current_encryption_protocols populate_colls
names_for-ready (pos n) p h =
    ap
      (λ (names : List Text).
        ((if is_empty names
            then modify
                (λ (q : Preferences). record q { protocols = rsa_protocols; ports = rsa_ports })
            else skip)
          p).1)
      h.names
names_for-ready (negsuc n) p h = refl

-- The question for the kind of the port leaves filled tables as they are.
pub tcp_or_udp-ready :
    (cv : Conversions) (qt : Qt) (p : Preferences) → IsReady p → (tcp_or_udp cv qt p).1 ≡ p
unfolding tcp_or_udp protocol_name
tcp_or_udp-ready cv qt p h = names_for-ready (current_protocol cv p) p h
