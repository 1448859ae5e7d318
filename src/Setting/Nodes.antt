-- ===== src/Setting/Nodes.antt =====
-- The server that switchToNextNode leads to.
use celo_desktop_app.Base.{
  suc, ◌+◌, ◌≡◌, refl, ap, ◌∙◌, true, false, Option, none, some, List, [], ◌∷◌, ◌++◌, arith, length,
  get_elem?, All, ==_refl,
}
use celo_desktop_app.Base.Int.{ℤ, pos, negsuc, eqb_ℤ}
use celo_desktop_app.Base.Text.{Text, codes}
use celo_desktop_app.Common.{Qt}
use celo_desktop_app.Auth.Types.{Account}
use celo_desktop_app.Auth.Servers.{current_encryption_servers}
use celo_desktop_app.Setting.Store.{
  Variant, int_value, Conversions, Converts, Preferences, set_value, signal,
}
use celo_desktop_app.Setting.Protocols.{tcp_or_udp}
use celo_desktop_app.Setting.Ports.{find-put, find-put-other, IsReady, tcp_or_udp-ready}
use celo_desktop_app.Setting.Servers.{
  index_of_id, id_after, server_id, set_server, switch_to_next_node,
}

-- No id of the list is `i`.
abbrev pub Misses : ℤ → List ℤ → Type 0
Misses i = All (λ j. eqb_ℤ j i ≡ false)

pub eqb-same : (i : ℤ) → eqb_ℤ i i ≡ true
eqb-same (pos n) = ==_refl n
eqb-same (negsuc n) = ==_refl n

index_of_id-append :
    (i : ℤ) (before rest : List ℤ)
    → Misses i before
    → index_of_id i (before ++ (i ∷ rest)) ≡ some (length before)
unfolding index_of_id
index_of_id-append i [] rest h = rw (eqb-same i)
index_of_id-append i (j ∷ js) rest h = rw (h.0, index_of_id-append i js rest h.1)

get-after :
    (before : List ℤ) (i : ℤ) (rest : List ℤ)
    → get_elem? (before ++ (i ∷ rest)) (length before + 1) ≡ get_elem? rest 0
get-after [] i rest = refl
get-after (j ∷ js) i rest =
    let n : suc (length js) + 1 ≡ suc (length js + 1) = omega arith in rw n (get-after js i rest)

id_after-append :
    (i : ℤ) (before rest : List ℤ)
    → Misses i before
    → id_after i (before ++ (i ∷ rest)) ≡ get_elem? rest 0
unfolding id_after
id_after-append i before rest h = rw (index_of_id-append i before rest h) (get-after before i rest)

-- The kind of the current protocol's port.
abbrev pub kind : Qt → Conversions → Preferences → Text
kind qt cv p = (tcp_or_udp cv qt p).0

module _ (qt : Qt) (cv : Conversions) (a : Account) (laws : Converts cv qt.number) where
  pub server_id-set : (j : ℤ) (p : Preferences) → server_id qt cv a (set_server qt cv a j p).1 ≡ j
  unfolding server_id set_server set_value signal
  server_id-set j p =
      ap (λ (o : Option Variant). cv.to_int (elim o [ none ↦ int_value (pos 0) | some w ↦ w ]))
        (find-put-other (codes "dd_Location_ix") (codes "dd_Location_str") _ _ refl
          ∙ find-put (codes "dd_Location_ix") (int_value j) p.settings)
      ∙ laws.int_int j

  -- When the current server stands in the list of the current protocol's kind, the next node is the
  -- one behind its first place there, and at the end of the list the settings stay as they are.
  pub switch_to_next_node_lem :
      (p : Preferences) (before : List ℤ)
      → IsReady p
      → Misses (server_id qt cv a p) before
      → ((j : ℤ) (rest : List ℤ)
          → current_encryption_servers a (kind qt cv p) ≡ before ++ (server_id qt cv a p ∷ j ∷ rest)
          → server_id qt cv a (switch_to_next_node qt cv a p).1 ≡ j)
        × (current_encryption_servers a (kind qt cv p) ≡ before ++ (server_id qt cv a p ∷ [])
            → (switch_to_next_node qt cv a p).1 ≡ p)
  unfolding switch_to_next_node
  switch_to_next_node_lem p before ready h = (
    λ j rest e.
        rw
          (
            tcp_or_udp-ready cv qt p ready,
            e,
            id_after-append (server_id qt cv a p) before (j ∷ rest) h,
          )
          (server_id-set j p),
    λ e.
        rw (tcp_or_udp-ready cv qt p ready, e, id_after-append (server_id qt cv a p) before [] h)
          refl,
  )
