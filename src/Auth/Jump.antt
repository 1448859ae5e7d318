-- ===== src/Auth/Jump.antt =====
-- getServerToJump: the server that a jump selects. std::sort is a parameter, and so are the answers of
-- rand() at its two places.
pub mod Lists
pub mod Choice
pub mod Fast
use celo_desktop_app.Base.{
  ℕ, ◌%◌, Bool, true, false, not, Option, none, some, List, [], ◌∷◌, if◌then◌else◌, is_empty,
  get_elem?, length, keep, leb, min,
}
use celo_desktop_app.Base.Int.{ℤ, pos, negsuc, eqb_ℤ, ltb_ℤ}
use celo_desktop_app.Auth.Types.{Account}

abbrev pub or_minus : Option ℤ → ℤ
or_minus none = negsuc 0
or_minus (some p) = p

abbrev pub ping_at : List ℤ → ℤ → ℤ
ping_at ps (pos k) = or_minus (get_elem? ps k)
ping_at ps (negsuc k) = negsuc 0

-- getPings.
unfoldable pub get_pings : List ℤ → List ℤ → List ℤ
get_pings ps [] = []
get_pings ps (id ∷ ids) = ping_at ps id ∷ get_pings ps ids

-- `toping`: the servers but the previous one.
unfoldable pub others : ℤ → List ℤ → List ℤ
others prev ids = keep (λ id. not (eqb_ℤ id prev)) ids

-- `ping_ix`: the pings that are known, each with its server.
unfoldable pub ping_ix : List ℤ → List ℤ → List (ℤ × ℤ)
ping_ix [] ids = []
ping_ix (p ∷ ps) [] = []
ping_ix (p ∷ ps) (id ∷ ids) =
    if ltb_ℤ (negsuc 0) p then (p, id) ∷ ping_ix ps ids else ping_ix ps ids

abbrev pub second_of : Option (ℤ × ℤ) → ℤ
second_of none = negsuc 0
second_of (some (p, id)) = id

abbrev pub or_first : Option ℤ → ℤ
or_first none = negsuc 0
or_first (some id) = id

module _ (sort : List (ℤ × ℤ) → List (ℤ × ℤ)) where
  -- One of the first of the sorted pings; showNodes() is true.
  unfoldable pub pick : ℕ → List (ℤ × ℤ) → ℤ
  pick rand known =
      if is_empty known
      then negsuc 0
      else second_of (get_elem? (sort known) (rand % min 20 (length (sort known))))

  unfoldable pub pick_random : ℕ → Account → List ℤ → ℤ
  pick_random rand a to_ping =
      if is_empty to_ping
      then pos (rand % length a.servers)
      else or_first (get_elem? to_ping (rand % length to_ping))

  unfoldable pub get_server_to_jump : ℕ → ℕ → ℤ → Account → List ℤ → ℤ
  get_server_to_jump first second prev a pings =
      if is_empty a.servers
      then negsuc 0
      else (let to_ping = others prev a.server_ids in
          let srv = pick first (ping_ix (get_pings pings to_ping) to_ping) in
          if ltb_ℤ srv (pos 0) then pick_random second a to_ping else srv)
