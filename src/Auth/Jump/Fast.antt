-- ===== src/Auth/Jump/Fast.antt =====
-- The ping of the server that a jump selects.
use celo_desktop_app.Base.{
  ℕ, ◌<◌, ◌≡◌, refl, sym, ap, ◌∙◌, true, false, List, is_empty, length, keep, All, arith, subst,
}
use celo_desktop_app.Base.Int.{ℤ, pos, negsuc, ltb_ℤ}
use celo_desktop_app.Auth.Types.{Account}
use celo_desktop_app.Auth.Jump.{ping_at, get_pings, others, ping_ix, get_server_to_jump}
use celo_desktop_app.Auth.Jump.Lists.{Sorts, others-Among, known-Among, smaller-le, All-Among}
use celo_desktop_app.Auth.Jump.Choice.{pick_lem}

module _ (sort : List (ℤ × ℤ) → List (ℤ × ℤ)) (laws : Sorts sort) where
  -- When std::sort sorts, there are servers, no id is negative and the ping of another server than
  -- the previous one is known, then the ping of the chosen server is known and fewer than 20 of the
  -- known pings of the others are smaller.
  pub jump_fast :
      (first second : ℕ) (prev : ℤ) (a : Account) (pings : List ℤ)
      → is_empty a.servers ≡ false
      → All (λ id. ltb_ℤ id (pos 0) ≡ false) a.server_ids
      → is_empty (ping_ix (get_pings pings (others prev a.server_ids)) (others prev a.server_ids))
        ≡ false
      → let r = get_server_to_jump sort first second prev a pings in
        (ltb_ℤ (negsuc 0) (ping_at pings r) ≡ true)
        × (length (
              keep
                (λ e. ltb_ℤ e.0 (ping_at pings r))
                (ping_ix (get_pings pings (others prev a.server_ids)) (others prev a.server_ids)))
            < 20)
  unfolding get_server_to_jump
  jump_fast first second prev a pings h ids some_known =
      let to_ping = others prev a.server_ids in
      let known = ping_ix (get_pings pings to_ping) to_ping in
      let (e, i, lt, at, eq) = pick_lem sort laws first known some_known in
      let (in_others, ping, here) = known-Among pings to_ping e (laws.member known e (i, at)) in
      let (in_ids, other) = others-Among prev e.1 a.server_ids in_others in
      let r : get_server_to_jump sort first second prev a pings ≡ e.1 =
        rw (h, eq, All-Among a.server_ids e.1 in_ids ids) refl in
      let smaller = smaller-le (sort known) i e (laws.sorted known) at in
      let count : length (keep (λ y. ltb_ℤ y.0 e.0) known) < 20 =
        (let c = laws.same (λ y. ltb_ℤ y.0 e.0) known in omega (arith, c, smaller, lt)) in
      subst (λ (q : ℤ). (ltb_ℤ (negsuc 0) q ≡ true) × (length (keep (λ e. ltb_ℤ e.0 q) known) < 20))
        (sym (ap (ping_at pings) r ∙ ping)) (here, count)
