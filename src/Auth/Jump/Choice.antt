-- ===== src/Auth/Jump/Choice.antt =====
-- Which server a jump selects.
use celo_desktop_app.Base.{
  ℕ, zero, suc, ◌%◌, ◌<◌, ◌≡◌, refl, sym, ap, ◌∙◌, true, false, some, List, [], ◌∷◌, is_empty,
  get_elem?, length, arith, Bool-cases, inl, inr, min, subst, filled-length,
}
use native.Mathlib.Nat.{mod-lt}
use celo_desktop_app.Base.Int.{ℤ, pos, negsuc, eqb_ℤ, ltb_ℤ}
use celo_desktop_app.Auth.Types.{Account}
use celo_desktop_app.Auth.Jump.{
  get_pings, others, ping_ix, second_of, or_first, pick, pick_random, get_server_to_jump,
}
use celo_desktop_app.Auth.Jump.Lists.{
  Sorts, Among, others-Among, known-Among, all_kept, get_elem?-lt, no_length, some_length,
}

-- What the choice comes to: nothing without servers, any server where there is no other than the
-- previous one, and else a server of the list that is not the previous one.
abbrev pub Selected : List ℤ → ℤ → ℕ → List ℤ → ℤ → Type 0
Selected all prev zero ids r = r ≡ negsuc 0
Selected all prev (suc n) [] r = (k : ℕ) × (r ≡ pos k) × (k < suc n)
Selected all prev (suc n) (id ∷ ids) r = Among r all × (eqb_ℤ r prev ≡ false)

module _ (sort : List (ℤ × ℤ) → List (ℤ × ℤ)) (laws : Sorts sort) where
  length-sort : (l : List (ℤ × ℤ)) → length (sort l) ≡ length l
  length-sort l = sym (all_kept (sort l)) ∙ (laws.same (λ y. true) l ∙ all_kept l)

  -- What is picked stands in the sorted list, at one of the first 20 places.
  pub pick_lem :
      (rand : ℕ) (known : List (ℤ × ℤ))
      → is_empty known ≡ false
      → (e : ℤ × ℤ) × (i : ℕ) × (i < 20)
        × (get_elem? (sort known) i ≡ some e)
        × (pick sort rand known ≡ e.1)
  unfolding pick
  pick_lem rand known h =
      let some_known = filled-length known h in
      let k : ℕ = min 20 (length (sort known)) in
      let positive : 0 < k = omega (arith, some_known, length-sort known) in
      let lt : rand % k < k = mod-lt rand positive in
      let (e, at) = get_elem?-lt (sort known) (rand % k) (omega (arith, lt)) in
      (e, rand % k, omega (arith, lt), at, rw h (ap second_of at))

  pick_nothing :
      (rand : ℕ) (known : List (ℤ × ℤ)) → is_empty known ≡ true → pick sort rand known ≡ negsuc 0
  unfolding pick
  pick_nothing rand known h = rw h refl

  picked-Among :
      (rand : ℕ) (ps ids : List ℤ)
      → is_empty (ping_ix (get_pings ps ids) ids) ≡ false
      → Among (pick sort rand (ping_ix (get_pings ps ids) ids)) ids
  picked-Among rand ps ids h =
      let known = ping_ix (get_pings ps ids) ids in
      let (e, i, lt, at, eq) = pick_lem rand known h in
      let (in_ids, p, q) = known-Among ps ids e (laws.member known e (i, at)) in
      subst (λ r. Among r ids) (sym eq) in_ids

  pick_random_lem :
      (rand : ℕ) (a : Account) (id : ℤ) (ids : List ℤ)
      → Among (pick_random sort rand a (id ∷ ids)) (id ∷ ids)
  unfolding pick_random
  pick_random_lem rand a id ids =
      let lt : rand % length (id ∷ ids) < length (id ∷ ids) = mod-lt rand (omega arith) in
      let (e, at) = get_elem?-lt (id ∷ ids) (rand % length (id ∷ ids)) lt in
      (rand % length (id ∷ ids), at ∙ ap some (sym (ap or_first at)))

  -- With another server than the previous one, the choice is one of these.
  select_other :
      (first second : ℕ) (prev : ℤ) (a : Account) (pings : List ℤ) (id : ℤ) (ids : List ℤ)
      → is_empty a.servers ≡ false
      → others prev a.server_ids ≡ id ∷ ids
      → Among (get_server_to_jump sort first second prev a pings) (id ∷ ids)
  unfolding get_server_to_jump
  select_other first second prev a pings id ids h e =
      let srv = pick sort first (ping_ix (get_pings pings (id ∷ ids)) (id ∷ ids)) in
      rw (h, e)
        (elim (Bool-cases (ltb_ℤ srv (pos 0))) [
          | inl t ↦ rw t (pick_random_lem second a id ids)
          | inr f ↦
              rw f (elim (Bool-cases (is_empty (ping_ix (get_pings pings (id ∷ ids)) (id ∷ ids)))) [
                | inl z ↦ absurd (
                    cc (
                      f,
                      ap (λ r. ltb_ℤ r (pos 0))
                          (pick_nothing first (ping_ix (get_pings pings (id ∷ ids)) (id ∷ ids)) z),
                    ))
                | inr k ↦ picked-Among first pings (id ∷ ids) k
              ])
        ])

  -- Without another server, any server is chosen.
  select_any :
      (first second : ℕ) (prev : ℤ) (a : Account) (pings : List ℤ)
      → is_empty a.servers ≡ false
      → others prev a.server_ids ≡ []
      → get_server_to_jump sort first second prev a pings ≡ pos (second % length a.servers)
  unfolding get_server_to_jump pick ping_ix get_pings pick_random
  select_any first second prev a pings h e = rw (h, e) refl

  select_by :
      (first second : ℕ) (prev : ℤ) (a : Account) (pings : List ℤ) (n : ℕ) (ids : List ℤ)
      → length a.servers ≡ n
      → others prev a.server_ids ≡ ids
      → Selected a.server_ids prev n ids (get_server_to_jump sort first second prev a pings)
  unfolding get_server_to_jump
  select_by first second prev a pings zero ids size e = rw (no_length a.servers size) refl
  select_by first second prev a pings (suc n) [] size e =
      let lt = mod-lt second {m = length a.servers} (omega (arith, size)) in
      (
        second % length a.servers,
        select_any first second prev a pings (some_length a.servers size) e,
        omega (arith, lt, size),
      )
  select_by first second prev a pings (suc n) (id ∷ ids) size e = others-Among prev _ a.server_ids (
      subst (λ l. Among (get_server_to_jump sort first second prev a pings) l) (sym e)
        (select_other first second prev a pings id ids (some_length a.servers size) e))

  -- When std::sort sorts: with no servers the choice is -1; where the list of ids holds none but the
  -- previous one, it is an index below the number of the servers; and else it is an id of the list that
  -- is not the previous one.
  pub get_server_to_jump_lem :
      (first second : ℕ) (prev : ℤ) (a : Account) (pings : List ℤ)
      → Selected a.server_ids prev
          (length a.servers)
          (others prev a.server_ids)
          (get_server_to_jump sort first second prev a pings)
  get_server_to_jump_lem first second prev a pings =
      select_by first second prev a pings (length a.servers) (others prev a.server_ids) refl refl
