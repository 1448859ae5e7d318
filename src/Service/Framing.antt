-- ===== src/Service/Framing.antt =====
-- The lines of the receive buffer: what is read does not depend on how the bytes are cut up.
use celo_desktop_app.Base.{
  ℕ, zero, suc, ◌+◌, ◌≤◌, ◌≡◌, refl, sym, ap, ◌∙◌, none, some, List, [], ◌∷◌, ◌++◌, arith, length,
  length-append, drop, All, inl, inr, append_assoc,
}
use celo_desktop_app.Base.Separators.{Lacks, find_unit-append, find_unit-Lacks, separated}
use celo_desktop_app.Base.State.{State, pure, skip, ◌>>=◌, ◌>>◌}
use celo_desktop_app.Base.Text.{Text, split, put_first}
use celo_desktop_app.Openvpn.Types.{Env}
use celo_desktop_app.Service.Client.{Json, Service}
use celo_desktop_app.Service.Commands.{first_of, next_command, dispatch, serve, socket_ready_read}

first_of-put_first : (x : ℕ) (ws : List Text) → first_of (put_first x ws) ≡ x ∷ first_of ws
first_of-put_first x [] = refl
first_of-put_first x (w ∷ ws) = refl

first_of-split : (f rest : Text) → Lacks b'\n' f → first_of (split b'\n' (f ++ (b'\n' ∷ rest))) ≡ f
unfolding split
first_of-split [] rest h = refl
first_of-split (x ∷ xs) rest h = rw (h.0) (
    first_of-put_first x (split b'\n' (xs ++ (b'\n' ∷ rest)))
    ∙ ap (◌∷◌ x) (first_of-split xs rest h.1))

drop-line : (f rest : Text) → drop (length f + 1) (f ++ (b'\n' ∷ rest)) ≡ rest
drop-line [] rest = refl
drop-line (x ∷ xs) rest =
    let n : suc (length xs) + 1 ≡ suc (length xs + 1) = omega arith in rw n (drop-line xs rest)

next_command-line :
    (f rest : Text) → Lacks b'\n' f → next_command (f ++ (b'\n' ∷ rest)) ≡ some (f, rest)
unfolding next_command
next_command-line f rest h =
    rw (find_unit-append b'\n' f rest h, first_of-split f rest h, drop-line f rest)

next_command-part : (f : Text) → Lacks b'\n' f → next_command f ≡ none
unfolding next_command
next_command-part f h = rw (find_unit-Lacks b'\n' f h)

length-line : (f rest : Text) → length (f ++ (b'\n' ∷ rest)) ≡ suc (length f + length rest)
length-line f rest = omega (arith, length-append f (b'\n' ∷ rest))

-- Lines, each with its end.
abbrev pub in_lines : List Text → Text → Text
in_lines [] rest = rest
in_lines (c ∷ cs) rest = c ++ (b'\n' ∷ in_lines cs rest)

module _ (env : Env) (json : Json) where
  serve-line :
      (n : ℕ) (f rest : Text)
      → Lacks b'\n' f
      → serve env json (suc n) (f ++ (b'\n' ∷ rest))
        ≡ (dispatch env json f >> serve env json n rest)
  unfolding serve
  serve-line n f rest h = rw (next_command-line f rest h) refl

  serve-part : (n : ℕ) (f : Text) → Lacks b'\n' f → serve env json n f ≡ pure f
  unfolding serve
  serve-part zero f h = refl
  serve-part (suc n) f h = rw (next_command-part f h) refl

  -- Any two amounts of fuel that cover the buffer do the same.
  serve_enough :
      (n k : ℕ) (b : Text) (s : Service)
      → length b ≤ n
      → length b ≤ k
      → serve env json n b s ≡ serve env json k b s
  serve_enough zero k [] s p q =
      ap (λ (f : State Service Text). f s) (serve-part zero [] tt ∙ sym (serve-part k [] tt))
  serve_enough zero k (x ∷ b) s p q = absurd (omega arith)
  serve_enough (suc n) zero [] s p q =
      ap (λ (f : State Service Text). f s) (serve-part (suc n) [] tt ∙ sym (serve-part zero [] tt))
  serve_enough (suc n) zero (x ∷ b) s p q = absurd (omega arith)
  serve_enough (suc n) (suc k) b s p q = elim (separated b'\n' b) [
    | inl h ↦ rw (serve-part (suc n) b h, serve-part (suc k) b h) refl
    | inr (f, rest, h, e) ↦
        let e' = length-line f rest in
        let e'' = ap length e in
        rw (e, serve-line n f rest h, serve-line k f rest h)
          (serve_enough n k rest (dispatch env json f s).1 (omega arith) (omega arith))
  ]

  serve-shrinks : (n : ℕ) (b : Text) (s : Service) → length (serve env json n b s).0 ≤ length b
  serve-shrinks zero b s = unfold serve in omega arith
  serve-shrinks (suc n) b s = elim (separated b'\n' b) [
    | inl h ↦ rw (serve-part (suc n) b h) (omega arith)
    | inr (f, rest, h, e) ↦
        let e' = length-line f rest in
        let ih = serve-shrinks n rest (dispatch env json f s).1 in
        rw (e, serve-line n f rest h) (omega arith)
  ]

  -- A line in front: one round, with any fuel that covers the whole buffer.
  serve_round :
      (k : ℕ) (f rest : Text) (s : Service)
      → Lacks b'\n' f
      → length (f ++ (b'\n' ∷ rest)) ≤ k
      → serve env json k (f ++ (b'\n' ∷ rest)) s ≡ serve env json k rest (dispatch env json f s).1
  serve_round zero f rest s h q = let e = length-line f rest in absurd (omega arith)
  serve_round (suc k) f rest s h q =
      let e = length-line f rest in
      rw (serve-line k f rest h)
        (serve_enough k (suc k) rest (dispatch env json f s).1 (omega arith) (omega arith))

  serve-append :
      (n k : ℕ) (a t : Text) (s : Service)
      → length a ≤ n
      → length (a ++ t) ≤ k
      → (serve env json n a >>= λ r. serve env json k (r ++ t)) s ≡ serve env json k (a ++ t) s
  serve-append zero k [] t s p q = rw (serve-part zero [] tt) refl
  serve-append zero k (x ∷ a) t s p q = absurd (omega arith)
  serve-append (suc n) k a t s p q = elim (separated b'\n' a) [
    | inl h ↦ rw (serve-part (suc n) a h) refl
    | inr (f, rest, h, e) ↦
        let l = length-line f rest in
        let l' = length-line f (rest ++ t) in
        let g = append_assoc f (b'\n' ∷ rest) t in
        let e' = ap length e in
        let e'' = ap (λ (x : Text). length (x ++ t)) e in
        let g' = ap length g in
        rw (e, serve-line n f rest h, g)
          (serve-append n k rest t (dispatch env json f s).1 (omega arith) (omega arith)
            ∙ sym (serve_round k f (rest ++ t) s h (omega arith)))
  ]

  -- Reading bytes in two pieces does what reading them in one does: the same commands in the same
  -- order, the same messages, and the same rest in the buffer.
  pub socket_ready_read-append :
      (a b buffer : Text) (s : Service)
      → (socket_ready_read env json a buffer >>= socket_ready_read env json b) s
        ≡ socket_ready_read env json (a ++ b) buffer s
  unfolding socket_ready_read
  socket_ready_read-append a b buffer s =
      let n = length (buffer ++ a) in
      let k = length (buffer ++ (a ++ b)) in
      let first = serve env json n (buffer ++ a) s in
      let shrinks = serve-shrinks n (buffer ++ a) s in
      let l = length-append first.0 b in
      let l' = length-append buffer (a ++ b) in
      let l'' = length-append buffer a in
      let m = length-append a b in
      let g = append_assoc buffer a b in
      let g' = ap length g in
      serve_enough (length (first.0 ++ b)) k (first.0 ++ b) first.1 (omega arith) (omega arith)
      ∙ serve-append n k (buffer ++ a) b s (omega arith) (omega arith)
      ∙ ap (λ (x : Text). serve env json k x s) g

  abbrev pub dispatch_all : List Text → State Service (Unit {0})
  dispatch_all [] = skip
  dispatch_all (c ∷ cs) = dispatch env json c >> dispatch_all cs

  serve-in_lines :
      (k : ℕ) (cs : List Text) (part : Text) (s : Service)
      → All (Lacks b'\n') cs
      → Lacks b'\n' part
      → length (in_lines cs part) ≤ k
      → serve env json k (in_lines cs part) s ≡ (dispatch_all cs >> pure part) s
  serve-in_lines k [] part s h hp q = rw (serve-part k part hp) refl
  serve-in_lines k (c ∷ cs) part s h hp q =
      let l = length-line c (in_lines cs part) in
      serve_round k c (in_lines cs part) s h.0 q
      ∙ serve-in_lines k cs part (dispatch env json c s).1 h.1 hp (omega arith)

  -- When commands without line ends arrive, each followed by one, each is handled once and in their
  -- order, and what follows the last line end stays in the buffer.
  pub socket_ready_read-in_lines :
      (cs : List Text) (part : Text) (s : Service)
      → All (Lacks b'\n') cs
      → Lacks b'\n' part
      → socket_ready_read env json (in_lines cs part) [] s ≡ (dispatch_all cs >> pure part) s
  unfolding socket_ready_read
  socket_ready_read-in_lines cs part s h hp =
      serve-in_lines (length (in_lines cs part)) cs part s h hp (omega arith)
