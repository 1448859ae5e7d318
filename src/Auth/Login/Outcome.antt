-- ===== src/Auth/Login/Outcome.antt =====
-- What a reply to the login leads to.
use celo_desktop_app.Base.{
  ℕ, suc, ◌≡◌, refl, sym, ap, ◌∙◌, Bool, true, false, Option, none, some, List, [], ◌∷◌, ◌++◌,
  arith, length, length-append, is_empty, if◌then◌else◌, subst, append-nil, append_assoc,
  Bool-cases, inl, inr,
}
use celo_desktop_app.Base.Int.{ℤ, pos}
use celo_desktop_app.Base.State.{Keeps-skip, Keeps-if, pure, ◌>>=◌, ◌>>◌}
use celo_desktop_app.Base.Text.{Text, codes}
use celo_desktop_app.Openvpn.Types.{trimmed}
use celo_desktop_app.Auth.Types.{
  AServer, Account, Auth, A, AuthAction, login_completed, login_error, act, on_account,
}
use celo_desktop_app.Auth.Servers.{
  logged_in, clear_server_lists, Node, Document, nodes, no_document, Dom, Reply, failed, bytes,
  read_server, append_server, append_nodes,
}
use celo_desktop_app.Auth.Pings.{ping_complete}
use celo_desktop_app.Auth.Pings.Account.{ping_all_servers-account, no_servers-ping_complete}
use celo_desktop_app.Auth.Login.{read_document, read_reply, process_servers_xml, login_finished}

-- The nodes that a reply lists: none where there is an error.
unfoldable pub nodes_in : Document → List Node
nodes_in (nodes ns) = ns
nodes_in (no_document message line column) = []

unfoldable pub listed : Dom → Reply → List Node
listed dom (failed e) = []
listed dom (bytes ba) = if is_empty ba then [] else nodes_in (dom.content (trimmed dom.qt ba))

-- The servers of the nodes that have a name and an address.
abbrev pub put_server : Option AServer → List AServer → List AServer
put_server none ss = ss
put_server (some s) ss = s ∷ ss

abbrev pub servers_of : List Node → List AServer
servers_of [] = []
servers_of (n ∷ ns) = put_server (read_server n) (servers_of ns)

abbrev pub ids_from : ℕ → List AServer → List ℤ
ids_from k [] = []
ids_from k (s ∷ ss) = pos k ∷ ids_from (suc k) ss

-- The servers `ss` were appended, each with its index as its id.
record Appended (ss : List AServer) (a b : Account) : Type 0 where
  servers : b.servers ≡ a.servers ++ ss
  server_ids : b.server_ids ≡ a.server_ids ++ ids_from (length a.servers) ss

after_server :
    (o : Option AServer) (ns : List Node) (a : Account)
    → ((b : Account) → Appended (servers_of ns) b (append_nodes ns b))
    → Appended (put_server o (servers_of ns)) a (append_nodes ns (append_server o a))
unfolding append_server
after_server none ns a ih = ih a
after_server (some s) ns a ih =
    let rest = ih (append_server (some s) a) in
    let size : length (a.servers ++ (s ∷ [])) ≡ suc (length a.servers) =
      omega (arith, length-append {0} a.servers (s ∷ [])) in
    record {
      servers = rest.servers ∙ append_assoc a.servers (s ∷ []) (servers_of ns);
      server_ids =
          rest.server_ids
          ∙ (append_assoc a.server_ids (pos (length a.servers) ∷ [])
                (ids_from (length (a.servers ++ (s ∷ []))) (servers_of ns))
              ∙ ap
                  (λ (k : ℕ). a.server_ids ++ (pos (length a.servers) ∷ ids_from k (servers_of ns)))
                  size);
    }

append_nodes-Appended :
    (ns : List Node) (a : Account) → Appended (servers_of ns) a (append_nodes ns a)
unfolding append_nodes
append_nodes-Appended [] a = record {
  servers = sym (append-nil a.servers);
  server_ids = sym (append-nil a.server_ids);
}
append_nodes-Appended (n ∷ ns) a = after_server (read_server n) ns a (append_nodes-Appended ns)

-- A login that the reply completes, and one that it refuses.
pub record Completed (ss : List AServer) (m k : Auth) : Type 0 where
  pub logged_in : k.account.logged_in ≡ true
  pub servers : k.account.servers ≡ ss
  pub server_ids : k.account.server_ids ≡ m.account.server_ids ++ ids_from 0 ss
  pub completed : (t : List AuthAction) × (k.trace ≡ login_completed ∷ t)

pub record Refused (m k : Auth) : Type 0 where
  pub logged_in : k.account.logged_in ≡ false
  pub servers : k.account.servers ≡ []
  pub server_ids : k.account.server_ids ≡ m.account.server_ids
  pub error : (e : Text) × (is_empty e ≡ false) × (k.trace ≡ login_error e ∷ m.trace)

abbrev pub Ends : List Node → Auth → Auth → Type 0
Ends [] m k = Refused m k
Ends (n ∷ ns) m k = Completed (servers_of (n ∷ ns)) m k

-- Qt names every error of a reply.
abbrev pub Explains : Reply → Type 0
Explains (failed e) = is_empty e ≡ false
Explains (bytes ba) = Unit

-- loginFinished on what is left once the lists are cleared.
finish : A Text → A (Unit {0})
finish op = do
  clear_server_lists
  message ← op
  if is_empty message then act login_completed else act (login_error message)

refused :
    (m : Auth) (e : Text) → is_empty e ≡ false → Refused m (finish (logged_in false >> pure e) m).1
unfolding finish clear_server_lists logged_in on_account act
refused m [] h = absurd (cc h)
refused m (c ∷ cs) h = record {
  logged_in = refl;
  servers = refl;
  server_ids = refl;
  error = (c ∷ cs, refl, refl);
}

-- The account after a completed login.
abbrev Filled : List AServer → Account → Account → Type 0
Filled ss a b =
    (b.logged_in ≡ true) × (b.servers ≡ ss) × (b.server_ids ≡ a.server_ids ++ ids_from 0 ss)

module _ (dom : Dom) (testing : Bool) (m : Auth) where
  completed :
      (n : Node) (ns : List Node)
      → Completed (servers_of (n ∷ ns)) m (finish (read_document dom testing (nodes (n ∷ ns))) m).1
  unfolding finish clear_server_lists logged_in on_account act read_document
  completed n ns =
      let cleared = record m.account { name_to_id = []; servers = [] } in
      let added = append_nodes-Appended (n ∷ ns) cleared in
      let P : Account → Type 0 = Filled (servers_of (n ∷ ns)) m.account in
      let (flag, servers, ids) =
        (Keeps-if {P = λ k. P k.account} testing Keeps-skip
            (ping_all_servers-account (λ a b. P a) (λ a b h. h))).at
          _ (refl, added.servers, added.server_ids) in
      record { logged_in = flag; servers = servers; server_ids = ids; completed = (_, refl) }

  read_document-Ends :
      (d : Document) → Ends (nodes_in d) m (finish (read_document dom testing d) m).1
  unfolding nodes_in read_document
  read_document-Ends (no_document message line column) = refused m _ refl
  read_document-Ends (nodes []) = refused m _ refl
  read_document-Ends (nodes (n ∷ ns)) = completed n ns

  -- When a failed reply has an error text that is not empty: loginFinished on a reply that lists nodes
  -- ends with the user logged in, the servers of those nodes in their order, their ids behind the ids
  -- from before, and the signal of a completed login. On any other reply it ends with the user logged
  -- out, no servers, and the signal of an error whose text is not empty.
  pub login_finished_lem :
      (r : Reply) → Explains r → Ends (listed dom r) m (login_finished dom testing r m).1
  unfolding login_finished process_servers_xml read_reply listed finish
  login_finished_lem (failed e) h = refused m e h
  login_finished_lem (bytes ba) h = elim (Bool-cases (is_empty ba)) [
    | inl none_read ↦
        rw none_read
          (refused m (codes "Cannot get server list xml. Server response is empty.") refl)
    | inr some_read ↦ rw some_read (read_document-Ends (dom.content (trimmed dom.qt ba)))
  ]

module _ (dom : Dom) (testing : Bool) where
  -- When a failed reply has an error text that is not empty and the reply lists no node, the slot of a
  -- ping's end accesses a list out of its bounds if it runs next.
  pub refused_login-ping_complete :
      (m : Auth) (r : Reply) (id : ℕ) (v : ℤ)
      → Explains r
      → listed dom r ≡ []
      → ((login_finished dom testing r >> ping_complete id v) m).1.crashed ≡ true
  refused_login-ping_complete m r id v h e =
      let ended : Refused m (login_finished dom testing r m).1 =
        subst (λ ns. Ends ns m (login_finished dom testing r m).1) e
          (login_finished_lem dom testing m r h) in
      no_servers-ping_complete (login_finished dom testing r m).1 id v ended.servers
