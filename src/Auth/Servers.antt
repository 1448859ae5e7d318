-- ===== src/Auth/Servers.antt =====
-- Login and logout, and the list of servers in the reply. The XML document is a parameter: `Dom` is
-- QDomDocument, a node is its name and the texts of its first child elements.
use celo_desktop_app.Base.{
  ℕ, suc, Bool, true, false, not, ◌&&◌, Option, none, some, List, [], ◌∷◌, ◌++◌, if◌then◌else◌,
  is_empty, get_elem?, length,
}
use celo_desktop_app.Base.Int.{ℤ, pos, negsuc}
use celo_desktop_app.Base.State.{get, skip, modify, ◌>>=◌, ◌>>◌}
use celo_desktop_app.Base.Text.{Text, codes, ◌=text◌}
use celo_desktop_app.Common.{Qt}
use celo_desktop_app.Auth.Types.{
  AServer, no_server, Account, A, logout_completed, new_ip_loaded, send_credentials, fetch_servers,
  abort_reply, act, on_account,
}

abbrev pub or_empty : Option AServer → AServer
or_empty none = no_server
or_empty (some s) = s

abbrev pub server_at : List AServer → ℤ → Option AServer
server_at xs (pos n) = get_elem? xs n
server_at xs (negsuc n) = none

-- getServer.
unfoldable pub get_server : Account → ℤ → AServer
get_server a id = or_empty (server_at a.servers id)

-- currentEncryptionServers, for the only encryption.
unfoldable pub current_encryption_servers : Account → Text → List ℤ
current_encryption_servers a kind =
    if kind =text codes "tcp" then a.tcp_server_ids else a.udp_server_ids

-- std::map::insert keeps what the key has.
unfoldable pub insert_name : Text → ℕ → List (Text × ℕ) → List (Text × ℕ)
insert_name k v [] = (k, v) ∷ []
insert_name k v ((j, w) ∷ m) = if j =text k then (j, w) ∷ m else (j, w) ∷ insert_name k v m

unfoldable pub find_name : Text → List (Text × ℕ) → Option ℕ
find_name k [] = none
find_name k ((j, w) ∷ m) = if j =text k then some w else find_name k m

-- The loop of serverIxFromName over the servers from `k` on.
unfoldable pub fill_names : ℕ → List AServer → List (Text × ℕ) → List (Text × ℕ)
fill_names k [] m = m
fill_names k (s ∷ ss) m = fill_names (suc k) ss (insert_name s.name k m)

abbrev pub names_of : Account → List (Text × ℕ)
names_of a =
    if is_empty a.name_to_id && not (is_empty a.servers)
    then fill_names 0 a.servers a.name_to_id
    else a.name_to_id

abbrev pub ix_or_minus : Option ℕ → ℤ
ix_or_minus none = negsuc 0
ix_or_minus (some k) = pos k

-- serverIxFromName: the account with the filled cache, and the index.
unfoldable pub server_ix_from_name : Text → Account → ℤ × Account
server_ix_from_name srv a =
    let names = names_of a in (ix_or_minus (find_name srv names), record a { name_to_id = names })

-- clearServerLists.
unfoldable pub clear_server_lists : A (Unit {0})
clear_server_lists = modify (λ m. record m {
  account = record m.account { name_to_id = []; servers = [] };
  pings = record m.pings { pings = [] };
})

unfoldable pub logged_in : Bool → A (Unit {0})
logged_in b = on_account (λ a. record a { logged_in = b })

unfoldable pub login : Text → Text → A (Unit {0})
login name password = do
  on_account (λ a. record a {
    vpn_login = name;
    vpn_password = password;
    logged_in = true;
    cancelling_login = false;
  })
  act send_credentials
  act fetch_servers
  modify (λ m. record m { reply = true })

unfoldable pub cancel : A (Unit {0})
cancel = do
  on_account (λ a. record a { cancelling_login = true })
  m ← get
  if m.reply then act abort_reply else skip

unfoldable pub logout : A (Unit {0})
logout = do
  cancel
  on_account (λ a. record a { logged_in = false; vpn_login = []; vpn_password = [] })
  act logout_completed

unfoldable pub set_new_ip : Text → A (Unit {0})
set_new_ip ip =
    if ip =text codes "127.0.0.1"
    then skip
    else (do on_account (λ a. record a { new_ip = ip }); act (new_ip_loaded ip))

pub record Node : Type 0 where
  pub node_name : Text
  -- `firstChildElement(tag)`: null, or its text.
  pub child : Text → Option Text

-- setContent: the child nodes of the document element, or the message, line and column of an error.
pub data Document : Type 0 where
  nodes : List Node → Document
  no_document : Text → ℤ → ℤ → Document

pub record Dom : Type 0 where
  pub qt : Qt
  pub content : Text → Document

-- A finished QNetworkReply: errorString(), or the text of what readAll() returns.
pub data Reply : Type 0 where
  failed : Text → Reply
  bytes : Text → Reply

abbrev pub text_of : Option Text → Text
text_of none = []
text_of (some t) = t

-- The server of a node, if it is not skipped.
abbrev pub server_of : Node → Option Text → Option Text → Option AServer
server_of n none ip = none
server_of n (some address) none = none
server_of n (some address) (some ip) =
    if is_empty n.node_name
    then none
    else some (record {
      address = address;
      ip = ip;
      name = n.node_name;
      country = n.node_name;
      handles_tcp = true;
      handles_udp = true;
      config_urls =
          (pos 443, text_of (n.child (codes "Config-443")))
          ∷ (pos 53, text_of (n.child (codes "Config-53")))
          ∷ (pos 1194, text_of (n.child (codes "Config-1194")))
          ∷ [];
    })

unfoldable pub read_server : Node → Option AServer
read_server n = server_of n (n.child (codes "Name")) (n.child (codes "IP"))

-- The end of the loop's body: the server and its id are appended.
unfoldable pub append_server : Option AServer → Account → Account
append_server none a = a
append_server (some s) a =
    let id = pos (length a.servers) in
    record a {
      servers = a.servers ++ (s ∷ []);
      server_ids = a.server_ids ++ (id ∷ []);
      tcp_server_ids = if s.handles_tcp then a.tcp_server_ids ++ (id ∷ []) else a.tcp_server_ids;
      udp_server_ids = if s.handles_udp then a.udp_server_ids ++ (id ∷ []) else a.udp_server_ids;
    }

unfoldable pub append_nodes : List Node → Account → Account
append_nodes [] a = a
append_nodes (n ∷ ns) a = append_nodes ns (append_server (read_server n) a)
