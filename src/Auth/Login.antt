-- ===== src/Auth/Login.antt =====
-- The reply to the login: processServersXml and loginFinished.
pub mod Outcome
use celo_desktop_app.Base.{Bool, true, false, List, [], ◌∷◌, ◌++◌, if◌then◌else◌, is_empty}
use celo_desktop_app.Base.State.{skip, pure, ◌>>=◌, ◌>>◌}
use celo_desktop_app.Base.Text.{Text, codes}
use celo_desktop_app.Openvpn.Types.{trimmed}
use celo_desktop_app.Auth.Types.{
  A, login_completed, server_lists_loaded, login_error, act, on_account,
}
use celo_desktop_app.Auth.Servers.{
  logged_in, clear_server_lists, Document, nodes, no_document, Dom, Reply, failed, bytes,
  append_nodes,
}
use celo_desktop_app.Auth.Pings.{ping_all_servers}

module _ (dom : Dom) (testing : Bool) where
  unfoldable pub read_document : Document → A Text
  read_document (no_document message line column) = do
    logged_in false
    pure (
        codes "Error parsing server XML response\nmessage: "
        ++ (message
            ++ (codes "\nline: "
                ++ (dom.qt.number line
                    ++ (codes "\ncolumn: " ++ (dom.qt.number column ++ codes "\n"))))))
  read_document (nodes []) = do
    logged_in false
    pure (codes "Incorrect credentials. Make sure to use your VPN credentials and not your email.")
  read_document (nodes (n ∷ ns)) = do
    on_account (append_nodes (n ∷ ns))
    logged_in true
    act server_lists_loaded
    if testing then skip else ping_all_servers
    pure []

  unfoldable pub read_reply : Reply → A Text
  read_reply (failed e) = do logged_in false; pure e
  read_reply (bytes ba) =
      if is_empty ba
      then (do
        logged_in false
        pure (codes "Cannot get server list xml. Server response is empty."))
      else read_document (dom.content (trimmed dom.qt ba))

  unfoldable pub process_servers_xml : Reply → A Text
  process_servers_xml r = do clear_server_lists; read_reply r

  unfoldable pub login_finished : Reply → A (Unit {0})
  login_finished r = do
    message ← process_servers_xml r
    if is_empty message then act login_completed else act (login_error message)
