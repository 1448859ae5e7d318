-- ===== src/Service/Starting.antt =====
-- What a start command of the client does to the manager.
use celo_desktop_app.Base.{
  ℕ, ◌≡◌, refl, sym, ◌∙◌, subst, false, List, [], ◌∷◌, arith, if◌then◌else◌, some,
}
use celo_desktop_app.Base.State.{Keeps, keeps_rules, get, skip, ◌>>=◌}
use celo_desktop_app.Base.Text.{Text, codes, remove_unit}
use celo_desktop_app.Common.{connecting, connected, eqb_state, count_unit, int_of}
use celo_desktop_app.Openvpn.Types.{
  Env, Action, Manager, M, state_changed, got_new_ip, state_word_changed, send_error, timed_out,
  fetch_template,
}
use celo_desktop_app.Openvpn.Process.{stop}
use celo_desktop_app.Openvpn.Rights.{netdown}
use celo_desktop_app.Openvpn.Connect.{start, server_key}
use celo_desktop_app.Openvpn.Starting.{start_lem, latest}
use celo_desktop_app.Service.Client.{
  Json, Client, Service, call, deliver, notify, send_message, vpn_state_changed, vpn_status,
  vpn_state_word, vpn_error, vpn_new_ip, vpn_timed_out,
}
use celo_desktop_app.Service.Commands.{clean, on_client, take_start, start_args, do_start}

-- The members that a start command sets.
record SameArgs (c d : Client) : Type 0 where
  encryption : d.encryption ≡ c.encryption
  server_id : d.server_id ≡ c.server_id
  hostname : d.hostname ≡ c.hostname
  port : d.port ≡ c.port
  template_url : d.template_url ≡ c.template_url
  local_port : d.local_port ≡ c.local_port
  tcp_or_udp : d.tcp_or_udp ≡ c.tcp_or_udp

SameArgs-notify :
    (json : Json) (k : Client) (a : Action) (c : Client)
    → SameArgs k c
    → SameArgs k (notify json a c)
unfolding notify vpn_state_changed vpn_state_word vpn_error vpn_new_ip vpn_timed_out vpn_status
    send_message
SameArgs-notify json k (state_changed new) c h = ground arith
SameArgs-notify json k (state_word_changed w) c h = ground arith
SameArgs-notify json k (send_error w) c h = ground arith
SameArgs-notify json k (got_new_ip w) c h = ground arith
SameArgs-notify json k timed_out c h = ground arith
SameArgs-notify json k _ c h = h

SameArgs-deliver :
    (json : Json) (k : Client) (as' : List Action) (c : Client)
    → SameArgs k c
    → SameArgs k (deliver json as' c)
unfolding deliver
SameArgs-deliver json k [] c h = h
SameArgs-deliver json k (a ∷ as') c h =
    SameArgs-notify json k a (deliver json as' c) (SameArgs-deliver json k as' c h)

-- The client holds the members of `k`.
record Holds (k : Client) (s : Service) : Type 0 where
  same : SameArgs k s.client

call-Holds : (json : Json) (k : Client) (op : M (Unit {0})) → Keeps (Holds k) (call json op)
unfolding call
call-Holds json k op = record {
  at = λ s h. record { same = SameArgs-deliver json k _ s.client h.same };
}

when_connected-Holds :
    (env : Env) (json : Json) (k : Client)
    → Keeps
        (Holds k)
        (do s ← get; if eqb_state s.manager.state connected then call json (stop env) else skip)
when_connected-Holds env json k = search (keeps_rules, call-Holds) depth 10

count-remove : (c : ℕ) (t : Text) → count_unit c (remove_unit c t) ≡ 0
unfolding count_unit remove_unit
count-remove c [] = refl
count-remove c (x ∷ xs) = ground (arith, count-remove c xs)

count-remove-other : (c d : ℕ) (t : Text) → count_unit c t ≡ 0 → count_unit c (remove_unit d t) ≡ 0
unfolding count_unit remove_unit
count-remove-other c d [] h = refl
count-remove-other c d (x ∷ xs) h = ground (arith, count-remove-other c d xs)

-- No line end is left in the text.
pub record IsLine (t : Text) : Type 0 where
  pub feeds : count_unit b'\n' t ≡ 0
  pub returns : count_unit b'\r' t ≡ 0

clean-IsLine : (t : Text) → IsLine (clean t)
unfolding clean
clean-IsLine t = record {
  feeds = count-remove-other b'\n' b'\r' (remove_unit b'\n' t) (count-remove b'\n' t);
  returns = count-remove b'\r' (remove_unit b'\n' t);
}

-- The manager connects with the values of the command's object.
pub record Commanded (env : Env) (json : Json) (doc : Text) (m : Manager) : Type 0 where
  pub state : m.state ≡ connecting
  pub asks :
      latest m.trace
      ≡ some
          (fetch_template m.template_url (server_key m.server_id (int_of (env.qt.to_int m.port))))
  pub encryption : m.encryption ≡ json.int_at doc (codes "encryption")
  pub server_id : m.server_id ≡ json.int_at doc (codes "serverid")
  pub hostname : m.hostname ≡ clean (json.text_at doc (codes "server"))
  pub port : m.port ≡ clean (json.text_at doc (codes "port"))
  pub template_url : m.template_url ≡ clean (json.text_at doc (codes "template"))
  pub local_port : m.local_port ≡ clean (json.text_at doc (codes "localport"))
  pub tcp_or_udp : m.tcp_or_udp ≡ clean (json.text_at doc (codes "tcporudp"))
  pub fix_dns : m.fix_dns ≡ json.bool_at doc (codes "fixDNS")
  pub dns1 : m.dns1 ≡ clean (json.text_at doc (codes "dns1"))
  pub dns2 : m.dns2 ≡ clean (json.text_at doc (codes "dns2"))

module _ (env : Env) (json : Json) (doc : Text) where
  -- The service in which the command calls start().
  prepared : Service → Service
  prepared s =
      let t = (call json (netdown env false) (on_client (take_start env json doc) s).1).1 in
      ((if eqb_state t.manager.state connected then call json (stop env) else skip) t).1

  do_start_steps :
      (s : Service)
      → let t = prepared s in
        (do_start env json doc s).1.manager
        ≡ (start env (start_args env json doc t.client) (record t.manager { trace = [] })).1
  unfolding do_start prepared on_client call
  do_start_steps s = refl

  prepared-Holds : (s : Service) → SameArgs (take_start env json doc s.client) (prepared s).client
  unfolding prepared on_client
  prepared-Holds s =
      let k = take_start env json doc s.client in
      ((when_connected-Holds env json k).at _ (
        (call-Holds json k (netdown env false)).at (record s { client = k })
          (record {
            same = record {
              encryption = refl;
              server_id = refl;
              hostname = refl;
              port = refl;
              template_url = refl;
              local_port = refl;
              tcp_or_udp = refl;
            };
          }))).same

  -- After a start command the manager is connecting with the values of the command's object, less
  -- the line ends of its texts, whatever it did before, and the template of that server and port is
  -- the last thing it asked for.
  pub do_start_lem : (s : Service) → Commanded env json doc (do_start env json doc s).1.manager
  unfolding take_start start_args
  do_start_lem s =
      let t = prepared s in
      let a = start_args env json doc t.client in
      let h = prepared-Holds s in
      let (starts, fetches, alike) = start_lem env a (record t.manager { trace = [] }) in
      rw (do_start_steps s) record {
        state = starts;
        asks = fetches ∙ cc (alike.template_url, alike.server_id, alike.port);
        encryption = alike.encryption ∙ h.encryption;
        server_id = alike.server_id ∙ h.server_id;
        hostname = alike.hostname ∙ h.hostname;
        port = alike.port ∙ h.port;
        template_url = alike.template_url ∙ h.template_url;
        local_port = alike.local_port ∙ h.local_port;
        tcp_or_udp = alike.tcp_or_udp ∙ h.tcp_or_udp;
        fix_dns = alike.fix_dns;
        dns1 = alike.dns1;
        dns2 = alike.dns2;
      }

  -- After a start command the host name, the ports, the template, the kind of the port and the DNS
  -- servers that the manager holds have no line feed and no carriage return.
  pub do_start-IsLine :
      (s : Service)
      → let m = (do_start env json doc s).1.manager in
        IsLine m.hostname
        × IsLine m.port
        × IsLine m.template_url
        × IsLine m.local_port
        × IsLine m.tcp_or_udp
        × IsLine m.dns1
        × IsLine m.dns2
  do_start-IsLine s =
      let h = do_start_lem s in
      (
        subst IsLine (sym h.hostname) (clean-IsLine _),
        subst IsLine (sym h.port) (clean-IsLine _),
        subst IsLine (sym h.template_url) (clean-IsLine _),
        subst IsLine (sym h.local_port) (clean-IsLine _),
        subst IsLine (sym h.tcp_or_udp) (clean-IsLine _),
        subst IsLine (sym h.dns1) (clean-IsLine _),
        subst IsLine (sym h.dns2) (clean-IsLine _),
      )
