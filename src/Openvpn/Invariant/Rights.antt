-- ===== src/Openvpn/Invariant/Rights.antt =====
-- The file rights, netDown and enableTap keep the invariant.
use celo_desktop_app.Base.{ℕ, zero, suc, Bool, true, false, Option, none, List, [], ◌∷◌}
use celo_desktop_app.Base.State.{Keeps, Keeps-skip, Keeps-bind, Keeps-pure, keeps_rules}
use celo_desktop_app.Base.Text.{Text}
use celo_desktop_app.Common.{VpnState}
use celo_desktop_app.Openvpn.Types.{Os, linux, darwin, windows, Env, Adapter, M}
use celo_desktop_app.Openvpn.Rights.{
  Thrown, then_try, wait_mode, change_mode, set_chmod, change_owner, take_ownership, set_chown,
  touch_log, set_rights_on, set_rights, mark_net_down, unix_net_down, set_interface, switch_adapter,
  switch_adapters, switch_found, windows_net_down, netdown, open_tap, enable_taps, enable_tap,
}
use celo_desktop_app.Openvpn.Invariant.{Inv, leaves}

pub then_try-Inv :
    {st : VpnState}
    → {m n : M Thrown} → Keeps (Inv st) m
    → Keeps (Inv st) n
    → Keeps (Inv st) (then_try m n)
then_try-Inv hm hn = search keeps_rules

wait_mode-Inv :
    {st : VpnState}
    → (env : Env) (flags n : ℕ) (r : Option ℕ) → Keeps (Inv st) (wait_mode env flags n r)
unfolding wait_mode
wait_mode-Inv {st = st} env flags zero r = Keeps-skip
wait_mode-Inv {st = st} env flags (suc n) r =
    search (leaves, wait_mode-Inv {st = st} env flags n) depth 14

change_mode-Inv :
    {st : VpnState}
    → (env : Env) (sflags : Text) (flags : ℕ) (pfn : Text)
    → Keeps (Inv st) (change_mode env sflags flags pfn)
unfolding change_mode
change_mode-Inv env sflags flags pfn = search (leaves, wait_mode-Inv) depth 14

set_chmod-Inv :
    {st : VpnState}
    → (env : Env) (sflags : Text) (flags : ℕ) (pfn : Text)
    → Keeps (Inv st) (set_chmod env sflags flags pfn)
unfolding set_chmod
set_chmod-Inv env sflags flags pfn = search (leaves, change_mode-Inv) depth 14

change_owner-Inv : {st : VpnState} → (os : Os) (pfn : Text) → Keeps (Inv st) (change_owner os pfn)
unfolding change_owner
change_owner-Inv linux pfn = search leaves depth 14
change_owner-Inv darwin pfn = search leaves depth 14
change_owner-Inv windows pfn = search leaves depth 14

take_ownership-Inv :
    {st : VpnState} → (env : Env) (pfn : Text) → Keeps (Inv st) (take_ownership env pfn)
unfolding take_ownership
take_ownership-Inv env pfn = search (leaves, change_owner-Inv) depth 14

set_chown-Inv : {st : VpnState} → (env : Env) (pfn : Text) → Keeps (Inv st) (set_chown env pfn)
unfolding set_chown
set_chown-Inv env pfn = search (leaves, take_ownership-Inv) depth 14

touch_log-Inv : {st : VpnState} → (env : Env) → Keeps (Inv st) (touch_log env)
unfolding touch_log
touch_log-Inv env = search leaves depth 14

set_rights_on-Inv : {st : VpnState} → (env : Env) (os : Os) → Keeps (Inv st) (set_rights_on env os)
unfolding set_rights_on
set_rights_on-Inv env linux = search (then_try-Inv, set_chmod-Inv, set_chown-Inv) depth 14
set_rights_on-Inv env darwin =
    search (then_try-Inv, set_chmod-Inv, set_chown-Inv, touch_log-Inv) depth 14
set_rights_on-Inv env windows = Keeps-pure none

pub set_rights-Inv : {st : VpnState} → (env : Env) → Keeps (Inv st) (set_rights env)
unfolding set_rights
set_rights-Inv env = search set_rights_on-Inv depth 14

mark_net_down-Inv : {st : VpnState} → Keeps (Inv st) mark_net_down
unfolding mark_net_down
mark_net_down-Inv = search leaves depth 14

unix_net_down-Inv :
    {st : VpnState} → (env : Env) (down : Bool) → Keeps (Inv st) (unix_net_down env down)
unfolding unix_net_down
unix_net_down-Inv env true = search (leaves, set_rights-Inv, mark_net_down-Inv) depth 14
unix_net_down-Inv env false = Keeps-skip

set_interface-Inv :
    {st : VpnState} → (name : Text) (mode : Text) → Keeps (Inv st) (set_interface name mode)
unfolding set_interface
set_interface-Inv name mode = search leaves depth 14

switch_adapter-Inv :
    {st : VpnState}
    → (env : Env) (down : Bool) (a : Adapter) → Keeps (Inv st) (switch_adapter env down a)
unfolding switch_adapter
switch_adapter-Inv env down a = search (leaves, set_interface-Inv, mark_net_down-Inv) depth 14

switch_adapters-Inv :
    {st : VpnState}
    → (env : Env) (down : Bool) (k : ℕ) (rest : List Adapter)
    → Keeps (Inv st) (switch_adapters env down k rest)
unfolding switch_adapters
switch_adapters-Inv env down zero rest = Keeps-skip
switch_adapters-Inv env down (suc k) [] = Keeps-skip
switch_adapters-Inv env down (suc k) (a ∷ rest) =
    Keeps-bind (switch_adapter-Inv env down a) (λ _. switch_adapters-Inv env down k rest)

switch_found-Inv :
    {st : VpnState}
    → (env : Env) (down : Bool) (b : ℕ × List Adapter) → Keeps (Inv st) (switch_found env down b)
unfolding switch_found
switch_found-Inv env down (size, found) = switch_adapters-Inv env down size found

windows_net_down-Inv :
    {st : VpnState} → (env : Env) (down : Bool) → Keeps (Inv st) (windows_net_down env down)
unfolding windows_net_down
windows_net_down-Inv env down = search (leaves, switch_found-Inv) depth 14

pub netdown-Inv : {st : VpnState} → (env : Env) (down : Bool) → Keeps (Inv st) (netdown env down)
unfolding netdown
netdown-Inv env down = search (leaves, windows_net_down-Inv, unix_net_down-Inv) depth 14

open_tap-Inv : {st : VpnState} → (env : Env) (a : Adapter) → Keeps (Inv st) (open_tap env a)
unfolding open_tap
open_tap-Inv env a = search (leaves, set_interface-Inv) depth 14

enable_taps-Inv :
    {st : VpnState} → (env : Env) (found : List Adapter) → Keeps (Inv st) (enable_taps env found)
unfolding enable_taps
enable_taps-Inv env [] = Keeps-skip
enable_taps-Inv env (a ∷ rest) = Keeps-bind (open_tap-Inv env a) (λ _. enable_taps-Inv env rest)

pub enable_tap-Inv : {st : VpnState} → (env : Env) → Keeps (Inv st) (enable_tap env)
unfolding enable_tap
enable_tap-Inv env = search (leaves, enable_taps-Inv) depth 14
