-- ===== src/Openvpn/Rights.antt =====
-- setRights, setChmod, setChown and netDown of service/openvpnmanager.cpp. A thrown exception is the
-- text of its message.
use celo_desktop_app.Base.{
  ℕ, zero, suc, ◌==◌, Bool, true, false, not, ◌||◌, ltb, Option, none, some, List, [], ◌∷◌, ◌++◌,
  bit_and, if◌then◌else◌,
}
use celo_desktop_app.Base.State.{maybe, modify, skip, pure, ◌>>=◌, ◌>>◌}
use celo_desktop_app.Base.Text.{Text, codes, contains}
use celo_desktop_app.Openvpn.Types.{
  Os, linux, darwin, windows, is_windows, Env, Adapter, M, execute, ask, emit, when,
}

-- What a step that may throw returns: the message of the exception.
abbrev pub Thrown : Type 0
Thrown = Option Text

-- The next statement runs if this one did not throw.
abbrev pub then_try : M Thrown → M Thrown → M Thrown
then_try first second = first >>= λ r. maybe second (λ msg. pure (some msg)) r

unfoldable pub lacks_flags : ℕ → Option ℕ → Bool
lacks_flags flags none = false
lacks_flags flags (some mode) = not (bit_and mode flags == flags)

-- `for (k = 1; k < 6 && 0 == r2 && flags are missing; ++k)`.
unfoldable pub wait_mode : Env → ℕ → ℕ → Option ℕ → M (Unit {0})
wait_mode env flags zero r = skip
wait_mode env flags (suc n) r =
    if lacks_flags flags r then (ask env.file_mode >>= λ r2. wait_mode env flags n r2) else skip

unfoldable pub change_mode : Env → Text → ℕ → Text → M Thrown
change_mode env sflags flags pfn = do
  emit (execute (codes "/bin/chmod") (sflags ∷ pfn ∷ []))
  r2 ← ask env.file_mode
  wait_mode env flags 5 r2
  pure none

-- `flags` is the octal value of `sflags`.
unfoldable pub set_chmod : Env → Text → ℕ → Text → M Thrown
set_chmod env sflags flags pfn = do
  st ← ask env.file_mode
  maybe (pure (some (codes "Cannot read flags on file " ++ pfn)))
      (λ mode.
        if lacks_flags flags (some mode) then change_mode env sflags flags pfn else pure none)
      st

unfoldable pub change_owner : Os → Text → M (Unit {0})
change_owner darwin pfn = do
  emit (execute (codes "/usr/bin/chgrp") (codes "wheel" ∷ pfn ∷ []))
  emit (execute (codes "/usr/sbin/chown") (codes "root" ∷ pfn ∷ []))
change_owner linux pfn = emit (execute (codes "/bin/chown") (codes "0:0" ∷ pfn ∷ []))
change_owner windows pfn = emit (execute (codes "/bin/chown") (codes "0:0" ∷ pfn ∷ []))

unfoldable pub take_ownership : Env → Text → M Thrown
take_ownership env pfn = do
  by_root ← ask env.owned_by_root
  when (not by_root) (change_owner env.os pfn)
  pure none

unfoldable pub set_chown : Env → Text → M Thrown
set_chown env pfn = do
  exists ← ask env.file_exists
  if exists
      then take_ownership env pfn
      else pure (some (codes "Cannot chown. File does not exist " ++ pfn))

unfoldable pub touch_log : Env → M Thrown
touch_log env = do emit (execute (codes "touch") (env.log_filename ∷ [])); pure none

unfoldable pub set_rights_on : Env → Os → M Thrown
set_rights_on env darwin = then_try (set_chmod env (codes "0744") 0o744 env.up_script_filename) (
    then_try (set_chown env env.up_script_filename) (
      then_try (set_chmod env (codes "0744") 0o744 env.down_script_filename) (
        then_try (set_chown env env.down_script_filename) (
          then_try (set_chmod env (codes "0755") 0o755 env.openvpn_filename) (
            then_try (set_chown env env.openvpn_filename) (
              then_try (set_chmod env (codes "04555") 0o4555 env.net_down_filename) (
                then_try (set_chown env env.net_down_filename) (
                  then_try (touch_log env)
                    (set_chmod env (codes "777") 0o777 env.log_filename)))))))))
set_rights_on env linux =
    then_try (set_chown env env.net_down_filename)
      (set_chmod env (codes "777") 0o777 env.net_down_filename)
set_rights_on env windows = pure none

unfoldable pub set_rights : Env → M Thrown
set_rights env = set_rights_on env env.os

unfoldable pub mark_net_down : M (Unit {0})
mark_net_down = modify (λ m. record m { net_down = true })

-- The exception that setRights may throw is caught and logged.
unfoldable pub unix_net_down : Env → Bool → M (Unit {0})
unix_net_down env true = do
  thrown ← set_rights env
  maybe (emit (execute env.net_down_filename []) >> mark_net_down) (λ msg. skip) thrown
unix_net_down env false = skip

-- The adapters that netDown leaves alone.
unfoldable pub is_skipped : Adapter → Bool
is_skipped a =
    contains a.description (codes "TAP-Windows")
    || contains a.description (codes "WAN Miniport")
    || contains a.description (codes "Kernel Debug")
    || contains a.description (codes "ISATAP")
    || contains a.description (codes "Tunelling")
    || contains a.friendly_name (codes "isatap")

unfoldable pub set_interface : Text → Text → M (Unit {0})
set_interface name mode = emit (
    execute (codes "netsh")
      ((codes "interface set interface name=\"" ++ (name ++ (codes "\" admin=" ++ mode))) ∷ []))

-- `mNetDown` is set where ShellExecute succeeds, for `admin=enable` too.
unfoldable pub switch_adapter : Env → Bool → Adapter → M (Unit {0})
switch_adapter env down a = when (not (is_skipped a)) do
  set_interface a.friendly_name (if down then codes "disable" else codes "enable")
  hi ← ask env.shell_execute
  when (ltb 32 hi) mark_net_down

-- `for (k = 0; p != NULL && k < v.size(); p = p->Next, ++k)`.
unfoldable pub switch_adapters : Env → Bool → ℕ → List Adapter → M (Unit {0})
switch_adapters env down zero rest = skip
switch_adapters env down (suc k) [] = skip
switch_adapters env down (suc k) (a ∷ rest) =
    switch_adapter env down a >> switch_adapters env down k rest

unfoldable pub switch_found : Env → Bool → ℕ × List Adapter → M (Unit {0})
switch_found env down (size, found) = switch_adapters env down size found

unfoldable pub windows_net_down : Env → Bool → M (Unit {0})
windows_net_down env down = do
  found ← ask env.adapters
  maybe skip (λ r. maybe skip (λ b. switch_found env down b) r) found

unfoldable pub netdown : Env → Bool → M (Unit {0})
netdown env down = if is_windows env.os then windows_net_down env down else unix_net_down env down

unfoldable pub open_tap : Env → Adapter → M (Unit {0})
open_tap env a =
    when (contains a.description (codes "TAP-Windows"))
      do set_interface a.friendly_name (codes "enabled"); ask env.shell_execute >>= λ hi. skip

unfoldable pub enable_taps : Env → List Adapter → M (Unit {0})
enable_taps env [] = skip
enable_taps env (a ∷ rest) = open_tap env a >> enable_taps env rest

unfoldable pub enable_tap : Env → M (Unit {0})
enable_tap env = do
  found ← ask env.adapters
  maybe skip (λ r. maybe skip (λ b. enable_taps env b.1) r) found
