-- ===== src/Lib.antt =====
-- celo-desktop-app is a VPN client in two processes. The service (src/service) runs OpenVPN as root
-- and talks to its management socket; the GUI (src/celovpn) asks the service for connections over a
-- local socket, in lines of JSON. Both share the enumerations and helpers of src/common.
--
-- Base holds the shared helpers: Boolean tests, lists, integers and text over the native numbers
-- (text is a list of UTF-16 units, with the QString methods that the code calls), texts cut at a
-- separator (Base.Separators), and state passing with the rule by which an invariant passes through
-- it (Base.State, `Keeps`).
--
-- Common is src/common/common.h and common.cpp: vpnState, commands and OpenVPNStateWord, IsValidIp,
-- IsValidPort, EscapePsw and escapeSpaces. What QString takes from Qt's tables (case folding, digits,
-- spaces, number conversion) is a parameter, the record `Qt`.
--
-- Openvpn is src/service/openvpnmanager.cpp. Openvpn.Types has the members of OpenvpnManager as the
-- record `Manager`; a pointer is the Boolean "not null". An operation is a state passing function
-- over it. Signals and effects are appended to the manager's trace; what the code asks of the
-- operating system, of OpenVPN and of Qt is answered by the record `Env`, the n-th question by its
-- value at n, so that a theorem over all environments covers all answers. Openvpn.Process is
-- setState, openvpnRunning, stop, cancel, killRunningOpenvpn and the sockets; Openvpn.Rights is
-- setRights, setChmod, setChown, netDown and enableTap, with a thrown exception as a value;
-- Openvpn.Connect is start, startConnecting, the template, writeConfigFile, getOpenvpnArgs,
-- continueConnecting, checkState and reconnectTimeout; Openvpn.Lines is the parsing of addresses;
-- Openvpn.Management is socketReadyRead and the words of the management socket; Openvpn.LogFile is
-- openvpnLogfileChanged; Openvpn.Events has all that can happen to the manager as a data type, and
-- `run` for a sequence of it. The three platforms are a value of the environment.
--
-- Service is src/service/qvpnclientconnection.cpp. Service.Client is the connection and its
-- notifications, Service.Commands the receive buffer and the commands. The manager's signals are
-- direct connections: `call` runs an operation of the manager and then the slots of the connection,
-- which read nothing of the manager. JSON is a parameter, the record `Json`. Service.Server is
-- src/service/qvpnserver.cpp: the clients connect, send and leave in any order. The connection that
-- runs has the others before and behind it, and the manager's signals reach all of them. The address
-- of a connection is the number of those made before it, so that living ones never share it.
-- Service.Server.Heard reads what was sent to a client as messages.
--
-- Auth is src/celovpn/authmanager.cpp: Auth.Types has the members of AuthManager, Auth.Servers login,
-- logout, the list of servers and its names, Auth.Login the reply with the list, Auth.Pings the
-- workers that ping the servers with the slots of pingwaiter.cpp, Auth.Jump the choice of a server,
-- Auth.OldIp the address before the VPN, Auth.PingText the output of ping, Auth.Updates the check for
-- updates with its place in the start of the login window. QDomDocument, a network reply, std::sort
-- (`Sorts` is what it promises), the answers of rand() and the conversions of numbers are parameters.
-- An access out of a list's bounds is the flag `crashed`.
--
-- Setting is src/celovpn/setting.cpp: Setting.Store has QSettings as a list of keys and values,
-- Setting.Protocols the tables of protocols and ports and the choice of the next port,
-- Setting.Values the local port, the forwarded ports and the age of the message about an update,
-- Setting.Servers the current server and switchToNextNode, Setting.Load loadServer, Setting.Startup
-- the autostart file on Linux. Since ENCRYPTION_COUNT is 1, the keys that name the encryption have
-- one form. The conversions of QVariant are a parameter, the record `Conversions`, and `Converts` is
-- what the code relies on: a value is read back as it was stored. Setting.Flags has the settings that
-- are on or off.
--
-- Gui is src/celovpn/vpnservicemanager.cpp: Gui.Manager the connection to the service and the
-- commands, Gui.Notifications socket_readyRead, startPortLoop and tryNextPort. Gui.Windows is
-- src/celovpn/wndmanager.cpp: which of the screens are visible; Gui.Places adds where they are.
--
-- Desktop is src/celovpn/loginwindow.cpp and src/celovpn/trayiconmanager.cpp over Auth, Setting and
-- Gui: Desktop.Types has the state of all of them, Desktop.Tray the tray's menu and actions,
-- Desktop.Slots and Desktop.Menu the slots of the window and of the menu. `on_auth` runs an
-- operation of AuthManager and then the slots of the signals that it emitted, oldest first; the
-- slots read nothing that the rest of the operation writes. The singletons exist as long as the
-- login window does.
--
-- Screens is the other windows over Setting and Auth, as the values that their widgets show:
-- Screens.Map src/celovpn/mapscreen.cpp, Screens.Dialog src/celovpn/connectiondialog.cpp,
-- Screens.Settings src/celovpn/settingsscreen.cpp, Screens.Flag src/celovpn/flag.cpp. A combo box is
-- its items and its index; what QComboBox does with an index is the parameter `select`. The slots of
-- the map's boxes and the signals of Setting call one another: they run on fuel, and `hung` notes
-- that it has run out.
--
-- Bounds and fuel: the loop over the receive buffer has the length of the buffer as fuel, and every
-- round takes at least one unit. The waiting loops with a fixed count in the source have that count.
-- The loop of stopObfsproxy has `rounds` as fuel and notes in `hung` that it ran out; the manager
-- never holds an obfsproxy process, so that the loop is never entered. An `int` is an unbounded
-- integer, except in secsTo, whose result wraps around at 2 ^ 32.
--
-- Not modelled: logging; the delays; conversions between bytes and QString (text is taken to be
-- ASCII where the code converts it); setIPv6, IPv6, runObfsproxy and launchObfsproxy, which nothing
-- calls; the forwarder of ports, which nothing makes and whose requests are comments; what QFile does
-- with the autostart file (Setting.Startup has the calls); the screen of the logs, fonts and styles;
-- the making of widgets and menus; copies of third-party code (QtSingleApplication, QtLockedFile,
-- QtService, ministun).
pub mod Base
pub mod Common
pub mod Openvpn
pub mod Service
pub mod Auth
pub mod Setting
pub mod Gui
pub mod Desktop
pub mod Screens
pub mod Tests
