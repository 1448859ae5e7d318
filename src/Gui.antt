-- ===== src/Gui.antt =====
-- celovpn/vpnservicemanager.cpp: the GUI's end of the connection to the service; and
-- celovpn/wndmanager.cpp: which of its screens are visible.
pub mod Windows
pub mod Places
pub mod Manager
pub mod Notifications
pub mod KillSwitch
pub mod PortLoop
