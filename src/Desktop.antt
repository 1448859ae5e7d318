-- ===== src/Desktop.antt =====
-- The GUI put together: the login window (celovpn/loginwindow.cpp) and the tray icon
-- (celovpn/trayiconmanager.cpp) over AuthManager, Setting and VPNServiceManager, which exist as long
-- as the login window does. A signal's slots run when the operation that emits it is over.
pub mod Types
pub mod Tray
pub mod Slots
pub mod Session
pub mod Reply
pub mod Logout
pub mod Early
pub mod Menu
