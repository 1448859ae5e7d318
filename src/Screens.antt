-- ===== src/Screens.antt =====
-- The screens of the GUI behind the login window: celovpn/mapscreen.cpp, celovpn/connectiondialog.cpp and
-- celovpn/settingsscreen.cpp, with the flags of celovpn/flag.cpp.
pub mod Flag
pub mod Map
pub mod Dialog
pub mod Settings
