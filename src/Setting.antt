-- ===== src/Setting.antt =====
-- celovpn/setting.cpp: the settings of the GUI, the protocols and ports, and the choice of the next
-- port.
pub mod Store
pub mod Protocols
pub mod Values
pub mod Flags
pub mod Ports
pub mod Choices
pub mod Servers
pub mod Nodes
pub mod Load
pub mod Restore
pub mod Startup
