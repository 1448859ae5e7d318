-- ===== src/Openvpn.antt =====
-- service/openvpnmanager.cpp: the part of the service that runs OpenVPN and talks to its management
-- socket. The children hold its parts.
pub mod Types
pub mod Process
pub mod Rights
pub mod Connect
pub mod Lines
pub mod Management
pub mod LogFile
pub mod Events
pub mod Invariant
pub mod Settings
pub mod Stop
pub mod Starting
pub mod Timeout
pub mod Words
pub mod Template
pub mod LogPosition
pub mod Addresses
