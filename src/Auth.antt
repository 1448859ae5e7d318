-- ===== src/Auth.antt =====
-- celovpn/authmanager.cpp: the login, the list of servers, their pings and the choice of a server.
pub mod Types
pub mod Servers
pub mod Pings
pub mod Names
pub mod Login
pub mod Jump
pub mod OldIp
pub mod Updates
pub mod PingText
