-- ===== src/Service.antt =====
-- service/qvpnclientconnection.cpp and service/qvpnserver.cpp: the connections to the GUI. Commands come as lines of JSON, the
-- manager's signals go out as lines of JSON.
pub mod Client
pub mod Commands
pub mod Server
pub mod Framing
pub mod Told
pub mod Status
pub mod Starting
