-- ===== src/Screens/Settings/Dns.antt =====
-- The DNS servers that the settings screen shows.
