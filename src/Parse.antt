-- ===== src/Parse.antt =====
-- internal/parse/parse.go: the dumps of firewalls, and the ports of a compose file.
pub mod Iptables
pub mod Ufw
