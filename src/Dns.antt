-- ===== src/Dns.antt =====
-- The DNS agent and what it stands on: library/dns and include/os/linux/udjat/net/dns.h.
pub mod State
pub mod Record
pub mod Resolver
pub mod Agent
