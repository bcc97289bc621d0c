-- ===== src/Icmp.antt =====
-- The ICMP part: responses and their states, the packet checksum, hosts and their controller.
pub mod Response
pub mod State
pub mod Checksum
pub mod Packet
pub mod Host
pub mod Controller
pub mod Worker
