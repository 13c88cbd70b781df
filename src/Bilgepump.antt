-- ===== src/Bilgepump.antt =====
-- src/bilgepump: the stateful monitor of the link layer.
pub mod State
pub mod Config
pub mod Alerts
pub mod Arp
pub mod Mac
pub mod Vlan
pub mod Stp
pub mod Dhcp
pub mod Identity
pub mod Monitor
