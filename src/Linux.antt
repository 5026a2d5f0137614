-- ===== src/Linux.antt =====
-- smap-linux: the older driver of the SMAP network adapter (smap.c and main.c).
pub mod Requests
pub mod Ring
pub mod Receive
pub mod Access
pub mod Eeprom
pub mod Media
pub mod Phy
