-- ===== src/Klsi.antt =====
-- ps2klsi: the driver of KLSI USB adapters (driver.c, ps2eth.c).
pub mod Inet
pub mod Frame
pub mod Netif
pub mod Log
pub mod Usb
pub mod Start
