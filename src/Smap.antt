-- ===== src/Smap.antt =====
-- smap: the driver of the SMAP network adapter (smap.c, xfer.c and main.c).
pub mod Regs
pub mod Queue
pub mod Ring
pub mod System
pub mod Config
pub mod Args
pub mod Entry
pub mod Xmit
pub mod Thread
pub mod Start
pub mod Phy
pub mod Init
pub mod Receive
pub mod Samples
mod Tests
