-- ===== src/Smap/Phy.antt =====
-- smap/smap.c, `InitPHY`: the reset of the PHY, the fixed mode and the auto-negotiation, up to the link
-- mode. The device is the argument `Bus`: what the registers and the stop flag read at each access. Reads
-- for messages are left out. The constants are those that smap-linux/smap.c spells out.
pub mod Registers
pub mod Modes
pub mod Best
pub mod Complete
pub mod Machine
pub mod Init
pub mod Parts
pub mod Ends
pub mod Starts
mod Tests
