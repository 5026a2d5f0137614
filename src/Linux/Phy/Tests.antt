-- ===== src/Linux/Phy/Tests.antt =====
-- smap-linux/smap.c: `PhyInit` on registers that never change.
use ps2eth.Prelude.{◌≡◌, refl, true, false, some, none, ◌==◌, if◌then◌else◌, []}
use ps2eth.Smap.Phy.Machine.{bmcr}
use ps2eth.Linux.Media.{tests}
use ps2eth.Linux.Phy.{Registers, Flags, Smap, phy_init, wait_for, tick, confirm_auto_negotiation}
use ps2eth.Linux.Phy.Settles.{Settled, phy_init-Settled}

-- BMCR reads 0 and each other register 0x35.
abbrev sample_registers : Registers
sample_registers = record {
  read_phy = (λ t a. if a == bmcr then some 0 else some 0x35);
  mode1 = (λ t. 0);
  rev_1 = (λ t. 0x11);
}

abbrev no_flags : Flags
no_flags = record {
  link_establish = false;
  link_valid = false;
  check_force_100m = false;
  check_force_10m = false;
}

abbrev closed : Smap
closed = record { clock = 0; phy_writes = []; mode1_writes = []; flags = no_flags; tx_mode = 0 }

phy_init-Settled_example :
    Settled sample_registers 0 no_flags (phy_init sample_registers false 2 closed)
phy_init-Settled_example = phy_init-Settled sample_registers closed refl refl

-- A PHY that stops to answer reads -1, which has the bit for a complete negotiation.
abbrev silent : Registers
silent = record sample_registers { read_phy = (λ t a. none); rev_1 = (λ t. 0x13) }

silent_negotiated : (confirm_auto_negotiation silent closed).0 ≡ true
unfolding confirm_auto_negotiation wait_for tests tick
silent_negotiated = refl
