-- ===== src/Lib.antt =====
-- ps2eth: Ethernet for the PlayStation 2's I/O processor (IOP).
--
-- The repository holds the ARP module and the headers of a small lwIP (common/), a driver for the
-- SMAP network adapter (smap/, and smap-linux/ for its older version), and a driver for KLSI USB
-- adapters (ps2klsi/). A driver fills an lwIP `struct netif`: the stack sends a packet by
-- `netif->output`, which calls `etharp_output` to write the Ethernet header, and by
-- `netif->linkoutput`; a driver hands a received packet to `etharp_ip_input` or `etharp_arp_input`
-- by its type, and a timer calls `etharp_tmr` every ten seconds.
--
-- Prelude passes on the library names that the modules share, with lists and Booleans over the native
-- numbers, and the laws of `bit_and` and `bit_or` on windows of bits.
-- Net: the integer types of common/include/lwip/arch.h, the byte-order functions at the end of
-- common/lwip/etharp.c, the macros of common/include/ipv4/lwip/ip_addr.h, and the packed structs of
-- common/include/netif/etharp.h and common/include/ipv4/lwip/ip.h as records.
-- Arp: `arp_table` of common/lwip/etharp.c as a list of entries, with `etharp_init`, `etharp_tmr`,
-- `find_arp_entry` and `update_arp_entry`. Each function of the source takes the table and returns
-- the new one. Its loops are structural recursions on the table.
-- Packet: the bytes that the ARP module writes: the reply it makes in place of a request, the request
-- of `etharp_query`, the Ethernet header of `etharp_output`, the multicast address.
-- Etharp: `etharp_ip_input`, `etharp_arp_input`, `etharp_query` and `etharp_output`, whose effects
-- (packets given to `linkoutput`, packets freed) are the list of actions that they return.
--
-- Integers are natural numbers, and where the source's type wraps around, the remainder is written
-- out (`u8`, `u16`, `u32`). ARP_QUEUEING, LWIP_DHCP and ETHARP_DEBUG are undefined in the
-- repository's builds, so the code under them is not compiled and not modelled.
-- What pbuf_alloc, pbuf_header and linkoutput return is an argument of the functions that call them.
--
-- Smap: the driver of the SMAP network adapter. Smap/Regs: the descriptor bits and ring sizes, which
-- smap-linux/smap.c spells out and smap/ takes from a header of the SDK. Smap/Queue: the linked queue
-- of packets of smap/main.c, over a store of `struct pbuf`. Smap/Ring: `HandleTxReqs` of smap/xfer.c
-- and `HandleTxIntr` of smap/smap.c. Smap/Receive: `HandleRxIntr`. Smap/Xmit: `SMapLowLevelOutput`,
-- `SMAPXmit` and `ClearPacketQueue`. Smap/Config: `ParseSmapConfiguration`. Smap/Init: the checks that
-- `smap_init` makes, the MAC address and `SMAPGetMACAddress`. Smap/System: the
-- transmit side as a step relation of the stack, the interrupt thread and the device. Smap/Thread: a
-- round of `IntrHandlerThread`, with the calls and register writes that it makes; how `InitPHY` ends, or that
-- it does not return, is an argument. Smap/Start:
-- `SMAPInitStart` and `SMAPStop`.
-- The loops of Smap take fuel, and `none` means that it ends; a pass over the queue takes one unit for
-- each packet and one more, `HandleTxIntr` one for each frame in flight and one more, `HandleRxIntr`
-- more than the rounds until the count of received frames reads 0. What the device's registers read,
-- what it writes into the receive descriptors between two rounds, whether DMA succeeds and what
-- pbuf_alloc and pbuf_coalesce return are arguments.
--
-- Smap/Args: the loop of `smap_init` over its arguments; `strtoul` is an argument. Smap/Entry: `_start`,
-- `SMapInit` and `SMapIFInit` of smap/main.c.
--
-- Smap/Phy: `InitPHY` of smap/smap.c. Phy/Registers: `_smap_read_phy` and `_smap_write_phy`. Phy/Machine
-- and Phy/Init: the function itself, over what the registers and the stop flag read at each access; a
-- loop that may go on for ever takes fuel, and once the stop flag stays set, more units than the time up
-- to then are enough. Phy/Modes: the link mode. Phy/Starts: the function as a part of the thread.
--
-- Klsi: the driver of KLSI USB adapters. Klsi/Frame: `low_level_output` and `low_level_input` of
-- ps2klsi/ps2eth.c; a pbuf chain is the list of its payloads, and an access outside of the two static
-- buffers has the result `none`. Klsi/Netif: `ethernetif_input`, `ethernetif_output`, `klsi_init` and
-- `readthread`, which hand packets to Etharp. Klsi/Log: `udp_log` of ps2klsi/driver.c with `chksum`; the
-- loop that folds a checksum takes fuel, and three units are enough. Klsi/Usb: `usb_klsi_probe` and
-- `usb_klsi_attach`, with the list of the calls that they make. Klsi/Start: the addresses of `_start`.
-- Klsi/Inet: `inet_addr` of ps2klsi/driver.c; its loop takes fuel, one unit for each character and one
-- more on a dotted address.
--
-- Linux: the older driver in smap-linux/. Linux/Requests: the queue of requests of smap-linux/main.c, with
-- one unit of fuel for each packet and one more. Linux/Ring: the transmit ring of smap-linux/smap.c,
-- `SMap_Send`, `ComputeFreeSize` and `HandleTXInt`, which takes 65 units of fuel. Linux/Receive:
-- `HandleRXInt`, over what each round reads from the descriptors; it takes more fuel than rounds up to the
-- first empty descriptor. Linux/Eeprom: the bit-serial protocol with the EEPROM, up to
-- `GetNodeAddr`; the EEPROM is an argument of the functions. Linux/Media and Linux/Phy: `PhyInit` over what
-- the registers of the PHY read; the forced modes take two units of fuel. Linux/Access: `ReadPhy`, `WritePhy`
-- and the resets that poll a register.
--
-- The rest of the start of smap-linux/ and the registration of threads, semaphores and callbacks are not
-- modelled: the first is a list of register writes, the last are calls of the kernel. Messages of printf
-- are left out.
pub mod Prelude
pub mod Net
pub mod Arp
pub mod Packet
pub mod Etharp
pub mod Smap
pub mod Klsi
pub mod Linux
