-- ===== src/Lan865x.antt =====
-- The LAN865x driver of src/linux/drivers/net/ethernet/microchip/lan865x.
pub mod Priv
pub mod Multicast
pub mod Mac
pub mod Clock
pub mod Net
pub mod Chardev
pub mod Probe
pub mod Packets
pub mod Ptp
