-- ===== src/Tc6.antt =====
-- src/linux/drivers/net/ethernet/oa_tc6.c, one module for each part of the framework.
pub mod State
pub mod Parity
pub mod Ctrl
pub mod Bus
pub mod Tx
pub mod Rx
pub mod Transfer
pub mod Phy
pub mod Setup
