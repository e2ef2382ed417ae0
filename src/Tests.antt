-- ===== src/Tests.antt =====
-- Runs of the model on concrete inputs, and the theorems applied at them.
mod Inputs
mod Framework
mod Queue
mod Device
mod Drain
mod Chunks
mod Peer
mod Exchange
mod Phy
mod Registers
mod Driver
mod Arp
mod Setup
mod Wire
mod Ioctl
mod Udp
mod Receive
mod Recovery
