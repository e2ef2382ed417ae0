-- ===== src/Lib.antt =====
-- The 10BASE-T1S Ethernet driver (LAN865x MAC-PHY over SPI, OPEN Alliance TC6 framework).
--
-- The program. The framework src/linux/drivers/net/ethernet/oa_tc6.c talks to the MAC-PHY over
-- SPI: control transactions read and write registers, data transactions carry Ethernet frames cut
-- into chunks of 64 bytes with a header or footer word. The LAN865x driver
-- (src/linux/drivers/net/ethernet/microchip/lan865x) is a network device and a PTP clock on top of
-- it. The ARP tool examples/arp finds the addresses of the other nodes, the tool examples/ioctl reads
-- and writes registers through the character device, and examples/udp-integrity-check compares what
-- it sends with what comes back.
--
-- The files.
--   Prelude: lists with the array operations of C, Booleans, and the outcome of a call: a value,
--     a negative errno, or a memory fault. M is a state with such an outcome.
--   Word: casts to u8 to u64 and the kernel's macros BIT, GENMASK, FIELD_PREP, FIELD_GET and the
--     big-endian conversions, as their documentation states them.
--   Tc6/State: struct oa_tc6 (Tc6), the buffer sizes, and the parameters (Platform): spi_sync, the
--     allocation of socket buffers, skb_linearize and eth_type_trans, over a state of their own.
--   Tc6/Parity: oa_tc6_get_parity.
--   Tc6/Ctrl: oa_tc6_prepare_ctrl_header to oa_tc6_write_register, and oa_tc6_spi_transfer.
--   Tc6/Tx: oa_tc6_prepare_data_header to oa_tc6_prepare_spi_tx_buf_for_rx_chunks and
--     oa_tc6_start_xmit. Tx/Sink is a receiver of the chunk stream, the specification of the path.
--   Tc6/Rx: filter_rx_timestamp, and oa_tc6_cleanup_ongoing_rx_skb to
--     oa_tc6_process_spi_data_rx_buf. Rx/Delivery looks at a receive buffer that carries a frame
--     (Carries). Rx/Source is a receiver that only collects bytes and a sender that cuts frames into
--     chunks, the specification of the path; Rx/Tracks and Rx/Handover run the driver beside it, and
--     Rx/Recovery looks at the chunks behind an overflow.
--   Tc6/Transfer: oa_tc6_try_spi_transfer, oa_tc6_macphy_isr and
--     oa_tc6_update_buffer_status_from_register. Transfer/Fifo is a step relation in which
--     oa_tc6_start_xmit and interrupts come between any two steps of the transfer thread.
--     Transfer/Thread is oa_tc6_spi_thread_handler over the wake-ups that it gets. Transfer/Drain has
--     a device (ChunkDevice), over which Transfer/Deliver looks at the loop and Transfer/Service at
--     the thread; Tx/Left counts the chunks that the queue still needs. Transfer/Duplex has a device
--     that sends frames of its own (DuplexDevice), with the loop in Duplex/Frames, what happens while
--     the thread waits in Duplex/Events, what it then finds to do in Duplex/Work, and the thread in
--     Duplex/Service.
--   Tc6/Bus: oa_tc6_read_register and oa_tc6_write_register as an interface (RegisterBus), which the
--     modules below take as a parameter, with the statuses that callers ignore or replace. Bus/Laws
--     says what they rely on (RegisterFile), registers that keep what is written to them. Bus/Device
--     says how a chip answers control transactions (ControlDevice), as the protocol asks.
--   Tc6/Phy: oa_tc6_check_phy_reg_direct_access_capability to oa_tc6_mdiobus_write_c45.
--   Tc6/Setup: oa_tc6_read_status0 to oa_tc6_enable_data_transfer, and
--     oa_tc6_zero_align_receive_frame_enable; Setup/Lan8650: indirect_read, set_macphy_register and
--     init_lan865x; Setup/Init: oa_tc6_mdiobus_register to oa_tc6_phy_exit, oa_tc6_init and
--     oa_tc6_exit, with the kernel's answers as a parameter (Kernel) and the resources that are held
--     as the state (Held).
--   Lan865x/Priv: struct lan865x_priv (Priv) with the fields of the network device in use.
--   Lan865x/Multicast: lan865x_hash and the writes of the hash registers; Lan865x/Mac: the node id
--     and the MAC address; Lan865x/Net: opening and closing, lan865x_multicast_work_handler,
--     lan865x_set_mac_address, the time stamp configuration and lan865x_send_packet, with
--     is_gptp_packet of lan865x_ptp.c; Lan865x/Chardev: lan865x_ioctl; Lan865x/Probe: lan865x_probe,
--     lan865x_remove and ptp_device_init, with the kernel's answers as a parameter (Board) and what
--     is held as the state (Bound). All but two are in microchip/lan865x/lan865x.c.
--   Lan865x/Clock: lan865x_get_sys_clock to lan865x_sub_sys_clock, and Lan865x/Packets:
--     lan865x_read_tx_timestamp to lan865x_get_tx_drop_packets, of microchip/lan865x/
--     lan865x_arch.c.
--   Lan865x/Ptp: the clock calls lan865x_ptp_adjfine to lan865x_ptp_settime64 and the thread
--     lan865x_ptp_thread_handler of microchip/lan865x/lan865x_ptp.c. The spin lock is a flag, so that
--     a call that returns with the lock held can be told.
--   Arp: mac_to_int64 to check_arp_packet and fill_my_mac_address of examples/arp/arp.c; Arp/Roles:
--     do_as_coordinator, do_as_follower and main, with the functions of include/10baset1s as a
--     parameter (SpiCalls).
--   IoctlTool: do_ioctl of examples/ioctl/ioctl.c; IoctlTool/Main: read_register to main;
--     IoctlTool/Tables: the enumerations and tables of examples/ioctl/ioctl.h.
--   UdpCheck: examples/udp-integrity-check/udp-integrity-check.c, with the sockets and rand as a
--     parameter (Net).
--   Tests: inputs, a device that answers as the protocol asks, and the theorems at them.
-- A definition has the name of its function without the prefix oa_tc6_ or lan865x_. A loop body
-- and the arms of a long function are definitions of their own.
--
-- Bounds. Buffers are lists of bytes with their length; a read or write outside is the outcome
-- fault. Every number that C keeps in a fixed width is cut to it where the code does so. The
-- statistics counters of the network device are unbounded. Loops recurse on their number of rounds;
-- oa_tc6_try_spi_transfer and the two threads have no bound in C, so the number of rounds is an
-- argument, and the result of the first says whether the loop was left by then; the retry loops of
-- the ARP tool are bounded in the same way. The poll of STATUS0 makes as many
-- reads as its argument says, those that fit its timeout.
--
-- Not modelled. The mutexes (each critical section is one step, and so is oa_tc6_start_xmit, whose
-- calls the network stack makes one at a time), the wait queue but for its condition, the driver
-- registration, lan865x_ethtool_get_ts_info (constants), debug prints, and the kernel itself. Of
-- the tools, the printed text, the set-up of the socket addresses, and the functions of
-- include/10baset1s, which the repository only declares; sscanf in main of the ARP tool is taken to
-- fill in the address it is meant to. The host is little-endian. The macro FRAME_TIMESTAMP_ENABLE
-- is defined, as src/linux/include/linux/oa_tc6.h has it.
pub mod Arp
pub mod IoctlTool
pub mod Lan865x
pub mod Prelude
pub mod Tc6
pub mod Tests
pub mod UdpCheck
pub mod Word
