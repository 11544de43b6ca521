-- ===== src/Lib.antt =====
-- The diagnostics router of Qualcomm devices (router/), as a model of its core.
--
-- The router stands between diagnostic monitors, which are tools on a serial line, USB or a socket,
-- and the peripherals of the system, which are processors with a control, a command and a data
-- channel. A monitor's bytes go through a ring and a decoder and become commands; a command is
-- looked up in three tables and either handled here or forwarded; a handler changes the log, message
-- and event masks, answers the monitor, and sends the masks on to the peripherals. A peripheral's
-- data are sent to every monitor, each in its own encoding, and its control packets register and
-- take back commands.
--
-- Files, and the code that they model:
--   Bytes       byte order, machine integers and BITS_TO_BYTES (router/util.h)
--   CircBuf     router/circ_buf.c and circ_buf.h: circ_read, the space left, and one byte taken off
--               the tail; CircBuf/Inv shows the ring as a queue
--   Hdlc        router/hdlc.c: hdlc_crc_byte, hdlc_encode, hdlc_decode_one; Hdlc/Table is crc_table,
--               Hdlc/Crc the check sequence, Hdlc/Encode the frame, Hdlc/Refine the decoder over a
--               list, Hdlc/RoundTrip frames that are decoded
--   World       struct mbuf, diag_client, peripheral and diag_cmd, and the results of handlers
--   Queue       router/mbuf.c, queue_push_flow and queue_push_nhdlc_flow of router/diag.c,
--               hdlc_enqueue_flow of router/router.c, watch_flow_inc, watch_flow_dec and
--               watch_flow_blocked of router/watch.c; Queue/Flow counts the queued buffers
--   Dm          router/dm.c: sending, encodings, recovery, and the decoders of received bytes
--   Masks       router/masks.c and masks.h: Masks/Log, Masks/Msg and Masks/Event, each with its Laws
--   System      the state that the handlers share, and dm_send on it
--   Cntl        router/diag_cntl.c: Cntl/Registry the commands of peripherals, Cntl/Recv the loop
--               over control packets and Cntl/Control its switch, Cntl/Feature the feature mask and
--               the modes, Cntl/DiagIds the identifiers of processes, Cntl/Send the mask packets and
--               the broadcasts of router/peripheral.c; Cntl/Layout the packed structures, with
--               Cntl/Layout/Sent about the packets that are pushed; Cntl/Others is about all control
--               packets
--   Cmds        router/common_cmds.c (Cmds/Log, Cmds/Msg, Cmds/Event) and router/app_cmds.c (Cmds/App)
--   Router      router/router.c: the dispatch, its error replies and the registrations, and
--               perif_rpmsg_send of router/peripheral-rpmsg.c
--   Watch       router/watch.c: Watch/Timers the timers, Watch/Aio the asynchronous reads and writes,
--               Watch/Run watch_run; Watch/Events is about the handling of an event, Watch/Fifo and
--               Watch/Drain about its write queues, Watch/Walk about list_for_each_entry_safe of
--               router/list.h
--   Daemon      the whole state, with the event loop around the handlers' state; Daemon/Client is the
--               callback of a monitor, Daemon/Register the tables that main of router/diag.c fills,
--               Daemon/Counts broadcasts one after the other, Daemon/Closed a monitor whose connection
--               ends
--   Perif       Perif/Frame the frames without HDLC, Perif/Rpmsg and Perif/Nodes the callbacks, the
--               device nodes and the peripherals of router/peripheral-rpmsg.c, Perif/Qrtr those of
--               router/peripheral-qrtr.c; Perif/Rpmsg/Stream is about the stream of a data channel
--   IntrusiveList  router/list.h: the links of a ring as a store; IntrusiveList/Refines has the ring as a
--               list
--   Cstrings    strtok and atoi of the C library, and decimal digits
--   Syscalls    the system calls of a process in their order, the kernel as a parameter, and the
--               descriptors that are open behind them
--   Opens       the calls that open descriptors: ffs_diag_init of router/usb.c with its tables
--               (Opens/Usb), and the parts of router/uart.c, socket.c and unix.c before the monitor;
--               Opens/Steps and Opens/Calls are about rows of calls
--   HexDump     to_hex and print_hex_dump of router/util.c
--   SendData    main of tools/send_data.c; SendData/Replies is about the end of its loop,
--               SendData/Unknown about a command that the router does not know
--   Transport   router/usb.c, uart.c, unix.c and socket.c; Transport/Failures is about how
--               the openings of the line and of the socket end
--   Program     main of router/diag.c, its options in Program/Getopt, and the calls that the event loop
--               makes of the router's callbacks; Program/Blank, Program/Tables and Program/Ready are about
--               the command tables that main leaves
-- Base holds what the files share: lists over the native numbers and exclusive or on bits. A file
-- named Tests holds concrete runs and applications of the theorems.
--
-- How the code is read:
--   - The allocator is a function of the size asked for, and `junk` says what unwritten memory holds;
--     both are parameters. A null pointer that is not checked, an access outside an allocated block
--     and the exit of the process are the result `none`.
--   - A block of memory is a list; a read of a packet past the end of its list gives zero.
--   - An address of a client, a peripheral or a flow context is a number; lists are in their order.
--   - read(2) is a parameter, a function of the call's number and of the room offered.
--   - Unsigned arithmetic is written with its wrap-around.
--   - circ_read has the ring's size as fuel: each round but the last stores a byte. hdlc_decode_one
--     has it too: each round takes a byte off the ring. dm_recv_hdlc has it for the messages of one
--     ring, and diag_cntl_recv has the length of the read: each packet has a header.
--   - The event loop is read one turn at a time, each with the kernel's answers: the time, which requests
--     io_submit takes, what select and io_getevents say. A walk over a list of watches has as fuel the
--     number of watches that it may visit, and the loops over reads the number of reads; a callback is a
--     number made from its kind and its object.
--   - The flow counters stand in the event loop; a handler works on a copy that is put back. The queues
--     that watches point to stand in the loop by their number, and the queues of monitors and
--     peripherals in their records; the two are not joined.
--   - Messages on standard error are left out.
--   - A function that opens descriptors is a list of calls that ends at the first failure, with the
--     closes of the label that it goes to; the kernel answers each call from the calls before it.
--     A negative result keeps its absolute value, so that -errno with an errno of 0 is seen to be 0.
--   - atoi(3) gives the low 32 bits of a number that an int cannot hold, where C says nothing; no theorem
--     is about such a number. An int that counts the offsets of a dump has no bound here.
--   - main does not look at the result of diag_masks_init: what the tables hold once they are freed is a
--     parameter.
--   - getopt(3), gethostbyname(3), isprint(3), libudev and the qrtr library are parameters.
--   - The intrusive lists of the router are lists of the model, but for the walk that is safe against
--     removal; router/list.h itself is modelled on its own.
--
-- Not modelled: container_of; the io_setup and io_destroy calls of router/watch.c; the frees of
-- router/masks.c; the close(2) calls of perif_rpmsg_close; the libudev calls around the device nodes; and messages on the terminal.
pub mod Base
pub mod Bytes
pub mod CircBuf
pub mod Hdlc
pub mod World
pub mod Queue
pub mod Dm
pub mod Masks
pub mod System
pub mod Cntl
pub mod Cmds
pub mod Router
pub mod Watch
pub mod Daemon
pub mod Perif
pub mod Cstrings
pub mod IntrusiveList
pub mod Syscalls
pub mod Opens
pub mod HexDump
pub mod SendData
pub mod Transport
pub mod Program
