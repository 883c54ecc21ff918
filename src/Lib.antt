-- ===== src/Lib.antt =====
-- The Cubesat Space Protocol library, libcsp: packets and the buffers they live in, their headers and
-- checksums, the framing on a serial line, fragments, the tables of routes, interfaces, ports and
-- connections, and the queues that packets wait in.
--
-- How the program works: a packet (`csp_packet_t`) is a buffer with room for a header in front of
-- its data. To send it, the header of its identifier is prepended (src/csp_id.c), an interface adds
-- a checksum (src/csp_crc32.c) and frames the bytes for its medium (src/interfaces/csp_if_kiss.c).
-- The receiver undoes these steps and hands the packet on through a queue
-- (src/arch/posix/pthread_queue.c) to the router, which looks up the next hop in the routing table
-- (src/csp_rtable_cidr.c) and among the interfaces (src/csp_iflist.c), or finds the connection
-- (src/csp_conn.c) or the port (src/csp_port.c) that the packet is for. All of them get packets from
-- one pool (src/csp_buffer.c) and give them back to it.
--
-- Which file models which part, each with child modules named for what they prove:
--   Core     the helpers: tests on numbers, lists, memory as a list of bytes, bitwise operations
--            and masks, words in both byte orders, integers
--   Packet   include/csp/csp_types.h, csp_interface.h, csp_error.h: the packet, the identifier,
--            the interface, error codes. `mem` is the header's 8 bytes and the data's 256 as one
--            list, and a pointer into it (`frame_begin`) an index
--   Id       src/csp_id.c: `csp_id_prepend` is `prepend`, `csp_id_strip` is `strip`, and so on; the
--            version in `csp_conf.version` is the first argument
--   Crc      src/csp_crc32.c: `csp_crc32_memory`, `csp_crc32_append`, `csp_crc32_verify`
--   Kiss     src/interfaces/csp_if_kiss.c: `csp_kiss_tx` as the bytes it transmits, `csp_kiss_rx` as
--            a state machine over the bytes received
--   Rtable   src/csp_rtable_cidr.c: the used part of the table is a list
--   Queue    src/arch/posix/pthread_queue.c: the circular buffer; Queue/Fifo is the abstract queue
--            that clients rely on
--   Iflist   src/csp_iflist.c: the list of interfaces, its look-ups, adding and removing
--   Buffer   src/csp_buffer.c: the pool of packet buffers and the references to them
--   Port     src/csp_port.c: the table of listeners
--   Conn     src/csp_conn.c, src/csp_conn.h: the pool of connections
--   Sfp      src/csp_sfp.c: fragments of a message and how they are put together
--   Dedup    src/csp_dedup.c: the ring of checksums that finds duplicates
--   RdpQueue src/csp_rdp_queue.c: the packets that wait for an RDP connection
--   Rdp      src/csp_rdp.c: numbers that wrap around and the header; Control the messages without
--            data, Close the closing (with `csp_conn_close`), Receive the delivery in order, Machine
--            `csp_rdp_new_packet` with a function for each case of its switch, Link what user space and
--            the router call. All work on a World: one connection with what it shares with the others
--   Io       src/csp_io.c and src/csp_promisc.c: Direct is `csp_send_direct`, Calls what applications call.
--            A Node has the interfaces, the buffers and the packets given to interfaces, in order
--   Route    src/csp_route.c and src/csp_qfifo.c: Security is `csp_route_security_check`, Work is
--            `csp_route_work`, on a Router: a Node with the tables that packets are delivered by.
--            Bridge is src/csp_bridge.c
--   Sha1     src/crypto/csp_sha1.c, and Hmac src/crypto/csp_hmac.c: the code that authenticates a packet
--   Samples  data for the tests
--
-- Sizes are those of the default build (CMakeLists.txt): data of 256 bytes, 15 buffers, 8
-- connections, 16 ports to bind, 10 routes. Machine words wrap around where the source's types do
-- (`% 2 ^ w`). Loops are structural recursion on the bytes, the table or a counter of the source. Some
-- loops have fuel: the search of the ring of duplicates has a round for each of its 16 entries,
-- sending in fragments and SHA-1 have one for each byte, asking for the next interface has one more
-- than there are interfaces, and the flush of RDP's queue one more than the queue has packets; none
-- of them can go round more often. The packets that a function hands to another part, or
-- frees, are lists in its result, in order; what a part gets from another (a buffer, the time, the
-- packets of a connection) is an argument.
--
-- Sending and routing take `csp_hmac_append` and `csp_hmac_verify` as arguments, which have the key.
--
-- Not modelled: the transmit functions of the interfaces other than KISS, and `rand_r`, which are
-- parameters of sending and routing; the reassembly of packets from CAN, Ethernet and I2C;
-- transactions and the services' handlers, which are calls of what is modelled; and drivers, sockets,
-- locks and time-outs of the operating system, printing, the Python bindings and the parsing of
-- configuration files. The clock stands still during a call. What RDP hands to `csp_send_direct` is a
-- list, and is not followed through the interfaces.
pub mod Core
pub mod Packet
pub mod Samples
pub mod Id
pub mod Crc
pub mod Kiss
pub mod Rtable
pub mod Queue
pub mod Buffer
pub mod Conn
pub mod Dedup
pub mod Hmac
pub mod Iflist
pub mod Io
pub mod Port
pub mod Rdp
pub mod RdpQueue
pub mod Route
pub mod Sfp
pub mod Sha1
