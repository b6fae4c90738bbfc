-- ===== src/Lib.antt =====
-- The TCP implementation of libsponge: a byte stream, a reassembler of substrings, a receiver, a
-- sender with its retransmission timer, and a connection made of the two; its network interface
-- with ARP and its IP router; and the layers that join them to an application: buffers, file
-- descriptors, the event loop, the datagram adapters and the socket; each a class of the C++
-- library; here each is a record with one function per member function.
--
-- How the parts interact. A TCPConnection (libsponge/tcp_connection.cc) owns a TCPReceiver
-- (tcp_receiver.cc) and a TCPSender (tcp_sender.cc). A segment that arrives goes to the receiver,
-- which translates its sequence number with unwrap (wrapping_integers.cc) and pushes its payload
-- into the StreamReassembler (stream_reassembler.cc), which writes what is in order to a
-- ByteStream (byte_stream.cc); its acknowledgment number goes to the sender, which drops what is
-- acknowledged from its queue. The sender reads its own ByteStream into segments as the peer's
-- window allows and keeps a Timer; the connection takes the segments from the sender, puts the
-- receiver's acknowledgment and window into them, and queues them for its owner, who also tells
-- it of the passing of time. A NetworkInterface (network_interface.cc) wraps IPv4 datagrams in
-- Ethernet frames and asks for unknown addresses by ARP. A Router (router.cc) takes the datagrams
-- that its interfaces have received and sends each on the interface of the best route. A
-- TCPSpongeSocket (tcp_helpers/tcp_sponge_socket.cc) runs an EventLoop (util/eventloop.cc) with
-- four rules: datagrams from its adapter go to the connection, bytes of the application to the
-- outbound stream, bytes of the inbound stream to the application, and segments of the connection
-- to the adapter; between the events it calls tick. The adapter (tcp_over_ip.cc,
-- tuntap_adapter.cc, fd_adapter.cc) wraps the segments in datagrams and takes out those that are
-- for the connection; over Ethernet it uses a NetworkInterface.
--
-- Files and the code that they model (paths from the root of the repository):
-- - Prelude: shared names, Boolean tests, lists with native lengths, and the machine words.
-- - ByteStream: libsponge/byte_stream.hh and .cc. ByteStream.Pipe is the abstract pipe that it is
--   compared with.
-- - WrappingInt32: libsponge/wrapping_integers.hh and .cc.
-- - StreamReassembler: libsponge/stream_reassembler.hh and .cc; Substrings is the std::set of the
--   waiting substrings. Reassembly is about push_substring as a whole, Unassembled about
--   unassembled_bytes, Reader about a history of pushes and reads, and Beyond about what starts
--   or ends outside the window.
-- - TcpConfig: libsponge/tcp_helpers/tcp_config.hh.
-- - NetParser, NetUnparser: libsponge/util/parser.hh and .cc. InternetChecksum: the class in
--   libsponge/util/util.hh and .cc.
-- - TcpHeader, TcpSegment: libsponge/tcp_helpers/tcp_header.hh and .cc, tcp_segment.hh and .cc;
--   the data, and their forms on the wire.
-- - TcpReceiver: libsponge/tcp_receiver.hh and .cc.
-- - Timer, TcpSender: libsponge/tcp_sender.hh and .cc.
-- - TcpConnection: libsponge/tcp_connection.hh and .cc.
-- - EthernetHeader, EthernetFrame, ArpMessage: libsponge/tcp_helpers/ethernet_header.hh and .cc,
--   ethernet_frame.hh and .cc, arp_message.hh and .cc.
-- - NetworkInterface: libsponge/network_interface.hh and .cc; Sending is about send_datagram,
--   Flushing about the queue of the datagrams that wait, Replying and Receiving about recv_frame,
--   Aging about tick.
-- - Ipv4Header, Ipv4Datagram: libsponge/tcp_helpers/ipv4_header.hh and .cc, ipv4_datagram.hh and
--   .cc.
-- - Router: libsponge/router.hh and .cc; Forward is about one datagram, Queues about route.
--   Address: an IPv4 address of libsponge/util/address.cc.
-- - TcpState: libsponge/tcp_helpers/tcp_state.hh and .cc; Names is about the states, Course about
--   the ends of a connection's life, and Opening, Transitions, Segments, Acknowledged and
--   Handshake about the opening of one by two ends.
-- - Buffer, BufferList, BufferViewList: libsponge/util/buffer.hh and .cc.
-- - FileDescriptor: libsponge/util/file_descriptor.hh and .cc; Writing is about the loop of
--   write.
-- - EventLoop: libsponge/util/eventloop.hh and .cc; Keeps is about properties that the rules
--   keep, Errors about a poll that fails; Turns, Serving and Waiting compare the loop with a
--   relation.
-- - FdAdapter: libsponge/tcp_helpers/fd_adapter.hh and FdAdapterConfig of tcp_config.hh; its
--   children OverUdp (fd_adapter.cc) and Lossy (lossy_fd_adapter.hh). Adapter is the record of
--   operations by which a socket or a lossy adapter uses an adapter.
-- - TcpOverIpv4: libsponge/tcp_helpers/tcp_over_ip.hh and .cc; Filter is about what reaches the
--   connection. TunTapAdapter: tuntap_adapter.hh and .cc; EndToEnd is about two adapters on one
--   wire.
-- - TcpSpongeSocket: libsponge/tcp_helpers/tcp_sponge_socket.hh and .cc; Rules, Outbound and
--   Errors are about single rules, Delivery about the loop.
--
-- State is passed explicitly: a member function that changes its object returns the new record,
-- beside its result if it has one. Numbers are natural numbers with the wrap-around of their
-- width written out (size_t and uint64_t at 2 ^ 64, unsigned int and uint32_t at 2 ^ 32, uint16_t
-- at 2 ^ 16). A byte is a number, a string or Buffer a list of bytes, a std::queue a list with
-- its front first. front() of an empty queue, which has no defined result, is none of an Option.
--
-- What the program calls of the kernel or of a device (writev, read, poll, recvfrom, the TUN and
-- TAP devices, the random generator, the clock) is a parameter of the functions that use it. An
-- exception is none of an Option, or a constructor of its own where the state at the throw
-- matters. The other parts use lists of bytes for the buffers; Buffer and BufferList are related
-- to them by the bytes that they hold.
--
-- Loops. fill_loop (the while of fill_window) runs on fuel, one round more than the numbers that
-- may be sent, since each round but the last sends at least one; read_out (the while of
-- push_substring) on one round more than there are substrings, since each round but the last
-- removes one. fold_loop (the while of InternetChecksum::value) has fuel for one round more than
-- a 32-bit number takes. write_from (the loop of FileDescriptor::write) has fuel for one turn
-- more than there are bytes, since each turn but the last takes at least one; a write that need
-- not take all runs one turn. tcp_loop runs as many turns as it is given timestamps, and may be
-- left at any of them. The other loops are recursions on the queue that they empty.
--
-- Not modelled: the calls of the operating system behind socket.cc and tun.cc, threads, name
-- resolution, the applications, which are command lines around the library, and printing.
pub mod Prelude
pub mod Buffer
pub mod BufferList
pub mod BufferViewList
pub mod FileDescriptor
pub mod EventLoop
pub mod ByteStream
pub mod WrappingInt32
pub mod StreamReassembler
pub mod TcpConfig
pub mod TcpHeader
pub mod TcpSegment
pub mod TcpReceiver
pub mod Timer
pub mod TcpSender
pub mod TcpConnection
pub mod TcpState
pub mod NetParser
pub mod NetUnparser
pub mod InternetChecksum
pub mod EthernetHeader
pub mod ArpMessage
pub mod Address
pub mod Ipv4Header
pub mod Ipv4Datagram
pub mod EthernetFrame
pub mod NetworkInterface
pub mod Router
pub mod FdAdapter
pub mod TcpOverIpv4
pub mod TunTapAdapter
pub mod TcpSpongeSocket
