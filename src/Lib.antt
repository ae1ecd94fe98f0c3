-- ===== src/Lib.antt =====
-- wetnork: a tunnel that carries the packets of a TUN device over DTLS. A device and a link are
-- `Stream`s of `Packet`s; a `CryptoSession` is a stream that runs GnuTLS over the stream below; a
-- `Tunnel` owns a session and a device, and sends the device's packets over its data channel. The
-- `host` part makes TUN devices, and `ipc` serializes values, IP addresses among them.
--
-- The parts, the files here that model them, and the code that these stand for:
--
-- Packet, Packet/View: include/Packet.hpp, common/Packet.cpp. A packet is a window of a block of
-- bytes, `buffer`, with its deleter. Packet/Owners: the counts of the owners of blocks, as a heap
-- on which packets are made, copied and destroyed; Counts compares them with the allocated blocks,
-- Sites has the calls in net/CryptoSession.cpp that make packets.
-- Stream, Stream/Gather, Memory: the gathering `write` of include/network.hpp. `none` is an access
-- outside a block. `size_t` wraps at 2^64 (`u64`), and an `int` that keeps one at 2^32
-- (`through_int`).
-- Exceptions: include/exception.hpp and the exceptions thrown, with `what` over the texts of the
-- system and of GnuTLS, and the accessors. An outcome is a value, an exception,
-- a fault (undefined behaviour), or `unfinished` where a model ran out of fuel.
-- Tunnel/Header: the headers of net/Tunnel.ReliableChannel.cpp and
-- net/Tunnel.UnreliableChannel.cpp.
-- Tunnel/Reliable: `ReliableChannel`, one function per method, each of which returns the channel
-- and the list of its calls to the outside. Tunnel/Reliable/Replies has the branches of
-- `readPacket`, Tunnel/Reliable/Timer one channel in its event loop, over a stream below whose
-- writes may throw, Tunnel/Reliable/Slots one whose slots write to it, or throw (Slots/Throwing),
-- while it reads, Tunnel/Reliable/Nested one whose slots have it read packets too, in which they
-- are called again, to a depth (past it they are `unfinished`), and Tunnel/Reliable/Nested/Order
-- the numbers that it passes on, Tunnel/Reliable/Wrap the end of the 32-bit numbers, with writes
-- that may throw.
-- Tunnel/Protocol: two such channels and a network that loses, repeats and reorders, as a step
-- relation on `System` with the states that can be reached (`Reach`); Invariant and Arrivals hold
-- the invariant, Safety what follows. Queue is what both come to for their users. There the timer
-- may fire at any time, though in the source it never starts: the schedules of the program are
-- some of those, so the properties are of safety only.
-- Tunnel/Data: net/Tunnel.cpp and `UnreliableChannel`: the data path. Tunnel/Owner: the tunnel
-- over the session that it owns, its constructor and its destructor.
-- Crypto/Library: GnuTLS and the stream below, as a parameter of all of Crypto. A call into GnuTLS
-- is a tree of calls of the transport functions, so it may call them in any order, any finite
-- number of times, with any arguments.
-- Crypto/Session, Crypto/Handlers, Crypto/Calls: net/CryptoSession.cpp, as functions on a session
-- that return it with an outcome. Crypto/States, Lifecycle and Histories are about its states,
-- Crypto/Opening about the end of a handshake, Crypto/Termination about the fuel of
-- `handle_handshake` and `handle_data`, which call each other: one unit for each call is taken, so
-- more fuel is enough exactly if GnuTLS does not make them call each other that often.
-- That the block of received data is freed twice when `handleData` ends is kept out of these, and
-- shown in Packet/Owners/Sites.
-- Crypto/Slots: the handlers of a session whose slots call it back. There the slots of a signal
-- are one more method of the session; Crypto/Slots/Calls has slots of `read`, Crypto/Slots/Hangup
-- one of `stateChanged`, Crypto/Slots/Nested slots that make calls of the session, in which they
-- are called again, to a depth, past which the calls are `unfinished`. Reentry is about such slots
-- of `read`, Keeps and Announced about such slots of both signals. Crypto/Samples is a library for
-- the tests.
-- Crypto/Keys: include/crypto.hpp, common/KeyFingerprint.cpp. Crypto/Peers: the permissible peers
-- and the verify function of net/CryptoContext.cpp, with what GnuTLS says of the certificate, and
-- the session pointer, which is null in the source, as arguments;
-- Crypto/Context: its constructor, destructor and `openSession`, and the move constructor and
-- destructor of a session, by what they allocate and release; to release a session twice is a
-- fault.
-- Signals: what the program uses of the signals that include/signal.hpp takes from a library, as
-- an interface with laws. Connections: the functions that connect slots to the signals of streams,
-- sessions, links, sockets and channels. Crypto/Wiring: which session objects are connected to the
-- stream below, and which of them are called where the slots may throw.
-- Ipc: include/ipc. A value that is copied bit by bit is its bytes. Ipc/RoundTrip is about the
-- serializer, Ipc/Reading about what a deserializer makes of its archives, Ipc/Offsets about the
-- offset from which it begins. Ipc/Types: include/ipc/is_serializable.hpp.
-- Address: include/IPAddress.hpp, common/IPAddress.cpp, with `inet_pton` a parameter.
-- Address/Classes has addresses up to `==`, Address/Native the types of the native addresses,
-- Address/Text `str`, with `inet_ntop` a parameter. Address/Socket: include/SocketAddress.hpp,
-- common/SocketAddress.cpp.
-- Dictionary: what the program asks of a `std::map`, as an interface with laws about maps of one
-- key at most; Dictionary/Assoc fills it. For more keys a map needs a strict weak order, which
-- `operator<` of include/SocketAddress.hpp is not.
-- Tun: net/tun.hpp, net/TunDevice.cpp, a device as a stream.
-- Udp: net/UdpSocket.cpp, a socket with its links, over a `Dictionary` and the open descriptors.
-- The destructor of a link that is erased calls `erase` for the same entry again, a fault.
-- Udp/Arrivals has what reaches a link, Udp/Connections what `create` and `connect` do,
-- Udp/Sending what a link that `connect` made can do. Udp/Samples has sockets that the tests
-- share.
-- Link: net/Link.cpp, net/UdpLink.cpp. The write makes one call of `sendto` for each answer of the
-- kernel that it is given; that it asks for one more than there are is `unfinished`.
-- Host: include/host/TunDevice.hpp, host/TunDevice.cpp, host/TunRegistry.hpp,
-- host/TunRegistry.cpp, with the kernel's answers as arguments and the open descriptors as a list.
-- Host/Admin: host/TunAdminContext.cpp, with libnl's answers as arguments, by the objects that are
-- allocated and the changes that were asked for. Host/Admin/Handles has the objects of `RtnlLink`,
-- which may be moved, Host/Admin/Handles/Owned who releases the links. Host/Registry/Ownership is
-- about descriptors, Host/Registry/View about the registry as a map from names to devices, its
-- specification.
-- Program: wetnork.cpp, the part of `main` that runs. Base has what these share; the modules named
-- Examples have the tests.
--
-- Not modelled: what stands behind the first `return` of wetnork.cpp; the event loop of libev, of
-- which only whether a watcher runs is kept; sockets with two or more peers, for which the map of
-- net/UdpSocket.cpp has no strict weak order; reading classes from an archive by
-- `ipc::deserialize`, which does not compile for those with a constructor; the owner counts of
-- blocks outside Packet/Owners; a slot that calls `Tunnel::propagate`, which nothing in the source
-- connects; exceptions that the stream below throws while GnuTLS calls it; and those of its writes
-- in Tunnel/Reliable/Slots, Tunnel/Reliable/Nested and Tunnel/Protocol.
pub mod Base
pub mod Memory
pub mod Exceptions
pub mod Packet
pub mod Program
pub mod Stream
pub mod Tunnel
pub mod Connections
pub mod Crypto
pub mod Ipc
pub mod Address
pub mod Host
pub mod Link
pub mod Tun
pub mod Udp
pub mod Dictionary
pub mod Signals
