-- ===== src/Lib.antt =====
-- The wire protocol and the connections of turnserver.
--
-- The program is an edge server in C++. Its parts talk to load balancers (ELBS, the unified LBS)
-- in packets: a body behind its own length, which takes two bytes, or three from 0x8000 on. A body
-- opens with a server type and a uri, then come the members of the packet's struct.
--
--   Base, Base/...       shared names, Boolean tests, lists on the native numbers, little-endian
--                        bytes.
--   Wire/Packer          turnserver/base/packer.h: class Packer. `none` for a byte stands for what
--                        malloc left there; a store outside of the buffer is a fault (`none`).
--   Wire/Packer/...      Written: a packer that holds a list of bytes, and the growth of its
--                        buffer. Pushes: what each Push function appends. Frame: Pack.
--   Wire/Unpacker        turnserver/base/unpacker.h and unpacker.cpp: class Unpacker. CheckSize
--                        only counts a warning, as the source only prints one; a read outside of
--                        the memory is a fault.
--   Wire/Unpacker/Reads  what each Pop function reads.
--   Wire/Codec           the interface of the two sides: operator<< and operator>> of a type, the
--                        bytes in between, and the laws. Numbers, strings, buffers and pairs.
--   Wire/Signed          the signed integers, by way of the unsigned ones.
--   Wire/Containers      vectors, lists and maps: a count and the elements. Sets, in Wire/Sets;
--                        unordered maps and sets and arrays, in Wire/Unordered. Where an unordered
--                        map puts a new entry is an interface.
--   Wire/Transfer        a value through a fresh Packer and a fresh Unpacker.
--   Order, Order/...     the interface of operator== and operator< with the laws of a map's key:
--                        numbers, sequences (std::string, vectors), and members one after another.
--   Structs/One to Nine  turnserver/base/declare_struct.h: the macros that declare a struct with its
--                        comparisons and its two sides of the wire.
--   Address/Host         what the address types take from the system: the byte order and the
--                        system's addresses.
--   Address/Ipv4, Ipv6, Local, General
--                        turnserver/network/address_types.h, address_types.inl and
--                        address_types.cpp: SocketAddress4 and NewSockAddress4; SocketAddress6
--                        and, in Global, Ipv6::IsGlobal; SocketAddressUnix; GeneralSocketAddress.
--   Address/General/...  Order: comparisons. Hash: GetHash. Wire: SerializeTo and SerializeFrom.
--                        Storage: to the system and back.
--   Address/Declared     structs of addresses, also those of turnserver/network/address_utility.h.
--   Channel              turnserver/base/channel_type.h and channel_type.cpp: ChannelType.
--   Timer                turnserver/base/timer.h and timer.cpp: RepeatedTimer and OneShotTimer over
--                        numbered events and callbacks.
--   Timer/Invariant, Safe
--                        what the timers keep alive, under each operation and in any order.
--   Timer/Replace        turnserver/network/tcp_client.cpp: SetPingInterval, a timer that replaces
--                        another.
--   Memory/Slice         turnserver/memory/mem_buf.h, mem_slice.h and mem_slice.cpp: shared buffers
--                        with a reference count on a heap, and windows on them.
--   Memory/Slice/...     Counts: the reference counts. Window: the bounds of a window.
--   Memory/Span          turnserver/memory/mem_slice_span.h and mem_slice_span.cpp: up to four
--                        slices.
--   Memory/Span/...      Blocks: the blocks and the size of a span. Bytes: the bytes of a span.
--                        Adjust: AdjustBeginPointer. Copies: the constructors and assignments.
--                        Clones: the clones of buffers, slices and spans. Counted, Loops, Becomes
--                        and Safe: the reference counts under each operation, and in any order.
--   Memory/Proxy         turnserver/memory/mem_proxy.h: MemProxy. Layers and Copied: what Layer
--                        points to, in the span as it is and after it was copied.
--   Memory/Taken         turnserver/base/packer.h: Packer::TakeBuffer.
--   Packet/Head          turnserver/base/packet.h: class Packet.
--   Packet/Zero to Fourteen
--                        turnserver/base/packet_helper.h: the macros NEW_DECLARE_PACKET_0 to _14.
--                        Each is a codec, made of the codecs of its members.
--   Packet/Lbs, Elbs     the packets of turnserver/protocol/uni_lbs_protocol.h and of
--                        turnserver/new_elbs/new_elbs_protocol.h.
--   Net/Connection       turnserver/network/tcp_connection.cpp: the read loop of TcpConnection.
--                        libevent's input buffer and the callback are parameters.
--   Net/Connection/...   Framing: the length and head of a packet as the loop reads them. Delivery
--                        and Stream: streams of packets. Limits: the other streams. Peers:
--                        SendPacket on one side, OnDataReady on the other. Sending: what a
--                        connection asks of its bufferevent besides reading.
--   Net/Client           turnserver/network/tcp_client.cpp: TcpClient. The clock's, the system's
--                        and libevent's answers are arguments of the handlers.
--   Net/Client/...       Phases: what a client owns in each phase. Events: what calls a client, in
--                        every order. Retry: tries after an error, and the timeout.
--   Net/Server           turnserver/network/tcp_server.h and tcp_server.cpp: TcpServer. Life: from
--                        its constructor to its destructor.
--   Lbs/Connection       turnserver/lbs/uni_lbs_connection.cpp: UniLbsConnection, over Net/Client.
--                        What its callback answers is an argument.
--   Lbs/Connection/...   Told: the replies to a join, and what the callback is told of them. Speaks
--                        and Joined: when a connection may speak as joined. Stale: a join that
--                        outlives its connection. Ping: the ping as the LBS reads it.
--   Lbs/Client           turnserver/lbs/uni_lbs_client.cpp: UniLbsClient, with Maps for its maps,
--                        and Rounds and Reload for the reload of the addresses. Visitor: what it
--                        passes on, also turnserver/lbs/uni_lbs_client_interface.cpp.
--   Server/Socket        turnserver/turnserver_main.cc: WorkerTCPSocket::Send. The out-buffer of
--                        rtc's AsyncTCPSocketBase is an interface. Framed: whole packets.
--   Server/Thread        the interface of rtc::Thread's delayed messages.
--   Server/Elbs          turnserver/turnserver_main.cc: ElbsConnection, over Server/Thread. What
--                        sockets, clock and resolver answer during an event is an argument.
--   Server/Elbs/...      Report: the report packets. Quiet: the operations that begin no
--                        connection. Rate: how often an edge server is tried. Ticking: the timers.
--                        Response: the answers of the ELBS.
--   Server/Worker        turnserver/turnserver_main.cc: Worker, over Server/Thread and over cJSON
--                        as an interface.
--   Server/Worker/...    Messages: the JSON of the dialogue. Quiet: the operations that touch no
--                        timer. Ticking: the timers. Answer: a request of the manager and the
--                        answer to it.
--   Server/Joining       turnserver/turnserver_main.cc: UniLbsWorker::AddToUniLbs, over Lbs/Client.
--                        Load: the load that the worker answers.
--   Examples/...         runs on concrete packets and streams.
--
-- Numbers: bytes are numbers below 256 in lists; lengths and positions are uint32_t, and the wrap
-- is written out where a sum can reach 2 ^ 32. Times are seconds, taken to stay below 2 ^ 31,
-- and in turnserver_main.cc milliseconds; the factor of the backoff, a float, is a function. A
-- double is the number that its eight bytes make. An in6_addr is two 64-bit words. The machine is little-endian, as the source takes for granted.
--
-- Fuel: the loop of OnDataReady runs on fuel. A round takes at least six bytes out of the buffer,
-- so one unit more than there are bytes is enough, and one more than there are packets on a stream
-- of packets.
--
-- Not modelled: SendRawData, Flush and the MPTCP option of TcpClient, whose member stopped_
-- nothing reads; the texts of addresses, which only the log shows; the threads of UniLbsWorker;
-- the start-up and the log files of turnserver_main.cc. rtc's sockets and threads and Thrift's
-- serialisation are not in the repository or are copies, and are parameters, as are htonl and its
-- like, std::hash, CityHash64 and evconnlistener_free. Logging, the event loop and the
-- declarations of sockets without an implementation have no behaviour of their own; thrift, cJSON,
-- event2, gflags and glog are copies of other libraries.
pub mod Base
pub mod Order
pub mod Wire
pub mod Memory
pub mod Structs
pub mod Address
pub mod Channel
pub mod Timer
pub mod Packet
pub mod Net
pub mod Lbs
pub mod Server
mod Examples
