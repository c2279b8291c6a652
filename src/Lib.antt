-- ===== src/Lib.antt =====
-- MultiThreaded-Socket: a reliable, ordered transport over UDP, and a remote file system on it. This
-- library models the transport, in SimpleNetworkProtocol/SimpleNetworkProtocolLib, with the packet
-- and list classes that it stands on, in SimpleNetworkProtocol/Packet and
-- SimpleNetworkProtocol/LockedList, and of SimpleNetworkProtocol/FileSystem the cache of a file's
-- contents and the tree of files as it is sent.
--
-- How the parts interact. A receiving thread hands each valid datagram to its connection, whose state
-- object (SendingSyn, WaitingSyn, WaitingSynAck, SendingSynAck, Data) handles it: data goes into the
-- receive queue, acknowledgements into the in-flight queue. A sending thread runs each connection in
-- turn: the state object queues handshake packets, acknowledgements, timed-out packets and the user's
-- data in the send queue; the speed controller says how many of them may go; what was sent goes into
-- the in-flight queue as one sample, and comes back to the user's free packets when acknowledged, or to
-- the send queue when its time is up. The threads share lists under locks. The context owns the
-- connections: a datagram goes to the connection of its destination, a Syn to nobody makes one.
-- A leaf of the file tree keeps what has come of its file in blocks of ranges, the packets that
-- brought the bytes; readers pin the ranges that they point into, and eviction passes those over.
-- A read of a file is a job: it answers from the cache, or from the disk, or asks for the block and waits
-- in the leaf until the job that applies the block wakes it and evicts what is over the bound.
--
-- The files. State is passed explicitly: an operation returns the new state behind its result.
--   Common: Boolean tests and lists over native numbers; Common/Results: the exceptions, as values.
--   Packet: Packet.cpp, a buffer of bytes. Packet/Header: include/HeaderBuffer.hpp; Packet/Types:
--     HeaderTypes.hpp and the addresses of ConnectionAddr.hpp; Packet/Bytes: integers in a buffer;
--     Packet/Fields, Packet/Contents: what is written is read back.
--   MultiList: MultiList.hpp, a list of chunks, with its iterators; MultiList/Laws: the list it stands
--     for. LockedList: LockedList.hpp, one step for each method.
--   RecvQueue: RecvQueue.cpp; RecvQueue/Invariant: where a packet lies; RecvQueue/Order: sequences of
--     calls.
--   SendQueue: SendQueue.cpp and OutgoingPacket.cpp; SendQueue/Heap, SendQueue/Numbers.
--   Stats: SampleStats.cpp, TimeRangedStats.cpp, SpeedController.cpp, ConnectionContext.cpp.
--   Sample: Sample.cpp; InFlightQueue: InFlightQueue.cpp; which packets they hold in Sample/Held and
--     InFlightQueue/Conservation, InFlightQueue/Sorting.
--   Connection: Connection.cpp and Statistics.cpp; Connection/Packets: RecvPacket;
--     Connection/Reading: Recv with a size.
--   ConnectionState: IConnectionState.cpp, with Connection::OnRecvPackets and Connection::Run;
--     ConnectionState/Frame: what sending leaves alone; Machine and Running: the moves of the states;
--     Acks: the loop of acknowledgements; Delivery: any interleaving of calls; Roles: client, server.
--   MessageWriter, MessageReader: MessageWriter.cpp and MessageReader.cpp, over the payloads of a list of
--     packets; MessageReader/RoundTrip within a packet, MessageReader/Crossing over its end.
--   ConnectionReader, ConnectionWriter: ConnectionReader.cpp and ConnectionWriter.cpp, the bytes over a
--     connection; ConnectionReader/Ends: the loop of `read`; ConnectionWriter/Rounds and
--     Stream: the loop of `write`.
--   Protocol: FastTransportProtocol.cpp, the context; Protocol/Invariant: its map of connections;
--     Routing: OnReceive; Opening: Accept and Connect; Removal and Sweep: closed connections; Sending: the loops
--     of the sending thread and the way back of sent packets.
--   FileSystem/Range: FileCache/Range.cpp; FileSystem/Leaf: Leaf.cpp and PiecesStatus.cpp, with its data
--     in Leaf/Data (AddData, ExtractBlock, GetFirstBlockIndex) and Leaf/Reading (GetData). Leaf/Agreement:
--     a cache that holds a file; Leaf/AddData, Leaf/GetData and Spans, Leaf/Eviction, Leaf/Jobs: the theorems;
--     Leaf/Bytes: the byte at an offset; Leaf/Pins: what stays pinned; Leaf/Pinning, Leaf/Counts: what
--     GetData leaves alone, and how many packets a leaf holds.
--   FileSystem/FileTree: FileTree.cpp, the shards that count the cached packets; FileTree/Shards,
--     FileTree/Accounting, FileTree/Operations: the counts and what keeps them; FileTree/Steps: sequences
--     of calls.
--   Jobs: the jobs of SimpleNetworkProtocol/Protocol/src/FileSystem/FileCache; Jobs/FuseRead:
--     FuseReadFileJob.cpp; Jobs/ApplyBlock: ApplyBlockCacheJob.cpp. Jobs/Answers, Jobs/Waking, Jobs/Woken,
--     Jobs/Waiting: where a request goes; Jobs/Contents: what is answered; Jobs/Spinning: a read that is
--     put off; Jobs/Eviction: the eviction loop.
--   FileSystem/FileCache: FileCache/FileCache.cpp, the open files; FileCache/Bounds, FileCache/Recency.
--   FileSystem/Tree: LeafSerializer.hpp, ByteStream.hpp and the children of a leaf; Tree/RoundTrip.
--   Tests: the theorems at concrete inputs.
--
-- Conventions and bounds. Addresses that are compared are of AF_INET where two of them have the same family:
-- for others the comparison throws, which is left out. Numbers are natural numbers, cut with `%` where the source's integers wrap;
-- counters of packets and times (nanoseconds) are taken not to overflow. The loop of
-- RecvQueue::ProccessUnorderedPackets runs on fuel of one more than the 250000 slots, and is shown to
-- end within it, or to fail its assertion on the counter; the loop of acknowledgements in DataState::SendPackets runs on the number of
-- acknowledgements, of which each round takes one at least; the loops of MessageWriter::write and
-- MessageReader::read run on the bytes and the packets, of which a round takes one; ConnectionWriter::write on
-- the bytes, when no packet is empty, and that of ConnectionReader::read on the bytes, when it ends at all; a loop over
-- iterators on one more than the size of the list; the loop of Leaf::GetData runs on the bytes left to
-- read, of which each round reads one at least or ends the loop; the eviction loop of
-- ApplyBlockCacheJob on the packets that are counted, of which each round evicts one at least; LeafSerializer::Deserialize runs on
-- the number of bytes, which is enough for every tree that they can hold. All other loops are recursion on a list. From
-- Connection on, a MultiList is the list that it stands for.
--
-- Not modelled: sockets, threads and waiting (a method that waits has the answer of its wait as an
-- argument), allocation, logging, the construction of addresses from text; and so far the speed states
-- that no transition reaches, the thread of ConnectionWriter and its PacketReader, the file tree's index, the
-- release of pins, and the other jobs of the file system.
pub mod Common
pub mod Packet
pub mod MultiList
pub mod RecvQueue
pub mod LockedList
pub mod SendQueue
pub mod Stats
pub mod Sample
pub mod InFlightQueue
pub mod Connection
pub mod FileSystem
pub mod ConnectionState
pub mod Protocol
pub mod Jobs
pub mod MessageWriter
pub mod MessageReader
pub mod ConnectionReader
pub mod ConnectionWriter
pub mod Tests
