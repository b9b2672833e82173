-- ===== src/Lib.antt =====
-- The Jerry driver: a C++ client of the MSR4 satellite receiver. The receiver streams packets of
-- the HRZR protocol, 8 bytes of header and 366 complex samples of two 16-bit integers; the client
-- configures it over gRPC, receives the packets over a kernel socket (UdpSource) or over DPDK
-- (DpdkSource), and can send packets itself (HrzrUdpTransmitter).
--
-- The program's parts and the files that model them (paths from the repository's root):
-- * include/iqClient/common/definitions.h and exceptions.h: Definitions; the exceptions are the
--   errors of Common/Results, next to `exit`, undefined behaviour and waiting for ever.
-- * HrzrHeaderParser (src/dpdkSource/hrzrHeaderParser.cc): Header, against the wire format in
--   Header/Wire. HrzrMetadataParser (src/dpdkSource/hrzrMetadataParser.cc): Metadata, Metadata/Wire.
-- * HrzrParser (src/dpdkSource/hrzrParser.cc): Parser, with the loop over the samples of a packet in
--   Parser/Loop. The caller's array is a list; an access outside it is the error `undefined`.
-- * UdpSource (src/udpSource/udpSource.cc): Udp. `getSamples` is a loop over what `recv` delivers,
--   one packet in Udp/Receive, the loop in Udp/Loop, where the samples begin in Udp/Offset.
-- * HrzrUdpTransmitter (src/udpTransmitter/hrzrUdpTransmitter.cc): Transmitter; the datagram in
--   Transmitter/Datagram, consecutive packets in Transmitter/Sequence, what the parsers of this
--   library read in them in Transmitter/Readback.
-- * DpdkSource (src/dpdkSource/dpdkSource.cc): Dpdk has its data; Dpdk/Rx the thread `RXThread`,
--   with its counters in Rx/Accounting, where the packets go in Rx/Forwarding and its end in
--   Rx/Shutdown. Dpdk/Threads has all receiving threads interleaved, at their accesses of the shared
--   object: one thread alone in Threads/Sequential, the shared counters in Threads/Counters, what a
--   thread does to its stream in Threads/Handing, against the others in Threads/Streams, the end in
--   Threads/Drain. Dpdk/Samples has `getSamples`. Dpdk/Setup has the constructor with the functions
--   that it calls, and the destructor: the loops in Setup/Loops, a round of each in Setup/Rounds and
--   Setup/Port, the order of all calls in Setup/Order, a run that succeeds in Setup/Success and a
--   failure in Setup/Failure. Dpdk/Dump has `dumpThread`: the lines in Dump/Lines, the queues in
--   Dump/Pushed, a burst in Dump/File, the whole run in Dump/Loop, a reader of the file in
--   Dump/Readback, what is lost in Dump/Lost.
-- * GrpcClient (src/grpcClient/grpcClient.cc): Grpc, with the messages of proto/ in Messages.
-- * JsonParser (include/iqClient/common/jsonParser.h): Json.
-- * IqClient (src/iqClient/iqClient.cc): Iq has its setters and getters, Iq/Configure the parts of
--   SetMSR4ByJson. Iq/Store says what a store of settings is, Iq/Settings compares the setters and
--   getters with it, Iq/Applied the whole of SetMSR4ByJson behind the login;
--   Iq/Payload has SendPayload. Iq/Sources has the plain members and the sample source, a pointer
--   into a heap: sequences of its calls in Sources/Calls, when the pointer may be followed in
--   Sources/Lifetime, the address of the kernel's sockets in Sources/Exclusive.
-- * The repository's tests (gtest/): Gtest, with the reader of their files
--   (include/iqClient/common/hrzrTestBinaryHelper.h) in Gtest/Binary; the tests of the parsers in
--   Gtest/HeaderTest, Gtest/MetadataTest, Gtest/ParserTest and Gtest/NormTest, which reads text files
--   by Gtest/Text; those of the client in Gtest/ClientTest: its children have the settings
--   (Streaming, Channel), SetMSR4ByJson (Taken, Json) and SendPayload (Payload).
-- Each Examples module has the witnesses and tests of its parent, at the parameters of Testing
-- and Iq/Testing.
--
-- How state and operations correspond: an object is a record with the fields of its class, a method
-- is a function from the object (and the caller's array) to the new ones in a Result; the name is
-- the source's in snake case (`parsePayloadSamples` is `parse_payload_samples`). Bytes and words are
-- natural numbers with the casts written out; an `int` that may be negative is an integer.
-- A method that changes its object even where it throws or exits is a Run (Common/Run), a state
-- monad with errors: the methods of IqClient and the constructor of DpdkSource, which keeps its
-- calls of DPDK in a log.
-- Dpdk/Rx and Dpdk/Dump run a thread by itself, on the sequence of what happens to it: the bursts
-- that arrive and the moment when another thread sets `quit`. In Dpdk/Threads a step relation runs
-- all receiving threads: an increment of a shared counter is a load and a later store, and any other
-- thread may step between them. Memory is that of a little-endian host.
--
-- Bounds and fuel: the loops are recursions on the rounds that are left (366 samples, the packets
-- to receive) or on the list of packets, so no fuel can run out. An index of the caller's array and
-- a number of received samples are `int`: where one does not fit, the call is undefined, as it is
-- where a `float` that is converted to `int16_t` does not fit. A thread that no one tells to quit
-- polls for ever: it ends in the error `blocked`, as does a `recv` for which nothing arrives.
--
-- Parameters: the floats (Floats), the answers of the socket calls (Udp.Sockets, and
-- Iq.Sources.Network where `bind` depends on the addresses in use), `inet_pton`, the rings of DPDK
-- by their operations and documented behaviour (Dpdk.RingOps), the card as the bursts that it
-- returns, what DPDK's set-up calls answer (Dpdk.Setup.DpdkOps), the seconds on the clock at each
-- packet of a dump, what unwritten memory holds, `double` (Messages.DoubleOps), jsoncpp and the
-- files (Json.JsonOps), and the receiver behind gRPC (Grpc.Receiver; Iq.Store.Store where it is
-- reliable); for the tests, equality of `float` and `double`, and `std::stof`.
--
-- Not modelled: the dump thread and the client beside the receiving threads of a source; in
-- Dpdk/Threads the lines that are printed, and orders of accesses that only a weak memory shows; the
-- texts that are printed, but for the lines on lost packets; of the tests of the client those that
-- receive from the card; the generated code of gRPC.
pub mod Common
pub mod Definitions
pub mod Header
pub mod Metadata
pub mod Floats
pub mod Parser
pub mod Udp
pub mod Gtest
pub mod Net
pub mod Transmitter
pub mod Dpdk
pub mod Messages
pub mod Grpc
pub mod Json
pub mod Iq
mod Testing
