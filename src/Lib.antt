-- ===== src/Lib.antt =====
-- Nesquic, a benchmark of QUIC libraries: a client asks a server for a blob of some size on a
-- stream and measures how fast it arrives. The model follows the code at the paths named here,
-- from the root of the repository.
--
-- The parts, and how they interact:
-- * utils/src/perf.rs holds what all implementations share. A request on the wire is the size as
--   eight bytes, `Blob` reads it and yields its zeros, and `Stats` records times and byte counts.
--   Perf/Blob.antt has `Request` and `Blob`, Perf/Stats.antt has `Stats`, and Perf/Bytes.antt the
--   byte order.
-- * iut/neqo/src/server.rs is the server over neqo, a state machine driven by the events of the
--   library. Neqo/Server.antt has `StreamState` and its functions: `try_send_response`,
--   `read_request`, `handle_event` and `process_all_events`. Neqo/Listen.antt has the loop of
--   `listen` around them, and Neqo/Program/Server.antt makes of it an implementation of the
--   trait. Neqo/Transport.antt is what it uses of neqo, an interface with the documented
--   behaviour as laws, and Neqo/Memory.antt an instance in memory. The server keeps one map for
--   the streams of all connections: the steps in Neqo/Server/Responses.antt are those of clients
--   no two of which use a stream of the same number, with each stream announced once, and
--   Neqo/Server/TwoClients.antt is a run of two such clients.
-- * iut/quinn/src/server.rs and iut/quinn/src/client.rs are a client and a server over quinn, one
--   task for each stream. Quinn/Server.antt has `handle_request` and `handle_connection`,
--   Quinn/Listen.antt the server's `new` and `listen`, Quinn/Client.antt has `run`, and
--   Quinn/Connect.antt the client's `new` and `connect`. Quinn/Exchange.antt puts `run` and
--   `handle_request` at the ends of one stream, and Quinn/Program.antt makes implementations of
--   the traits. Quinn/Streams.antt is the interface of a stream, Quinn/Crates.antt that of the
--   set-up, and Quinn/Program/Memory.antt an instance in memory.
-- * iut/noq/src/client.rs and iut/noq/src/server.rs are the same program over noq:
--   Noq/Client.antt and Noq/Server.antt.
-- * iut/quiche/src/lib.rs is the application that client and server run over quiche, which the
--   library calls to read and to write. Quiche/Benchmark.antt has `Benchmark` with
--   `process_reads` and `process_writes`, and Quiche/Connection.antt the interface of a
--   connection. iut/quiche/src/client.rs is in Quiche/Client.antt and Quiche/Connect.antt; its
--   `run` waits while the library calls the application, so Quiche/Client/Session.antt has the
--   two as a relation of steps. iut/quiche/src/server.rs is in Quiche/Server.antt, and
--   Quiche/Crates.antt is what both use.
-- * iut/neqo/src/client.rs is the client over neqo. Neqo/Drive.antt has the loop `drive_until`,
--   with `recv` of iut/neqo/src/lib.rs, Neqo/Client.antt has `run` and the closures that
--   `drive_until` is given, Neqo/Connect.antt has `connect`, and Neqo/Program.antt `new` and the
--   client as an implementation of the trait. Neqo/Driver.antt is the interface of the connection
--   and the socket, and Neqo/Loopback.antt an instance in memory. Neqo/Socket.antt has the
--   binding of iut/neqo/src/lib.rs over Net.antt, the addresses and the calls on sockets, and
--   Net/Opening.antt what it shares with the binding of iut/common.
-- * iut/msquic/src is the same exchange over msquic, in C++, whose library calls the program
--   back. Msquic/Protocol.antt has protocol.h, Msquic/Common.antt the configurations of
--   common.cpp, Msquic/Server.antt the callbacks of server.cpp, and Msquic/Client.antt
--   `run_client` of client.cpp with its callbacks. Msquic/Listener.antt has `run_server`, and
--   Msquic/Program.antt main.cpp. Msquic/Library.antt is the interface of msquic.
-- * utils/src/bin.rs has the arguments of the programs and the two traits that an implementation
--   fills, which are the records of Bin.antt. iut/common/src/lib.rs runs an implementation:
--   Common.antt has the command line, `build_labels` and `get_core_id`, Common/Client.antt has
--   `run_client`, `run_server` and `run`, Common/Socket.antt has `bind_socket`, and
--   Common/Connectivity.antt the test of iut/common/src/test.rs. Labels.antt has the labels given
--   with -L, which nesquic/src/main.rs reads in the same way, and Text.antt what both use of
--   `str`.
-- * nesquic/src/metrics/mod.rs collects the measurements of a run and pushes them to InfluxDB.
--   Metrics/Collector.antt has `new` and `monitor_io`, Metrics/Volumes.antt has `process`,
--   Metrics/Lines.antt has `collect_line_protocol`, and Metrics/Push.antt has `push_all` and
--   `report`. Metrics/Tags.antt has `build_tag_str` and `escape_tag`, which make the tags of each
--   line, and Metrics/Sort.antt the sorting of strings. The programs in
--   nesquic/src/metrics/metrics.bpf.c, which record the system calls, are in Metrics/Probes.antt
--   over the helpers of the kernel, and Metrics/Pipeline.antt has them and the collector as a
--   relation of steps: a run of a program, the polling of an event, a draining for the push.
-- * nesquic/src/main.rs is the program that monitors. Monitor/Options.antt has `labels`,
--   `get_core_id` and the variables of InfluxDB, and Monitor.antt has `main`.
-- * iut/neqo/src/main.rs and its counterparts in iut/quinn, iut/noq and iut/quiche look up the
--   version of their library and call `run`: Mains.antt, with the search in Mains/Version.antt.
--
-- How the code is rendered: a byte string is a list of numbers and a size a number. `Outcome` of
-- Prelude/Outcomes.antt is what a call may do: return, return an error, panic, or be stuck for
-- lack of fuel. `Task` of Prelude/Tasks.antt adds a state of the library that stays changed after
-- an error. A map is a function into options, or the list of its entries where the order in which
-- it is iterated shows. Sums beyond usize panic where the debug profile checks them. Floats, the
-- clock, the parser and the addition of byte_unit, libbpf, the helpers of the kernel and the HTTP
-- client are parameters.
--
-- Fuel: the loop of `try_send_response` starts with one more than what remains, since every round
-- that goes on sends at least one byte. The loop of `read_request` takes its fuel as an argument,
-- and more than the unread bytes of the stream are enough. The loop on a stream in
-- `process_reads` takes its fuel as an argument, and more than what is unread is enough.
-- `Bytes::from_iter` starts with one more than the size. `drive_until` takes two numbers: one for
-- its rounds, of which more than a measure that the rounds bring down are enough, and one for
-- each of the loops in a round. The loop of `listen` has no end of its own, so its rounds are
-- numbered and the theorem on them holds for every number. The loop of the client over its events
-- has enough with more than the number of events.
--
-- Not modelled: logging, `Stats::summary`, the order of tasks but for the polling of the ring
-- buffer, the hooks of the quiche application that only log or sleep, the build scripts,
-- utils/src/io.rs, which is commented out but for a trait without an implementation, and the
-- scripts. What a listener accepts is a list, and the race of a job against the signals, the
-- timers of the test, and the set-up of neqo's server are parameters. The certificates and
-- configurations of rustls and of the QUIC libraries are opaque. What msquic calls back is a
-- list, and the signal that ends its server the end of one.
pub mod Prelude
pub mod Text
pub mod Labels
pub mod Net
pub mod Bin
pub mod Perf
pub mod Common
pub mod Neqo
pub mod Quinn
pub mod Noq
pub mod Quiche
pub mod Mains
pub mod Metrics
pub mod Monitor
pub mod Msquic
