-- ===== src/Lib.antt =====
-- xKBEngine's libraries: the byte stream, the framing of messages, the network, the dispatcher's loop, the
-- pools of threads and connections, and the hooks of the script engine.
--
-- The program is a server's event loop. `EventPoller` waits for descriptors and calls the handlers that
-- are registered for them. A handler belongs to a `Channel`: its receiver puts packets into the receive
-- window, its sender moves the queued packets (bundles) to the socket. Once a tick the channel gives
-- its packets to a `PacketReader`, which joins the pieces of messages and calls the message handler.
-- Packets are `MemoryStream` objects, with operators that write and read values in network order.
--
-- - Stream: libs/common/memorystream.h and memorystream.cpp. A stream is its two positions and the
--   vector; `append`, `read` and the others are the members of these names. Stream.Codec holds the
--   `<<` and `>>` operators, Stream.Bytes the byte orders of a little-endian host, Stream.Dump `toString`.
-- - Network.Packet, Network.Reader: libs/network/packet.h, packet_reader.h and packet_reader.cpp.
--   `read_message` is one round of the loop of `processMessages`. Network.Framing is the protocol as a
--   machine that takes one byte at a time, to which the reader is held.
-- - Network.EndPoint, Network.Channel: libs/network/endpoint.cpp, channel.cpp, tcp_packet_sender.cpp,
--   packet_sender.cpp, tcp_packet_receiver.cpp and packet_receiver.cpp. A `Host` is a channel with the
--   poller, the counters and the sockets that its operations change.
-- - Network.Poller: libs/network/event_poller.cpp, with a table of handlers for each direction.
--   Network.Poller.Dispatch is `processPendingEvents`, which calls the handlers.
-- - Network.Interface: libs/network/network_interface.cpp, with the channels by address in a map
--   (Network.Registry). Its child Listener is listener_receiver.cpp and udp_packet_receiver.cpp, the
--   two ways by which channels come in.
-- - Network.Session: the two ends of a connection over any number of rounds of the loop.
-- - Network.Server: the interface with all its channels, the listener and the poller, as a system whose
--   turns come in any order.
-- - Dispatcher: tasks.cpp and timers.cpp of libs/dispatcher, libs/common/timer.cpp, and in
--   Dispatcher.Loop event_dispatcher.cpp: a round runs the tasks, fires the timers and waits for events.
-- - ConnectionPool: libs/common/connection_pool.h.
-- - ThreadPool: libs/threadpool/threadpool.cpp. ThreadPool.Steps has its threads, the callers of
--   `execute` and `destroy` as steps that interleave in any order, each what is done under one lock.
-- - Script: libs/pyscript, the hooks for `sys.stderr` and `sys.stdout`. Script.Objects has the methods that
--   scripts call on these, Script.Types the type objects, Script.Engine is script.cpp.
-- - Network.Address and Network.Common: libs/network/address.cpp and common.cpp. Network.EndPoint.Calls
--   has the members of endpoint.cpp that only make system calls.
--
-- A call returns an `Outcome` (Prelude.Results): a value, or the fault that ended it: an exception
-- `out_of_range`, a failed assertion, undefined behaviour of C++ (memory outside a buffer, a null
-- pointer), a write behind the size of a vector, where the model stops, since capacities are not
-- modelled, or a loop that ran out of fuel. Fuel is the number of unread bytes and one more, where each
-- round of a loop takes a byte; for the tasks it is their number and one more. The loop over the timers
-- has no such bound, since it depends on what handlers add, nor has the loop of the dispatcher, which
-- ends when a task or a handler stops it.
--
-- Numbers are natural numbers with the wrap-around of the machine's types written out where a type is
-- narrower than `size_t`; sizes stay far below 2^64. The system calls (`epoll_ctl`, `send`), the handlers,
-- the tasks and the interpreter are parameters: operations, with what the manuals say as laws. Calls
-- whose answer alone matters (`recv`, `accept`, `epoll_wait`, `listen`, `close`, the clock) are arguments.
--
-- A message handler is a parameter. Where a theorem says what it gets, the handler takes the message from
-- the packet's start: if a size came in two pieces, the read position, from which `>>` reads, is left
-- two bytes further. In ThreadPool.Steps the changes of `idles_` are exact until the first call of
-- `execute` that unlocks `stats_lock_` twice; from then on they may come out as anything.
--
-- Not modelled: log lines but for the pointers that they read through, the capacity of vectors, calls
-- of the thread pool before it is initialized, a handler that registers or removes channels while
-- `processChannels` runs, the slots of the type objects and what only calls the interpreter's C API,
-- and the test programs.
pub mod Prelude
pub mod Stream
pub mod Network
pub mod ConnectionPool
pub mod Dispatcher
pub mod ThreadPool
pub mod Script
