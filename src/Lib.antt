-- ===== src/Lib.antt =====
-- A model of pixiecpp: a proxy between clients and servers of a small line protocol (BLK), which runs
-- as a listener thread, a queue of accepted descriptors, and worker threads that hold conversations.
--
-- Parts, from the sockets up (paths from the repository's root):
--   Base, Decimal     lists, tests, counts, integers and bytes over the native numbers; std::to_string
--                     and std::stoi
--   ErrorCodes        Pixie-XC/ErrorCodes.h
--   Os                the operating system as a thread sees it: an input script of replies, one for each
--                     system call whose result the code uses, and a log of the calls; the ways in which a
--                     computation ends (a result, blocked in a call, exception, failed assertion, exit)
--   Sockets           Pixie-XC/socket_functions.cpp: Data (read, write, flush, close), Connect (listen and
--                     connect), Flags (fcntl, setsockopt, shutdown); each function has the source's name
--   Twc               external_src/twc.c: Cbuffer (cb_*), Machine (sm_*), Channel (twc_*, and
--                     RawTwoWayChannel::start of Pixie-XC/Channel.cpp as `start`)
--   Queue             Pixie-XC/Queue.cpp; Queue.Threads is the step relation of the threads on it
--   SimpleBuffer      external_src/simple_buffer.c
--   Statistics, Pool  Pixie-XC/Statistics.cpp and ConnectionPool.cpp
--   Blk               Pixie-XC/Protocols/BLK: Message and Parser (BlkMessage.cpp), Socket (BlkSocket.cpp),
--                     Client (BlkClient.cpp), Handler with Proxy and Loopback (HandlerBlk.cpp);
--                     Journey puts client, proxy and server together
--   Http              external_src: Message (HTTPMessage.cpp), Context (ParserContext.cpp and
--                     the callbacks that work on it) and Parser (HTTPParser.cpp)
--   Server            Worker (Handler.cpp, Worker.cpp), Listener (Listener.cpp), Start (Server.cpp,
--                     Thread.cpp, Monitor.cpp), System (listener, queue and workers together)
--   Programs          Pixie-XC/main.cpp, mitm/blk_mitm_main.cpp, blk_client/main.cpp, Exception.cpp and
--                     WorkerLoop.cpp; Requests is the work of a thread of the test client, and
--                     Visits puts such a thread together with a worker of the loopback server
--   Tests             the theorems at concrete inputs
--
-- State and operations. An object is a record of its fields, and a method takes the object and returns
-- it. A method that makes system calls is a function in the monad M of Os. Where the source leaves a
-- variable unset, the value that the memory holds is an argument (`junk`). Bytes are natural numbers. The
-- bytes that toRawString hands to write(2) pass through a C string, so they end at the first zero byte,
-- and their number through an `int`, which wraps. The counts of the simple buffer are `int`s as well.
-- A pointer into a buffer is its offset; a failed assertion of the buffer functions is `none`.
--
-- Fuel. The loops that make a system call in every round run on one unit more than there are replies in
-- the script, and a thread with no reply left is blocked in its call; the other loops are structural.
-- Os.Progress counts the replies that a computation uses, and Twc.Channel.Fuel rests on it. Os.Exchange
-- pairs the calls of a computation with their replies and says which bytes they carry; Twc.Machine.Moves,
-- Twc.Channel.Relay, Twc.Channel.Asserts and Blk.Handler.Proxy.Tunnel rest on it. Os.Calls says which
-- calls a computation may make before it ends, in whatever way; Blk.Handler.Proxy.Forwards rests on it.
--
-- Threads. Queue.Threads interleaves the calls of the queue at its critical sections. Server.System adds
-- the listener and the loops of the workers; a handler is one step of it, which asks for a run of
-- Server.Worker.worker_round that returns, so a handler that never ends keeps its worker. Server.System.
-- Ending shows that each handler has such a run, and Server.System.Effort counts the steps.
--
-- Not modelled: the HTTP handler (it is not called and does not compile), the older copies of the HTTP
-- files under test_src, the logging libraries and their configuration, http_parser (a copy of another
-- project's library, whose callbacks are the input of Http.Parser), the clock of the test client, the
-- branch under USE_IPV6, and memory that is never read again (free, the guards of the simple buffer).
pub mod Base
pub mod Blk
pub mod Decimal
pub mod ErrorCodes
pub mod Http
pub mod Os
pub mod Pool
pub mod Programs
pub mod Queue
pub mod Server
pub mod SimpleBuffer
pub mod Sockets
pub mod Statistics
pub mod Tests
pub mod Twc
