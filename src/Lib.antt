-- ===== src/Lib.antt =====
-- TurboNet: a network library with its own asynchronous logger.
--
-- The bytes of a connection pass through a `Buffer` (src/net/buffer.h, src/net/buffer.cpp). A log
-- line is formatted by a `LogStream` (src/logger/log_stream.h, src/logger/log_stream.cpp) into a
-- `FixedBuffer` (src/logger/fixed_buffer.h), and `AsyncLogging` (src/logger/async_logging.h,
-- src/logger/async_logging.cpp) hands full buffers from the threads that log to a writer thread.
--
-- Common             Boolean tests, lists, slices of storage, `Outcome` for calls that may stop
-- Buffer             the connection buffer, one function per method, in snake case
-- FixedBuffer        the array of fixed size behind a stream
-- LogStream          `operator<<` for each type: decimal and hexadecimal digits, texts
-- AsyncLogging       `Append`, the stretches of `ThreadFunc`, and `System`, their interleavings
--
-- A method that changes its object is a function to the new object. A call that fails an assertion,
-- leaves its storage, follows a null pointer or asks a vector for more than its limit is `stopped`;
-- builds keep their assertions. A byte is a number, an address is an index. `size_t` is 64 bits wide
-- and wraps, `int` has 32 bits. The digit loops run on the value plus one as fuel, which is more
-- than its digits. System calls, `snprintf("%.12g")` and the printed notice of dropped buffers are
-- parameters, as are `fopen`, `fwrite_unlocked`, the clock and the texts of time that the logger prints. The
-- loop of `FileUtil::Append` runs on the length as fuel: each round takes a byte or ends it.
--
-- A `Channel` (src/net/channel.h, src/net/channel.cpp) holds the events that a descriptor waits for.
-- It registers itself through its `EventLoop` (src/net/event_loop.h, src/net/event_loop.cpp) with an
-- `EpollPoller` (src/net/poller.h, src/net/poller.cpp, src/net/epoll_poller.h,
-- src/net/epoll_poller.cpp), which keeps a map of its channels and the kernel's interest set.
--
-- Reactor            channels at addresses, the poller, and in Reactor/EventLoop the loop; builds with
--                    and without assertions; in Reactor/Threads the loop that each thread points to
-- Logger             a line of the logger (src/logger/logger.h, src/logger/logger.cpp), and in
--                    Logger/Settings where lines go, with the default asynchronous logger;
--                    Logger/Stamp joins a line to the text of its time
-- LogFile            the files of the log (src/logger/file_util.h, src/logger/file_util.cpp,
--                    src/logger/log_file.h, src/logger/log_file.cpp) and their names; in
--                    AsyncLogging/Files the writer's calls are made of them
--
-- An event mask is a record of its named bits and of the rest, and a channel is named by its address. `epoll_ctl` is a
-- parameter; `Reactor.Mirror.Laws` says what it answers and changes. Debug messages are left out.
--
-- A `CountDownLatch` (src/base/count_down_latch.h, src/base/count_down_latch.cpp) lets `AsyncLogging`
-- wait for its writer's start. A `ThreadPool` (src/base/thread_pool.h, src/base/thread_pool.cpp) runs
-- tasks on its workers. An `InetAddress` (src/net/inet_address.h, src/net/inet_address.cpp) is the
-- address of a `Socket` (src/net/socket.h, src/net/socket.cpp), by the calls of
-- src/net/socket_ops.cpp.
--
-- CountDownLatch     the critical sections of `Wait` and `CountDown` as steps of the threads
-- ThreadPool         `Commit`, the workers' loop and the monitor as steps of the threads
-- Sockets            addresses by the offsets of their bytes in Sockets/Address, in Sockets/Calls
--                    what each call does with the kernel's answer, and `Resolve`, the options and
--                    the TCP information in files of their own
--
-- A thread takes a critical section in one step, and a wait may end at any moment. `std::thread` may
-- throw when it makes no thread: a `Thread`, a pool and `start_async` keep that case, and a theorem
-- that needs the thread says so. The byte order,
-- `inet_pton` and `inet_ntop` are parameters with their laws. So are `snprintf` of integers and the
-- `localtime` that texts of times are made with, `getaddrinfo_a`, `getnameinfo` and `setsockopt`.
--
-- A `MutexLock` (src/base/mutex.h, src/base/mutex.cpp) knows the thread that holds it, also across
-- the waits of a `Condition` (src/base/condition.h, src/base/condition.cpp). A `Thread`
-- (src/base/thread.h, src/base/thread.cpp) waits in `Start` on a latch for its new thread. Both ask
-- src/base/current_thread.h and src/base/current_thread.cpp for the kernel's number of a thread.
--
-- CurrentThread      what a thread keeps about itself
-- Singleton          an object that the first call makes, up to the exit (src/base/singleton.h)
-- Timestamp          points in time (src/base/timestamp.h, src/base/timestamp.cpp,
--                    src/base/public_define.h), as integers, and their texts;
--                    `AddTime` stops where 64 bits overflow
-- Mutex              the lock, its holder and the waits, as steps of the threads
-- Thread             the object and the new thread, as steps on top of `CountDownLatch`
--
-- Not modelled: `std::thread`, `std::mutex` and `std::condition_variable`, which are taken as they
-- are documented; outputs of the logger that a program supplies itself; the close of descriptors by
-- `~EpollPoller`; debug messages.
pub mod Common
pub mod Buffer
pub mod FixedBuffer
pub mod LogStream
pub mod AsyncLogging
pub mod Logger
pub mod LogFile
pub mod Reactor
pub mod CountDownLatch
pub mod ThreadPool
pub mod Sockets
pub mod CurrentThread
pub mod Mutex
pub mod Thread
pub mod Singleton
pub mod Timestamp
