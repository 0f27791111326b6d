-- ===== src/Lib.antt =====
-- windz, a network library of one event loop per thread (windz/net), with its base, log and util
-- parts, as a shallow embedding of the C++ code.
--
-- Prelude: lists, integers and `Run`, the result of code that may fail an assertion, leave a
--   vector, exceed `max_size` or, in a model of a loop, run out of fuel.
-- Base/Time: windz/base/Duration.h and Timestamp.h.
-- Base/Util: windz/base/Util.h and Util.cpp, the loops over `write` and `read`; the kernel's answers
--   are a list, which serves as fuel. Complete is about each loop, Reading about what one end of a
--   stream reads of what the other wrote, Formatted about `Format`.
-- Base/BlockingQueue: windz/base/BlockingQueue.h. A call is one step under the lock; `none` stands
--   for a call that would wait.
-- Base/ThreadPool: windz/base/ThreadPool.h and ThreadPool.cpp. The steps of the threads follow each
--   other in any order; Stopping is about `Stop`, Tasks about where the tasks are.
-- Base/CountDownLatch: windz/base/CountDownLatch.h with the wait of Condition.h; the threads' tests,
--   counts and returns from the wait for no reason are steps, which come in any order.
-- Base/Thread: windz/base/Thread.h and Thread.cpp with CurrentThread.h and CurrentThread.cpp, over the
--   latch; Started is about what `Start` waits for.
-- Log/LogStream: windz/log/LogStream.h and LogStream.cpp, the buffer of a line and the conversion of
--   integers. The fuel of `convert_loop` is 20, the digits of a 64-bit number.
-- Log/AsyncLogging: windz/log/AsyncLogging.h and AsyncLogging.cpp. `Append` and a round of the
--   logging thread are steps; Lossless follows the bytes through the buffers.
-- Log/FileUtil: windz/log/FileUtil.h and FileUtil.cpp. The fuel of `append_loop` is the number of
--   bytes, of which each round takes one at least.
-- Log/LogFile: windz/log/LogFile.h and LogFile.cpp. The clock, `fwrite_unlocked` and the texts of
--   `strftime` and `getpid` are parameters.
-- Log/Logger: windz/log/Logger.h and Logger.cpp. `statement` is a macro with what stands behind it;
--   Line is about a chain of `<<`, Whole about the line that the output is given. The texts of
--   the clock, the thread id and `strerror_r` are arguments.
-- Util/Config: windz/util/Config.h and Config.cpp. Chars holds `LineParser`, Parsing what the parser
--   reads and the getters find. The lines are those that `fgets` gives.
-- Util/Daemon: windz/util/Daemon.h and Daemon.cpp. PidFile is about the file of the pid, Stopping
--   about `Stop`, Starting about `Start` and `Restart`. The answers to `kill` are a function of the
--   number of signals sent before; `Stop` has 500 rounds, as in the code.
-- Net/Socket: windz/net/Socket.h and Socket.cpp. Socket/Interface is what they and the acceptor call
--   of the system, with the laws of its descriptors; Socket/Table is one that satisfies them.
-- Net/Acceptor: windz/net/Acceptor.h and Acceptor.cpp, over Net/Socket. Acceptor/Held is about one
--   call of `HandleRead`, Draining about many, Whole about the constructor and the destructor.
-- Net/Buffer: windz/net/Buffer.h and Buffer.cpp, the byte buffer: `write` for `Write`, `read_fd`
--   for `ReadFd` and so on. Copy holds the two copies of the standard library, Valid the invariant,
--   Align the move of the bytes behind the prepend area, Contents what each operation does,
--   Queue the queue of bytes that the buffer implements.
-- Net/Timer: windz/net/Timer.h and Timer.cpp. Timer/Heap holds the binary heap, Timer/Heap/Bag
--   the multiset that it stands for, Timer/Expiry what `HandleExpired` runs. The functions of the
--   timers and the clock are parameters. The loops of the heap take fuel, its size;
--   `handle_expired` takes fuel above the number of timers.
-- Net/Channel: windz/net/Channel.h and Channel.cpp, the events a descriptor is watched for.
-- Net/EventLoop: windz/net/EventLoop.h and EventLoop.cpp, the rounds of a loop over the queue of
--   Base/BlockingQueue. A functor is a number, and its effect the functors that it queues.
--   EventLoop/Channels is the set of channels with windz/net/Epoller.cpp, and the destructor.
--   EventLoop/Timers holds the functions that add and cancel timers, from any thread: Calls says
--   which timers are asked for, Marked and Sound what a cancel does, Holding and Settled where the
--   timers are, Asked how they come to run, and Waits how long a round waits for them.
-- Net/EventLoopThread: windz/net/EventLoopThread.h and EventLoopThread.cpp, as steps of the new
--   thread and its owner. Published follows them from `Start` to the destructor, Ending holds what
--   goes wrong where the thread cannot be created, another quits the loop, or the destructor does
--   before the thread has entered it.
-- Net/EventLoopThreadPool: windz/net/EventLoopThreadPool.h and EventLoopThreadPool.cpp.
-- Net/TcpConnection: windz/net/TcpConnection.h and TcpConnection.cpp. A connection holds a channel
--   and two buffers; the functors that it queues in its loop are a list. TcpConnection/Stream is
--   about the bytes, TcpConnection/Lifecycle about the states,
--   TcpConnection/Forced about `ForceClose`.
-- Net/TcpServer: windz/net/TcpServer.h and TcpServer.cpp, over the models of the connections and
--   of the thread pool. TcpServer/Once holds what is kept of each connection, TcpServer/Calls that
--   every call keeps it, TcpServer/Destruct the destructor. `std::to_string` is a parameter.
-- Net/TcpClient: windz/net/TcpClient.h and TcpClient.cpp, over the models of the connector and the
--   connection. TcpClient/Single says what is kept of its connections, TcpClient/Calls that every
--   call keeps it, TcpClient/Again how it connects again.
-- Net/Connector: windz/net/Connector.h and Connector.cpp, the states of an outgoing connection; Steady is what a
--   connector keeps once it has connected.
--
-- A `size_t` wraps at 2 ^ 64. An answer of the kernel (`readv`, `write`, the clock) is an argument.
-- Not modelled: the wrappers of locks and of atomic operations, which hold no logic of their own.
-- More than one thread at work is modelled where a component is about threads; elsewhere the other
-- threads are there by the functors that they queue only.
pub mod Prelude
pub mod Base
pub mod Log
pub mod Util
pub mod Net
