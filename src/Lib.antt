-- ===== src/Lib.antt =====
-- A verification library for the core of learn-tars, an RPC framework in C++.
--
-- The framework sends requests as packages of the TARS encoding. A caller's thread hands a request to
-- a network thread through a circular queue (util/include/tc_loop_queue.h); the network thread keeps
-- the request in a timeout queue (util/include/tc_timeout_queue_new.h) until the answer arrives under
-- the request's id or the deadline passes; the packages are written and read by the streams of
-- tup/Tars.h, cut out of the stream of bytes by tup/AppProtocal.h, and buffered by
-- util/include/tc_buffer.h. A server's network thread (util/src/tc_epoll_server.cpp) keeps the
-- connections, and hands what they receive to the handlers through a queue of threads
-- (util/include/tc_thread_queue.h). A client may run many calls in one thread as coroutines
-- (servant/servant/CoroutineScheduler.h, servant/libservant/CoroutineScheduler.cpp). Each of these
-- parts is a module here, with its tests in a child module.
--
-- Base: tests on numbers, lists, words of 32 and 64 bits, association lists (Base/Keyed).
--
-- LoopQueue: `TC_LoopQueue<T>` as a record of its array and its indices. `push_back` (four overloads),
-- `pop_front` (two), `get_front`, `size` and `empty` are functions from the record to the result, the
-- values of the output parameters and the new record. The constructor receives the memory that
-- `malloc` returned. LoopQueue/Fifo is the bounded sequence that it implements.
--
-- TimeoutQueue: `TC_TimeoutQueueNew<T>` as a record of its hash map, its multimap and its list. An
-- iterator is the identity of a node, handed out in order; going through an iterator whose node is
-- gone is `none`, and so is a failed assertion. The time is an argument of the functions. The
-- abstract view is the map from ids to value, sent flag and deadline (TimeoutQueue/View).
--
-- Tars: the encoding. Tars/Stream has `BufferReader` and the macros that read, Tars/Skip and
-- Tars/Read the input stream, Tars/Write `BufferWriter` and the output stream. A number is given by
-- its bits, below 2^8, 2^16, 2^32 or 2^64, and a conversion to a wider signed type extends the sign. A
-- reader returns a value, an exception or `stuck`, and the reader's state. `stuck` stands for fuel
-- that ran out: skipping of fields recurses, and takes fuel; a field that is next in the buffer needs
-- two units of it, and Tars/Items counts what a nested value needs. Tars/Items is the wire format as
-- data, independent of the code: values in lists, maps and structs, and their bytes. Two's complement
-- and a little-endian machine are assumed, as tup/TarsType.h does.
--
-- Buffer: `TC_Buffer` (util/include/tc_buffer.h, util/src/tc_buffer.cpp) as a record of its array, its
-- positions and its capacity. The memory that `new char[n]` returns is a parameter, of which the
-- proofs assume the length alone. A failed assertion is `none`, and so is fuel that ran out.
-- `RoundUp2Power` has 64 rounds, since it doubles a number of 64 bits, and the loop of `AssureSpace`
-- has 65, since it makes the capacity a larger power of two in each.
--
-- Protocol: the packages of tup/AppProtocal.h, a length and the bytes that it counts. `parse_len` and
-- `parse_stream` are the server's parsers on a string, `tars_request` is what the client sends, and
-- `stream_response` is the client's loop over a buffer, on fuel: one unit for each package and one
-- more. The template arguments are arguments of the functions.
--
-- ThreadQueue: `TC_ThreadQueue<T>` as its sequence and its count of 64 bits. Every operation runs
-- under the lock, and is one step; what the other threads do while an operation waits for an element
-- is a parameter. A failed assertion is `none`.
--
-- Coroutine: the scheduler. Coroutine/Links has the intrusive lists of `CoroutineInfo` on a heap, the
-- maps `prev`, `next` and `status` from pointers; a pointer is a number: 0 for NULL, 1 to 5 for the
-- heads of the lists, 6 for the main coroutine, and 6 more than its identifier for any other.
-- Coroutine/Moves has the moves between the lists, Coroutine/Scheduler the pool, the wake-ups and the
-- constructor, Coroutine/Run `yield`, `sleep`, `tars_run` and `run`, Coroutine/Client the class
-- `Coroutine`. A context switch makes another coroutine the current one, and what a coroutine does in
-- its turn is a parameter, a list of calls of the scheduler; so is what the allocator answers to a
-- size. Coroutine/Stacks is the allocator on x86_64, whose questions to the system are parameters.
-- `none` is a failed assertion, a null pointer or an index out of the table. The loops that the code
-- bounds by 100 rounds have 100 here, `run` goes over a list of rounds, and `generateId` has two
-- rounds, since its counter returns to 0 only once.
--
-- Server: the epoll server. Server/Slices has the loops of `Connection::send` and `adjustSlices` over
-- the slices of the send buffer, Server/Connection the rest of `Connection`, Server/NetThread the
-- network thread with its connections by identifier. `read`, `writev` and `send` of the kernel are
-- parameters, of which the proofs assume that they take no more than what they are given; a closed
-- socket accepts nothing. Server/Dispatch has `accept` and the loop of `run`, over a list of what
-- happens in each round: the events, and the calls of other threads between them, one at a time.
-- Server/Steps has the steps of a thread and the states that it comes to. The loop over the slices has
-- one round for each. Server/Safety, Server/Rounds and Server/Exhausted say what holds of those
-- states.
--
-- Not modelled: the diagnostic output on `std::cout`; freeing of memory; the reads of doubles, maps
-- and raw pointers; `MapBufferReader` and `BufferWriterBuff`; the release of stacks and the assembly
-- of the context switch; everything that only calls sockets, threads and epoll; the address of a
-- connection; and the proxies and the handlers of the server, which build on these parts.
pub mod Base
pub mod Buffer
pub mod Coroutine
pub mod LoopQueue
pub mod Server
pub mod ThreadQueue
pub mod TimeoutQueue
pub mod Protocol
pub mod Tars
