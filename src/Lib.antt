-- ===== src/Lib.antt =====
-- my_async: a model of the coroutine I/O library.
--
-- The parts of the program and the modules that model them:
--
--   utils/expected.hpp, platform/error_handling.hpp      Expected
--     A value or an error code, and the combinators on it. A std::error_code is its category and
--     its number; a call that may throw gives an Outcome.
--   awaiter/task.hpp                                     Task, Expected
--     A Task<Expected<T>> is a function from a state to a Run: a result with the state left, an
--     undefined step, or no fuel. `co_await co_await t` is `await`, `co_await t` is `await_result`.
--   iostream/stream_base.hpp, iostream/byte_buffer.hpp   Stream, Stream/*
--     BorrowedStream is a record with the fields of the class, the state of the raw stream and the
--     caller's String. Each method is a function of the same name. The virtual functions of Stream
--     are the record Raw, a parameter of every operation.
--   iostream/string_stream.hpp                           StringStream
--     The raw streams over a string, which provide what Stream asks of a source and of a sink.
--   utils/ring_queue.hpp                                 RingQueue, RingQueue/*, InfinityQueue
--     The pointers of a RingQueue are offsets into its cells; an access outside them is `none`.
--   utils/ilist.hpp                                      ListHead, ListHead/*
--     The links of all nodes are two functions on addresses, with the root at address 0.
--   utils/rbtree.hpp                                     RbTree, RbTree/*
--     The members of all nodes are functions on addresses. The mirrored functions have the side as a
--     parameter. RbTree/Links says when the links stand for a tree with a place in it.
--   generic/generic_io.hpp, generic/generic_io.cpp       Timers, Timers/*
--     The timer queue over RbTree. A resumed coroutine is a function on the state, and the clock is a
--     list of readings, one for each round that finds a timer.
--   iostream/file_stream.cpp                             Files, Files/*
--     FileStream and whole files, over a file system that is a parameter.
--   awaiter/when_all.hpp                                 WhenAll, WhenAll/*
--     The children finish in any order, as a step relation.
--   generic/when_any.hpp                                 WhenAny, WhenAny/First
--     The children end in the order of a list of events.
--   generic/semaphone.hpp                                Semaphone, Semaphone/*
--     The loads, exchanges and waits of the tasks as a step relation, as for BasicMutex.
--   generic/queue.hpp, generic/condition_variable.hpp    ConcurrentQueue, ConcurrentQueue/*
--     The clients of a ConcurrentQueue take the steps, over a RingQueue and the word they wait on.
--   generic/thread_pool.cpp                              ThreadPool, ThreadPool/*
--     Threads are positions in mThreads. The callers of submitJob and the threads take the steps.
--   generic/cancel.hpp                                   Cancel, Cancel/Order
--     A source holds the ring of its cancellers; a cancellation gives those that it called.
--   generic/mutex.hpp                                    Mutex, Mutex/*
--     BasicMutex as a step relation: each atomic operation of a task, and each decision that the
--     kernel takes on the futex, is a step, and the steps of all tasks interleave.
--   utils/string_utils.hpp                               Strings, Strings/*
--     Strings are lists of bytes; a position npos is `none`.
--   utils/simple_map.hpp                                 SimpleMap, SimpleMap/*
--     The entries in the order of their keys; the comparison of keys is a parameter.
--   net/uri.cpp, net/uri.hpp                             Uri, Uri/*
--     Encoding, decoding, parsing and printing; what is undefined gives `none`.
--   net/socket_proxy.cpp                                 SocketProxy, SocketProxy/Handshake
--     The handshake with an HTTP proxy, over a network that is a parameter.
--   utils/byteorder.hpp                                  ByteOrder, ByteOrder/Mirror
--     A value is the list of its bytes in memory.
--
-- Bytes are numbers. A std::size_t that the code adds to or subtracts from without a test wraps
-- around at 2 ^ 64 (Prelude/Sizes). Sizes of buffers are taken to be below 2 ^ 62.
--
-- Fuel. getn, dropn, putspan, flush and the loops of socket_proxy_connect start with fuel of their
-- own that always is enough. getline, dropline, getall and getspan loop until the source ends, so
-- their fuel is an argument: a round for each fillbuf. The loops over a ListHead or a RbTree and
-- those of SplitString take their fuel as an argument too: a round for each node or part.
--
-- Not modelled: coroutine frames and threads, the interfaces of the operating system, allocation
-- failure, the version of when_any over a vector, debug output and the source locations kept in
-- debug builds.
pub mod ByteOrder
pub mod Cancel
pub mod ConcurrentQueue
pub mod Expected
pub mod Files
pub mod InfinityQueue
pub mod ListHead
pub mod Mutex
pub mod Prelude
pub mod RbTree
pub mod RingQueue
pub mod Semaphone
pub mod SimpleMap
pub mod SocketProxy
pub mod Stream
pub mod StringStream
pub mod Strings
pub mod Task
pub mod ThreadPool
pub mod Timers
pub mod Uri
pub mod WhenAll
pub mod WhenAny
