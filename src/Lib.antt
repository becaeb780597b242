-- ===== src/Lib.antt =====
-- A model of yamq, a C++ library for network servers, and the theorems that make it correct.
--
-- The program. A server (rpc/tcp/server.cpp, server_multi.cpp) accepts connections and gives each
-- an id and a dispatcher. The dispatcher (rpc/event_dispatcher.cpp) holds a table of channels
-- (rpc/channel.cpp), asks a selector (rpc/selector.cpp, rpc/epoll_selector.cpp) for events, calls
-- the handlers of their channels, and runs the functors that other threads hand over. A connection
-- (rpc/tcp/connection.cpp) is a channel that reads into one IoBuffer (rpc/io_buffer.cpp) and sends
-- through another. On top, rpc/http/ parses requests from the buffer and writes responses to it.
-- The logging library (log/) formats lines into fixed buffers, hands them to a thread, and appends
-- them to files that roll. A timer queue (rpc/timer/) keeps timers in a red-black tree
-- (base/rbtree/) and arms a descriptor of the dispatcher for the first.
--
-- The files.
--   Prelude and its children: bytes, lists, maps, flags, decimal numerals, and the automation.
--   IoBuffer: `IoBuffer` of rpc/io_buffer.h, every operation under its name: `Put` is `put`. Valid
--     has the order of the indices, Queue and Growth what each operation does to the
--     readable bytes, Run any sequence of calls, Ints and Search the
--     integers and findCRLF.
--   Any: base/std/any.h, on a heap of holders; Casts is on assignment and the cast to a type.
--   Http: HeaderMap, Request, Context, Response and Server for the classes of rpc/http/.
--     Request/Methods and Headers, Context/RequestLine, Acceptance, Rounds, Request and
--     Termination, Response/Text and Server/Serving are proofs.
--   Selector: the contract that the dispatcher relies on, as a record of operations and laws; Runs
--     on it; Poll and Epoll implement it, each with its Contract and its Events.
--   Evd: Channel and the table of the EventDispatcher over any selector; Table is its invariant,
--     Functors the pending functors as a step relation.
--   Tcp: Connection over the dispatcher, with Flow and Drain for the bytes; Ids for the search of a
--     free number, which server.cpp, server_multi.cpp and timer/timer_queue_base.cpp share; Server
--     for the connections.
--   Log: FixedBuffer, Convert, Stream (log/logstream.cpp), File (log/logfile.cpp), Worker
--     (log/asynclogging.cpp). Worker/Whole, Steps and Order are on what is written, Shutdown on the
--     end. Capture is the front end (log/logging.cpp), with Line for what it hands over, Utilities
--     log/utilities.cpp.
--   ThreadPool: base/thread_pool.cpp, its sections under the mutex as steps; Invariant is what they
--     keep.
--   RbTree: base/rbtree/rbtree.cpp on a heap of nodes, with Insert and Delete for the functions.
--     Shape says what a heap holds as trees and contexts, Ends and Removal/Quits what a command
--     makes of the tree in focus; Rotate, Fixup, Descent and Insertion are on insertion, Extremes
--     and Successor on the walks, Removal on the deletion of the least.
--   Timers: rpc/timer/timer_queue_rbtree.cpp on RbTree and Tcp/Ids; Collect and Adding are proofs.
--   The Tests modules run the definitions and apply the theorems at concrete inputs.
--
-- Conventions. `none` of an Option is the end of defined behaviour: a failed assert, an abort (a
-- fatal log line aborts), an access outside an array, an overflow of a signed integer. Sizes are
-- natural numbers; where a wrap can matter it is written out, `% 2 ^ w`. A std::string is a list of
-- bytes, a std::map an ordered list of pairs, an unordered_map a list of pairs. A pointer to a
-- channel or a functor is a number. What a system call returns is an argument; the kernel's epoll
-- is a record of its documented laws, which Selector/Tests meets by a map.
--
-- Fuel. parse_request counts rounds, and ends within the number of readable bytes and one; convert
-- has the magnitude of its number and one; nextId the number of keys and one. The loops of the
-- red-black tree count steps along a path: fuel above the height of the tree is enough, as is twice
-- the number of black nodes on a path and one, for insertion and the extremes. collect counts
-- rounds, one more than the timers. Each is proved to be enough.
--
-- Not modelled: the dump of a red-black tree (base/rbtree/rbtree_util.h), the shared queue (base),
-- which is a copy of g3log's, Thread (base/std),
-- stack traces (log/debug), the acceptor's socket calls, and headers without code.
pub mod Prelude
pub mod IoBuffer
pub mod Any
pub mod Http
pub mod Selector
pub mod Log
pub mod Evd
pub mod Tcp
pub mod ThreadPool
pub mod RbTree
pub mod Timers
