-- ===== src/Lib.antt =====
-- Verification of the C library queue-c: message queues for the threads of one process, for
-- processes over shared memory, and over sockets.
--
-- The program's parts and how they interact. qc_rt/qc_list.c has the static list, a doubly linked
-- list of numbered cells in one array, and the dynamic list. qc_rt/qc_utils.c builds on the static
-- list a pool of numbers, a pool of equal units of memory, and queues of pointers, kept in slots
-- whose numbers go round between two static lists; qc_rt/qc_hash.c has a hash table. qc_mq/ has the
-- messages, the chain that keeps them by priority, the getters and putters that wait, and the queue
-- over these. qc_shq/ has a queue over shared memory and qc_psist/ a file of messages. qc_qsys/
-- finds queues by their names, and qc_net/ has a server for them, its client and the packets
-- between them. Paths are those under src/ of the repository.
--
-- Which file models which part:
--   Base: the Boolean tests on the native numbers, options as a monad, lists, and the integers of
--     C.
--   StaticList: qc_staticlist_* of qc_rt/qc_list.c, a function for each operation under its name
--     without the prefix. The cells are a function from numbers; a cell read or written outside the
--     array is `none`. Rep states which list of cells a static list stands for.
--   DynList: the dynamic list of qc_rt/qc_list.c (qc_list_*) on a heap, where an entry has a next
--     and a previous link and its data; a read or write of an entry that is not allocated is
--     `none`.
--   NumPool, UnitPool: qc_numpool_* and qc_unitpool_* of qc_rt/qc_utils.c.
--   Fifo, NBlockQue: the bounded queue that is promised, and qc_nblockque_* of qc_rt/qc_utils.c.
--   BlockQue: qc_blockque_* of qc_rt/qc_utils.c, and the events of threads that put and get.
--   HashKey, HashTable: qc_rt/qc_hash.c, the hashes and comparisons, and the table over any of
--     them.
--   ShmQue: qc_shq/qc_shq_que.c, and the steps of processes that push and pull (ShmQue/Steps).
--   Protocol: qc_net/qc_protocol.c; Protocol/Memory reads the packets from bytes.
--   Message, MsgChain: qc_mq/qc_message.c and qc_mq/qc_msgchain.c.
--   Getters, Putters: qc_mq/qc_getters.c and qc_mq/qc_putters.c, with the shared objects.
--   Queue: qc_mq/qc_queue.c. What a thread does under the lock of the queue is one step, and the
--     end of its wait by a signal (getter_woken, putter_woken) or by a timeout (getter_expires and
--     getter_leaves, putter_expires and putter_leaves) are further ones; Queue/Traces has them in
--     any order. Queue/Weights counts the messages of a queue, each by a weight of its own, so that
--     an equation for every weight says that two collections are the same but for their order.
--   PsistFile, Psist: qc_psist/qc_psist_file.c on the bytes of a file, and qc_psist/qc_psist.c; the
--     queue that the stored messages are loaded into is a parameter.
--   QSystem: qc_qsys/qc_qmanager.c and qc_qsys/qc_qsystem.c, on the hash table and the queue.
--   Socket: qc_tcp_recvall and qc_tcp_send of qc_rt/qc_socket.c; the segments that arrive and the
--     bytes that a connection takes are parameters.
--   Server, Client: qc_net/qc_server.c and qc_net/qc_client.c, which send the packets of Protocol
--     over connections. The server's system is a parameter, the record Service; the client's peer
--     is one too. Server/Queues fills Service with the queues of QSystem, for one thread at a time,
--     and Server/Running has the start and the stop.
--   Thread: the deadlines of the waits in qc_rt/qc_thread.c and qc_rt/qc_sem.c; the calls of the
--     system are parameters.
-- Each part has its properties in modules below it, and most have a module Tests with runs and with
-- properties at concrete inputs.
--
-- Conventions. A structure behind a pointer is passed to an operation and returned by it. An
-- operation returns `none` where the C program stops by an assertion or a fault. The arguments of
-- type `QcStaticList *` and the like are not NULL here; a NULL returns -1 or stops by the
-- assertion. An `int` is an integer without wrap-around, but for the position in a file, which the
-- fetch converts to one: the counts and the numbers of cells stay between -100 and the limit, which
-- is itself an `int`. What the allocator gives is an argument where the code tests it; `qc_malloc`
-- stops the program where the code does not. With its mutex an operation is one step. The list of a
-- message bucket stands for its QcList, oldest message first.
--
-- Loops. Those of the static list are structural on the number of cells. The loop `try_loop` of
-- qc_msgchain_popmsg goes down the buckets and starts again at the top at most once, so it is two
-- passes, each structural on the number of the bucket; there is no fuel. The loop of
-- qc_hashtbl_enumnext goes on to the next bucket, at most as often as there are buckets, and that
-- is enough. The chains of a bucket and the queues at a semaphore need none. `pop_loop` of
-- qc_queue_msgget runs at most once more than putters wait, which is its fuel. The loops over the
-- file of messages have as fuel the number of records, and one more for a fetch, which is enough
-- where the file is as long as its head says. A round of `recvall_loop` receives a byte at least,
-- and a round of the thread of a connection takes some of the bytes that arrive, so that there are
-- enough rounds for the loops.
--
-- Interleavings. The blocking queue is a function from an event and a system to an answer and a
-- system, the shared queue and the queue with its waits are step relations; all have what holds
-- after any number of steps. Of the threads that get from a blocking queue only the one that holds
-- threads_mutex matters, since the others wait for it.
--
-- Not modelled: removefirst, insertsort and destroy of the dynamic list; shm_queue_find and the
-- mapping of shared memory; making, accepting and closing connections; what only releases memory at
-- the end; the layer over the operating system, which only calls it, but for the deadlines of
-- waits; and failures of the calls on a file. A wait is taken to end by a signal or a timeout. A
-- wakeup without a signal is not modelled, nor a timed wait that fails otherwise: the code goes on
-- then as if signalled, and releases a putter or getter that is still listed, or stops by an
-- assertion. A wait without a limit in the server of one thread would not end; Server/Queues gives
-- `none` for it. A put of qc_psist_loadqueue that does not return 0 is taken to leave the queue as
-- it is.
pub mod Base
pub mod StaticList
pub mod DynList
pub mod NumPool
pub mod UnitPool
pub mod Fifo
pub mod NBlockQue
pub mod BlockQue
pub mod HashKey
pub mod HashTable
pub mod ShmQue
pub mod Protocol
pub mod Message
pub mod MsgChain
pub mod Getters
pub mod Putters
pub mod Queue
pub mod PsistFile
pub mod Psist
pub mod QSystem
pub mod Thread
pub mod Socket
pub mod Server
pub mod Client
