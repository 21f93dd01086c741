-- ===== src/Lib.antt =====
-- pthreads, an extension that gives PHP threads whose objects can be shared. Each shared object has a
-- table of stored values behind a monitor, and each thread that uses it has a connection with a cache
-- of its own. Workers are threads with a queue of tasks, and a pool is a set of workers.
--
-- The parts and their files, by paths from the repository's root:
--
--   Queue     src/queue.c, src/queue.h: the doubly linked lists that hold a worker's tasks, over an
--             explicit memory of items. Links says when a memory holds a run of items and when a queue
--             stands for a sequence (`Represents`); Relink, Push, Remove, Sequence and Clean follow the
--             pointer writes of each function. An access through NULL or to a freed item is a fault,
--             which is `none`. Reference counting is recorded in a trace.
--   Monitor   src/monitor.c, src/monitor.h: the recursive mutex, the condition and the flags. Calls of
--             the pthread library are recorded, and their results are arguments. Flags and Wait are
--             about the flags and about waiting.
--   Worker    src/worker.c: the data that a worker's creator and its thread share. Queues are the
--             sequences that Queue.Sequence shows them to stand for. Rounds is about one call, System
--             is a step relation of the two threads with one step for each critical section; the
--             thread's loop is that of `pthreads_routine` in src/object.c. Methods has the methods in
--             classes/worker.c.
--   Thread    src/object.c: `pthreads_start`, `pthreads_join` and `pthreads_routine`, as the steps of a
--             creator and its thread that meet through the flags of two monitors. Fits says which
--             places and flags go together, Handshake what follows. Destroy has
--             `pthreads_base_dtor`.
--   Object    src/object.c, src/thread.h, src/globals.c: how objects are made, connected to those of
--             other threads and freed. System has the steps of all threads; Counts, Release, Connect,
--             Resolve, Answer and Free are about what each does to the counts of thread-safe objects,
--             to the registry and to the tables `resolve` by which a thread finds its connections.
--   Copy      src/copy.c: the copies of values from thread to thread. Tree lays syntax trees out in
--             memory, Layout and Block are about that; Kept is about whose the copied strings are,
--             Content about what is in a copy. Function has the parts of a copied function, Operands
--             and Arguments are about two of them, Whole puts them together.
--   Globals   src/globals.c, src/resources.c, src/ext_sockets_hacks.c: the strings (Intern) and the
--             sockets (Sockets) that all threads share, and the resources that a thread keeps.
--   Handlers  src/handlers.c: the engine's handlers for properties and elements, over Store.
--   Pool      classes/pool.c: the methods of `Pool`. Workers are created and called by the engine:
--             calls are recorded. Resize and Submit are about those two methods.
--   Prepare   src/prepare.c: what a new thread gets of its creator. Traits, Methods, Properties, Statics
--             and Late have the parts of a class, Entry puts them together, and Create has
--             `pthreads_create_entry`, by which classes call for each other. Ini has the settings, Startup
--             the rest of what a thread starts with. Stock, Frame, Slots, Calls, Bindings, Entries,
--             Missing and Ends are about how the calls end and what they keep, Inherit about the loop over all
--             classes.
--   Zend      the engine's `HashTable` by its documented behaviour, a record of operations and laws
--             that the parts with tables take as a parameter (`HashApi`). Table is a list of entries that
--             fulfils it, used for examples only.
--   Store     src/store.c, src/store_types.h: the properties of a shared object. Values has the values
--             and what is stored of them, Convert the way in and out, Access reading and writing, Ends
--             `shift`, `pop` and `chunk`, Whole and Full the operations on all entries, Iterate the
--             positions and the iterator of src/object.c. Changes, Cache, Sync, Delete, Take, Sequence,
--             Merge and Convert.RoundTrip are about what these do.
--   Base      numbers, tests and lists that the parts share.
--
-- How they interact: a worker's queue and its queue of done tasks are queues of Queue, and all of a
-- worker's calls take the lock of a Monitor. A pool calls `stack` and `shutdown` of its workers and
-- adds up what their `collect_tasks` returns. A store's operations hold the monitor of the shared
-- object; `locks` is whether they obtain it. The handlers read and write through a store. What Store
-- and Copy take as the answer for an object of another thread is what Object's `object_connect` gives.
--
-- Bounds and fuel: machine words are numbers below 2 ^ 64 with their wrap-around written out, where
-- the code counts without a limit by the items that are allocated. `clean`, `resize`, `chunk` and
-- `each` run on fuel; the fuel that is enough is the number of items, of workers that go, and of
-- entries, and one more where the last round finds the end.
-- `pthreads_create_entry` takes fuel for the calls of one class for another, and the loop over the
-- ancestors of a class with static properties the number of addresses taken so far. The waits of a
-- monitor and of a worker take what each wakeup finds as a list.
--
-- Not modelled: in src/object.c the time between the registration and the filling of an object, of
-- which the worlds of Object.System are free, and the defaults of declared properties; in
-- src/prepare.c attributes, the table of a backed enumeration, types that name a class by its entry
-- and the end of a thread; in src/copy.c functions declared inside a function, attributes and the
-- entry of a closure in the function table; the method entries in classes other than pool.c and
-- worker.c; module start and stop (php_pthreads.c); a collector that calls its own worker again;
-- in src/handlers.c the cast; in src/store.c the release of storages. Reference counts of stored
-- values are left out of Store, the lock of the registry is always obtained, and memory is never
-- short.
pub mod Base
pub mod Zend
pub mod Queue
pub mod Monitor
pub mod Object
pub mod Copy
pub mod Globals
pub mod Thread
pub mod Worker
pub mod Pool
pub mod Store
pub mod Handlers
pub mod Prepare
