-- ===== src/Lib.antt =====
-- The C and C++ programs of this repository that keep state of their own, modelled function by
-- function.
--
-- A C array is a list with checked access: `none` is an access outside an array, a call through a null
-- pointer or a read behind the end of a string. What the system answers (recv, send, poll, accept,
-- epoll_wait, malloc, random, inet_ntop) is an argument of the functions that ask, and the calls that a
-- server makes are a log. An `int` that can go below 0 is a ℤ of our own. What is printed is left out,
-- but for the ids of a reported cycle.
--
-- Base: tests, lists, loops over arrays, memory, the integers of a C `int`.
-- Net: the answers and the calls of the sockets, for the servers on epoll.
-- Deadlock: mycode/deadlock. Graph is the wait-for graph, whose code deadlock.c and deadlock-default.c
--   share; Cycle the search for a cycle, with the check_dead_lock of each file; Locks the lock table and the hooks of deadlock.c; Rela the
--   relation table and the hooks of deadlock-default.c. The hooks add and remove edges of the graph,
--   and check_dead_lock searches it. Each hook is one step; two hooks at once are not modelled.
-- Dns: NetwokDesign/coroutine/async_dns_client_noblock.c. Question builds a request, Name reads an
--   encoded name, Response a reply, and Client joins them with the epoll instance.
-- Reactor: NetwokDesign/multi-io/reactor.c, which is also mycode/reactor/reactor.c.
-- Webserver: NetwokDesign/multi-io/webserver.c, the branch that is compiled.
-- Server: NetwokDesign/coroutine/server_mulport_epoll.c. Links holds the list macros, Pool the work
--   queue and its threads as a step function over schedules, Io the loops nRecv and nSend, Loop the
--   event loop, which gives the data of a client to Pool or answers it through Io; the threads of the
--   pool take steps between two events.
-- Coroutine: the coroutines and the scheduler of NetwokDesign/coroutine/ucontext-backup.c.
-- RwLock: mycode/rwlock. The threads are counted by the place where they stand; a step is what a
--   thread does from taking the mutex to giving it back, or a wake-up of the condition variable.
--   Threads unlock only what they hold.
-- StringMatch: mycode/string_match, the searches of brute_force.cpp, kmp.cpp and rabin_karp.cpp. A
--   char is signed: the hashes of rabin_karp.cpp are integers. Occurs says what an occurrence is;
--   FallBack and Table are the table of kmp.cpp, Signed, Rolling and Window the hashes of
--   rabin_karp.cpp, on texts of bytes below 128, where they are numbers.
-- Queue: mycode/reactor/CircularQueue.h and CircularQueue.cpp. Holds is the list that the array
--   stands for. The capacity is a ℕ: that doubling it overflows no int is left out.
-- Pools: mycode/pool/ObjectPool.h and mycode/pool/memory_pool/FixedSizeMemryPool.h, for objects of at
--   least the size of a pointer, 8 bytes, whose first word the free list uses. FreeList and Owned are what the
--   two share. The client gives back and writes only what it holds.
-- Timer: mycode/timer/timer_with_timerfd.cpp. Order is the order of the set, Expiry the calls.
-- Dijkstra: the search of mycode/algorithm/Dijkstra.cpp, for weights that are not negative. Walks are
--   the walks through the graph, Lower and Relax the loop over the neighbours, Loop that over the heap.
-- Uring: the events of mycode/io_uring/io_uring.c. Pending counts the entries of a descriptor.
--
-- Names follow the source in antt's spelling: DFS is `dfs`, nRecv `n_recv`, listenfd `listenfd`,
-- worker_function the steps `enter`, `wake` and `finish` of Pool. A file below a component's holds
-- its proofs: Deadlock/Cycle/Exact, Dns/Name/Roundtrip. The files called Tests under the components
-- hold concrete inputs for the theorems; Base/Tests holds the Boolean tests of the programs.
--
-- Fuel. The depth-first search runs on num + 1 units: a path visits each of the num vertices once and
-- one of them a second time. dns_parse_name spends one unit on each label or pointer, since names
-- that point at one another are followed for ever; one more than a label each, and one for the end,
-- is enough for a name without pointers. skip_name spends one on each label. The loops of nRecv and
-- nSend and of the threads run over the list of the system's answers or of the threads' turns. The
-- scheduler of the coroutines spends one unit on each turn, of which there is one for each `count` up
-- to 30, and one on the test that ends its loop. bfMatch goes at most once through the pattern from
-- each start, and the inner loop of kmp.cpp lowers j; the other loops of the searches, the queue and
-- the pools are counted. In Dijkstra each push lowers an entry of dist, so twice the sum of these at
-- the start, and two, is enough.
--
-- Not modelled: the socket calls that set a listener up, the timing output, and the threads' start;
-- multi-io.c, the other coroutine samples, mul_port_client_epoll.c, q_fs.c, tcpclient.c;
-- GeneralSizeMemoryPool.h, which nothing can call yet, getShortestPath of
-- Dijkstra.cpp, and the other C++ programs.
pub mod Base
pub mod Net
pub mod Deadlock
pub mod Dns
pub mod Reactor
pub mod Webserver
pub mod Server
pub mod Coroutine
pub mod RwLock
pub mod StringMatch
pub mod Queue
pub mod Pools
pub mod Timer
pub mod Dijkstra
pub mod Uring
