-- ===== src/Server.antt =====
-- NetwokDesign/coroutine/server_mulport_epoll.c: a server on many ports with a thread pool. `Links`
-- is the pair of list macros over a heap, `Pool` the work queue and its threads, `Io` the loops
-- that read and write a socket, `Loop` the event loop that feeds them.
pub mod Links
pub mod Pool
pub mod Io
pub mod Loop
mod Tests
