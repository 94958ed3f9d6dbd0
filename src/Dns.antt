-- ===== src/Dns.antt =====
-- NetwokDesign/coroutine/async_dns_client_noblock.c: a client that asks a name server for the
-- addresses of hosts. `Question` builds a request, `Name` reads an encoded name, `Response` reads a
-- reply, `Client` keeps the requests that wait for one.
pub mod Question
pub mod Name
pub mod Response
pub mod Client
mod Tests
