-- ===== src/Epoll.antt =====
-- src/bench_epoll.c: the event loop over non-blocking connections.
--
-- `Tls` sets up TLS, `Proxy` opens the tunnel through a proxy, `Socket` opens and closes sockets,
-- `Ready` handles an event, `Setup` registers the connections and `Bench` is the loop.
pub mod Tls
pub mod Proxy
pub mod Ready
pub mod Socket
pub mod Setup
pub mod Bench
pub mod WellFormed
