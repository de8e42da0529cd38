-- ===== src/Poll.antt =====
-- src/bench_poll.c: the event loop over `poll`.
--
-- What bench_poll.c writes as bench_epoll.c does, word for word, is one definition, under `Epoll`:
-- the set-up of TLS, the loop over the addresses of a host, the sending of the request, the reading
-- of the response, and the sums at the end. What differs is defined here: `Proxy` opens the tunnel,
-- `Socket` opens and closes sockets, `Ready` handles the events of a descriptor, `Setup` fills the
-- array for `poll` and the bitmap, and `Bench` is the loop.
pub mod Proxy
pub mod Socket
pub mod Ready
pub mod Setup
pub mod Bench
pub mod WellFormed
