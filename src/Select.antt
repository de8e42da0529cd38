-- ===== src/Select.antt =====
-- src/bench_select.c: the event loop over `select`.
--
-- The cleaning up of a connection, its fields at the start and the TLS set-up without a tunnel are
-- written there as in the other engines. Lengths and counts of bytes are `int`s, which the sizes of
-- the buffers keep small: they are numbers here, without a wrap.
pub mod Proxy
pub mod Socket
pub mod Sets
pub mod Ready
pub mod Bench
