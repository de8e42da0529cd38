-- ===== src/Poll/Bench/Safe.antt =====
-- src/bench_poll.c: every connection of a run of the poll engine stays well formed.
use web_bench.Arguments.{Arguments}
use web_bench.Epoll.WellFormed.{WellFormed}
