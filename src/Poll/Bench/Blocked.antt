-- ===== src/Poll/Bench/Blocked.antt =====
-- src/bench_poll.c: a set-up that fails in every round from now on.
use web_bench.Prelude.{◌≡◌, false, List, [], ◌∷◌, length, ◌⊎◌}
use web_bench.Prelude.Int.{is_nonneg}
use web_bench.Arguments.{Arguments}
use web_bench.Connection.{Connection}
use web_bench.Epoll.Bench.{World, Totals, summarize}
use web_bench.Poll.Setup.Spec.{clear}

-- The first descriptor is negative, or a TLS handshake stands at an index of 64 or more.
abbrev pub Stuck : List Connection → Type 0
Stuck [] = ⊥
Stuck (c ∷ cs) = (is_nonneg c.sockfd ≡ false) ⊎ (clear 0 (c ∷ cs) ≡ false)

record SameCounters (c d : Connection) : Type 0 where
  failed : d.failed ≡ c.failed
  speed : d.speed ≡ c.speed
  bytes : d.bytes ≡ c.bytes

-- A later state of a loop that is stuck.
pub record Lost (w w' : World) : Type 0 where
  pub totals : (t : Totals) → summarize t w'.conns ≡ summarize t w.conns
  pub stuck : Stuck w'.conns
  pub ctx : w'.ctx ≡ w.ctx
  pub count : length w'.conns ≡ length w.conns
