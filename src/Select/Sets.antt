-- ===== src/Select/Sets.antt =====
-- src/bench_select.c: `setup_connection_fdsets`.
--
-- An `fd_set` is the list of its members. It has room for descriptors below FD_SETSIZE, 1024:
-- `FD_SET` with a greater one writes behind it.
use web_bench.Prelude.{
  ℕ, Bool, true, false, List, [], ◌∷◌, ltb, leb, ◌==◌, ◌||◌, if◌then◌else◌, Outcome, done, fault,
  ◌>>=◌,
}
use web_bench.Prelude.Int.{ℤ, pos, negsuc}
use web_bench.Connection.{
  Connection, ConnState, idle, connecting, proxy_connect, proxy_response, tls_handshake, sending,
  receiving, completed, error,
}

abbrev pub fd_setsize : ℕ
fd_setsize = 1024

unfoldable pub fd_set : ℕ → List ℕ → Outcome (List ℕ)
fd_set fd set = if ltb fd fd_setsize then done (fd ∷ set) else fault

-- `FD_ISSET`; a negative descriptor is in no set.
unfoldable pub fd_isset : ℤ → List ℕ → Bool
fd_isset (pos fd) [] = false
fd_isset (pos fd) (m ∷ set) = (m == fd) || fd_isset (pos fd) set
fd_isset (negsuc n) set = false

pub record FdSets : Type 0 where
  pub read : List ℕ
  pub write : List ℕ
  pub max_fd : ℕ

abbrev pub max_of : ℕ → ℕ → ℕ
max_of fd max_fd = if ltb max_fd fd then fd else max_fd

unfoldable pub set_read : ℕ → FdSets → Outcome FdSets
unfolding fd_set
set_read fd s = fd_set fd s.read >>= λ r. done (record s { read = r })

unfoldable pub set_write : ℕ → FdSets → Outcome FdSets
unfolding fd_set
set_write fd s = fd_set fd s.write >>= λ w. done (record s { write = w })

abbrev pub with_max : ℕ → FdSets → FdSets
with_max fd s = record s { max_fd = max_of fd s.max_fd }

-- The switch on the state; whether `ssl` is set.
unfoldable pub setup_state : ConnState → Bool → ℕ → FdSets → Outcome FdSets
setup_state connecting ssl fd s = set_write fd s >>= λ s'. done (with_max fd s')
setup_state sending ssl fd s = set_write fd s >>= λ s'. done (with_max fd s')
setup_state proxy_connect ssl fd s = set_write fd s >>= λ s'. done (with_max fd s')
setup_state receiving ssl fd s = set_read fd s >>= λ s'. done (with_max fd s')
setup_state proxy_response ssl fd s = set_read fd s >>= λ s'. done (with_max fd s')
setup_state tls_handshake true fd s =
    set_read fd s >>= λ s'. set_write fd s' >>= λ s''. done (with_max fd s'')
setup_state tls_handshake false fd s = done (with_max fd s)
setup_state idle ssl fd s = done s
setup_state completed ssl fd s = done s
setup_state error ssl fd s = done s

unfoldable pub setup_connection_fdsets : Connection → ℤ → FdSets → Outcome FdSets
setup_connection_fdsets conn (negsuc n) s = done s
setup_connection_fdsets conn (pos fd) s =
    if leb fd 0 then done s else setup_state conn.state conn.ssl fd s
