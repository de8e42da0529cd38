-- ===== src/Poll/Setup.antt =====
-- src/bench_poll.c: `setup_connection_fdsets`, which fills the array for `poll` and the bitmap.
--
-- The array of `pollfd`s is the list of the entries that are written, in order; it has room for every
-- connection. An access outside the bitmap is a fault.
pub mod Spec
pub mod Marks
use web_bench.Prelude.{
  ℕ, suc, Bool, true, false, not, Option, none, some, List, [], ◌∷◌, if◌then◌else◌, length, Outcome,
  done, fault, ◌>>=◌,
}
use web_bench.Prelude.Int.{ℤ, pos, minus_one, is_nonneg}
use web_bench.Arguments.{Arguments}
use web_bench.Connection.{
  Connection, ConnState, idle, connecting, proxy_connect, proxy_response, tls_handshake, sending,
  receiving, completed, error,
}
use web_bench.Bitmap.{set_bitmap}
use web_bench.Epoll.Socket.{Resolver}
use web_bench.Epoll.Setup.{Interest}
use web_bench.Poll.Socket.{cleanup_connection, allocate_socket}

-- An entry of the array, as it is handed to `poll`.
pub record PollFd : Type 0 where
  pub fd : ℤ
  pub events : Interest

-- POLLIN and POLLOUT; `none` for a state whose connection is not polled.
abbrev pub wanted : ConnState → Option Interest
wanted connecting = some (record { readable = false; writable = true })
wanted sending = some (record { readable = false; writable = true })
wanted proxy_connect = some (record { readable = false; writable = true })
wanted receiving = some (record { readable = true; writable = false })
wanted proxy_response = some (record { readable = true; writable = false })
wanted tls_handshake = some (record { readable = true; writable = true })
wanted idle = none
wanted completed = none
wanted error = none

-- The size that is passed to `set_bitmap`: in the handshake it is that of a pointer.
abbrev pub marked_size : ConnState → ℕ → ℕ
marked_size tls_handshake size = 8
marked_size _ size = size

-- A connection that is over starts anew; this round does not poll it. An idle one stays idle.
unfoldable pub restart : Resolver → Arguments → ConnState → Connection → Connection
restart resolve args completed conn =
    (allocate_socket resolve args (cleanup_connection conn).conn).conn
restart resolve args error conn = (allocate_socket resolve args (cleanup_connection conn).conn).conn
restart resolve args _ conn = conn

-- What the loop leaves: the connections, the entries, the bitmap, and whether no call of
-- `set_bitmap` has failed.
pub record FdSets : Type 0 where
  pub conns : List Connection
  pub polled : List PollFd
  pub bitmap : List ℕ
  pub ok : Bool

-- One connection in front of those that follow.
abbrev pub with_conn : Connection → FdSets → FdSets
with_conn c rest = record rest { conns = c ∷ rest.conns }

abbrev pub with_entry : Connection → Interest → FdSets → FdSets
with_entry c events rest = record rest {
  conns = c ∷ rest.conns;
  polled = record { fd = c.sockfd; events = events } ∷ rest.polled;
}

abbrev pub bytes_of : Option (List ℕ) → List ℕ → List ℕ
bytes_of none bitmap = bitmap
bytes_of (some bytes) bitmap = bytes

-- The loop, from index `i` on.
unfoldable pub setup_from :
    (ℕ → Resolver) → Arguments → ℕ → ℕ → List Connection → List ℕ → Outcome FdSets
setup_from resolve args size i [] bitmap =
    done (record { conns = []; polled = []; bitmap = bitmap; ok = true })
setup_from resolve args size i (c ∷ cs) bitmap = elim (wanted c.state) [
  | none ↦ setup_from resolve args size (suc i) cs bitmap >>= λ rest.
      done (with_conn (restart (resolve i) args c.state c) rest)
  | some events ↦ set_bitmap i (some bitmap) (pos (marked_size c.state size)) >>= λ r.
      elim (is_nonneg r.0) [
        | false ↦ done (record { conns = c ∷ cs; polled = []; bitmap = bitmap; ok = false })
        | true ↦ setup_from resolve args size (suc i) cs (bytes_of r.1 bitmap) >>= λ rest.
            done (with_entry c events rest)
      ]
]

-- `count` is the returned number, -1 for an error.
pub record SetupResult : Type 0 where
  pub conns : List Connection
  pub polled : List PollFd
  pub bitmap : List ℕ
  pub count : ℤ

unfoldable pub setup_result : FdSets → SetupResult
setup_result s = record {
  conns = s.conns;
  polled = s.polled;
  bitmap = s.bitmap;
  count = if s.ok then pos (length s.polled) else minus_one;
}

-- The guard looks at the descriptor of the first connection only. An array without a connection is
-- one that the guard reads outside of.
unfoldable pub setup_connection_fdsets :
    (ℕ → Resolver) → Arguments → List Connection → ℕ → List ℕ → Outcome SetupResult
setup_connection_fdsets resolve args [] size bitmap = fault
setup_connection_fdsets resolve args (c ∷ cs) size bitmap =
    if not (is_nonneg c.sockfd)
    then done (record { conns = c ∷ cs; polled = []; bitmap = bitmap; count = minus_one })
    else (setup_from resolve args size 0 (c ∷ cs) bitmap >>= λ s. done (setup_result s))
