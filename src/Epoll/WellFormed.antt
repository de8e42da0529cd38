-- ===== src/Epoll/WellFormed.antt =====
-- src/bench_epoll.c: what holds of a connection between two calls, and what the handler relies on
-- the system for.
pub mod Lifecycle
pub mod Handler
use web_bench.Prelude.{
  ℕ, suc, ◌+◌, ◌-◌, ◌≤◌, ◌<◌, ◌≡◌, Bool, true, false, not, ◌&&◌, ◌||◌, Option, none, some, List, [],
  ◌∷◌, ◌==◌, length,
}
use web_bench.Prelude.Int.{is_positive, two_63}
use web_bench.Arguments.{Arguments, protocol_https}
use web_bench.Request.{request_body_size}
use web_bench.Connection.{
  ConnState, idle, connecting, proxy_connect, proxy_response, tls_handshake, sending, receiving,
  completed, error, Connection, Answers, Sent, count, refused, recv_buffer_size,
}
use web_bench.Epoll.Proxy.{connect_request}

-- The request that this connection is writing at the moment: the CONNECT request or the body.
abbrev pub written_length : Arguments → Connection → ConnState → ℕ
written_length args c proxy_connect = length (connect_request args.target_host args.target_port)
written_length args c _ = c.request_len

-- The greatest `bytes_sent` in a state.
abbrev pub sent_limit : Arguments → Connection → ConnState → ℕ
sent_limit args c idle = 0
sent_limit args c connecting = 0
sent_limit args c proxy_connect = length (connect_request args.target_host args.target_port) - 1
sent_limit args c proxy_response = 0
sent_limit args c tls_handshake = 0
sent_limit args c sending = c.request_len
sent_limit args c receiving = c.request_len
sent_limit args c completed = c.request_len
sent_limit args c error = two_63

-- The states in which a request goes over TLS, and those in which there is a socket.
abbrev pub is_transfer : ConnState → Bool
is_transfer sending = true
is_transfer receiving = true
is_transfer _ = false

abbrev pub is_active : ConnState → Bool
is_active idle = false
is_active completed = false
is_active error = false
is_active _ = true

pub record WellFormed (args : Arguments) (body : List ℕ) (c : Connection) : Type 0 where
  pub request : c.request ≡ body
  pub request_len : c.request_len ≡ length body
  pub short : length body < request_body_size
  pub secure : c.is_https ≡ (args.protocol == protocol_https)
  pub force : c.force_flag ≡ args.force
  pub received : c.bytes_received < recv_buffer_size
  pub response : length c.response ≡ c.bytes_received
  pub sent : c.bytes_sent ≤ sent_limit args c c.state
  pub tls : (not (c.is_https && is_transfer c.state) || c.ssl) ≡ true
  pub socket : (not (is_active c.state) || is_positive c.sockfd) ≡ true

abbrev pub sent_count : Sent → ℕ
sent_count (count n) = n
sent_count refused = 0

abbrev pub recv_count : Option (List ℕ) → ℕ
recv_count none = 0
recv_count (some bytes) = length bytes

-- `send`, `recv`, `read`, `SSL_write` and `SSL_read` take or give no more bytes than they are asked to.
pub record Obeys (args : Arguments) (a : Answers) (c : Connection) : Type 0 where
  pub send : sent_count a.send ≤ written_length args c c.state - c.bytes_sent
  pub ssl_write : sent_count a.ssl_write ≤ c.request_len - c.bytes_sent
  pub recv : recv_count a.recv ≤ recv_buffer_size - 1 - c.bytes_received
  pub ssl_read : recv_count a.ssl_read ≤ recv_buffer_size - 1 - c.bytes_received
