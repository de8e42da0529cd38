-- ===== src/Connection.antt =====
-- src/bench_epoll.c: the connection, its states, and what the system answers.
--
-- A NULL pointer that no caller passes has no counterpart here; `ssl` and `ssl_context` say whether
-- the pointer is set. `response` holds the bytes of `received_response` up to the last NUL that was
-- written, so a read of it as a string stops at its first 0 byte. `size_t` fields wrap at 2 ^ 64,
-- and the counters, `int`s, are held as their 32 bits.
use web_bench.Prelude.{ℕ, Bool, Option, List, []}
use web_bench.Prelude.Int.{ℤ, add_int}

pub data ConnState : Type 0 where
  idle connecting proxy_connect proxy_response tls_handshake sending receiving completed error :
      ConnState

pub record Connection : Type 0 where
  pub state : ConnState
  pub sockfd : ℤ
  pub ssl_context : Bool
  pub ssl : Bool
  pub is_https : Bool
  pub request : List ℕ
  pub response : List ℕ
  pub request_len : ℕ
  pub force_flag : ℕ
  pub bytes_sent : ℕ
  pub bytes_received : ℕ
  pub speed : ℕ
  pub failed : ℕ
  pub bytes : ℕ

abbrev pub max_connections : ℕ
max_connections = 1000

abbrev pub recv_buffer_size : ℕ
recv_buffer_size = 8096

abbrev pub buffer_size : ℕ
buffer_size = 1024

-- `errno` after a failed call: EAGAIN or EWOULDBLOCK, or anything else.
pub data Errno : Type 0 where
  again other : Errno

-- What `SSL_get_error` tells apart.
pub data SslError : Type 0 where
  want_read want_write fatal : SslError

-- `send` and `SSL_write`: how many bytes were taken, or -1.
pub data Sent : Type 0 where
  count : ℕ → Sent
  refused : Sent

-- The answers of the operating system and of OpenSSL during one call of a handler, which makes each
-- of these calls at most once. A read answers the bytes, `none` for -1.
pub record Answers : Type 0 where
  pub ctl_del : Bool
  pub getsockopt : ℤ
  pub so_error : ℤ
  pub ctx_new : Bool
  pub ssl_new : Bool
  pub ssl_set_fd : Bool
  pub send : Sent
  pub recv : Option (List ℕ)
  pub errno : Errno
  pub ssl_connect : ℤ
  pub ssl_write : Sent
  pub ssl_read : Option (List ℕ)
  pub ssl_error : SslError

-- A set of events.
pub record Events : Type 0 where
  pub readable : Bool
  pub writable : Bool
  pub broken : Bool  -- an error or a hang-up

-- A call of a handler: the connection, the global SSL context, the returned `int`, and the bytes that
-- the system took.
pub record Handled : Type 0 where
  pub conn : Connection
  pub ctx : Bool
  pub ret : ℤ
  pub out : List ℕ

abbrev pub handled : Connection → Bool → ℤ → Handled
handled conn ctx ret = record { conn = conn; ctx = ctx; ret = ret; out = [] }

-- `conn->state = CONN_ERROR; conn->failed++`.
abbrev pub fail : Connection → Connection
fail conn = record conn { state = ConnState.error; failed = add_int conn.failed 1 }

-- A response was received: it is counted.
abbrev pub succeed : Connection → Connection
succeed conn = record conn {
  state = ConnState.completed;
  speed = add_int conn.speed 1;
  bytes = add_int conn.bytes conn.bytes_received;
}
