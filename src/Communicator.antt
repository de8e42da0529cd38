-- ===== src/Communicator.antt =====
-- src/communicator.c: one request over blocking calls, as a worker of the thread engine makes it.
--
-- Each call of the system or of OpenSSL that a loop repeats is answered from a list, one entry for
-- each call. When the list is used up the call still blocks, or the loop still goes on: the result is
-- `waiting`. The results keep the bytes that were taken and the descriptors that were closed. The
-- memory that OpenSSL frees and the messages are left out.
pub mod Tls
pub mod Socket
pub mod Talk
pub mod Closes
pub mod Walk
pub mod Ends
pub mod Reset
pub mod Force
use web_bench.Prelude.{ℕ, Bool, Option, List, [], ◌∷◌, ◌++◌}
use web_bench.Prelude.Int.{ℤ, minus_one}
use web_bench.Connection.{Sent, SslError}

-- How far a call has come.
pub data Ended : Type 0 where
  returned : ℤ → Ended
  waiting : Ended
  crashed : Ended  -- a NULL pointer was used

abbrev pub failed : Ended
failed = returned minus_one

-- An answer of `socket`, the descriptor or `none` for -1, and whether `connect` then succeeds.
pub record SocketCall : Type 0 where
  pub descriptor : Option ℕ
  pub connected : Bool

-- A call: its end, the descriptors that `socket` gave, the values that `close` was called with, and
-- the bytes that the system took.
pub record Talked : Type 0 where
  pub ended : Ended
  pub opened : List ℕ
  pub closed : List ℤ
  pub out : List ℕ

-- What is returned once the descriptor is closed.
abbrev pub close_and_return : ℤ → ℤ → List ℕ → Talked
close_and_return sockfd value out = record {
  ended = returned value;
  opened = [];
  closed = sockfd ∷ [];
  out = out;
}

abbrev pub without_call : Ended → Talked
without_call ended = record { ended = ended; opened = []; closed = []; out = [] }

-- What follows a call that has returned an `int`.
unfoldable pub followed_by : Talked → (ℤ → Talked) → Talked
followed_by t next = elim t.ended [
  | returned r ↦ record {
    ended = (next r).ended;
    opened = t.opened ++ (next r).opened;
    closed = t.closed ++ (next r).closed;
    out = t.out ++ (next r).out;
  }
  | waiting ↦ t
  | crashed ↦ t
]

-- An answer of `SSL_write` or `SSL_read`, with what `SSL_get_error` says where no bytes came.
pub record TlsWrite : Type 0 where
  pub sent : Sent
  pub error : SslError

pub record TlsRead : Type 0 where
  pub bytes : List ℕ
  pub error : SslError
