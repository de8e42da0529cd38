-- ===== src/Communicator/Tls.antt =====
-- src/communicator.c: `send_tls_data` and `recv_tls_data`.
--
-- `SSL_write` and `SSL_read` give no more than they are asked to, so the totals stay `int`s.
pub mod Sending
pub mod Receiving
use web_bench.Prelude.{
  ℕ, ◌+◌, ◌-◌, Bool, true, false, not, ◌||◌, Option, none, some, List, [], ◌∷◌, ◌++◌, length, take,
  drop, ltb, leb, if◌then◌else◌,
}
use web_bench.Prelude.Int.{ℤ, pos, negsuc}
use web_bench.CString.{codes, strstr, cut_nul}
use web_bench.Connection.{Sent, count, refused, SslError, want_read, want_write, fatal}
use web_bench.Communicator.{Ended, returned, waiting, failed, TlsWrite, TlsRead}

pub record TlsSent : Type 0 where
  pub ended : Ended
  pub out : List ℕ

-- The errors on which `send_tls_data` calls again.
abbrev pub write_again : SslError → Bool
write_again want_read = true
write_again want_write = true
write_again fatal = false

-- How many bytes a call has taken; 0 for a result that is not positive.
abbrev pub written : Sent → ℕ
written (count n) = n
written refused = 0

-- The loop, with `total` bytes sent.
unfoldable pub send_loop : List ℕ → ℕ → List TlsWrite → TlsSent
send_loop text total [] =
    if leb (length text) total
    then record { ended = returned (pos total); out = [] }
    else record { ended = waiting; out = [] }
send_loop text total (w ∷ ws) =
    let n = written w.sent in
    let more = send_loop text (total + n) ws in
    let again = send_loop text total ws in
    if leb (length text) total
    then record { ended = returned (pos total); out = [] }
    else if ltb 0 n
    then record more { out = take n (drop total text) ++ more.out }
    else if write_again w.error
    then again
    else record { ended = failed; out = [] }

-- `len` is the length of the text; a pointer to it that is NULL is never passed.
unfoldable pub send_tls_data : Bool → List ℕ → List TlsWrite → TlsSent
send_tls_data ssl text ws =
    if not ssl || leb (length text) 0
    then record { ended = failed; out = [] }
    else send_loop text 0 ws

pub record TlsReceived : Type 0 where
  pub ended : Ended
  pub buffer : List ℕ

abbrev pub read_again : SslError → Bool
read_again want_read = true
read_again want_write = false
read_again fatal = false

unfoldable pub header_ends : List ℕ → Bool
header_ends buffer = elim (strstr (cut_nul buffer) (codes "\r\n\r\n")) [
  | none ↦ false
  | some i ↦ true
]

-- The loop: `buffer` is what has been received.
unfoldable pub recv_loop : ℕ → List ℕ → List TlsRead → TlsReceived
recv_loop size buffer [] =
    if leb (size - 1) (length buffer)
    then record { ended = returned (pos (length buffer)); buffer = buffer }
    else record { ended = waiting; buffer = buffer }
recv_loop size buffer (r ∷ rs) =
    let longer = buffer ++ r.bytes in
    let more = recv_loop size longer rs in
    let again = recv_loop size buffer rs in
    if leb (size - 1) (length buffer)
    then record { ended = returned (pos (length buffer)); buffer = buffer }
    else if ltb 0 (length r.bytes)
    then (if header_ends longer
        then record { ended = returned (pos (length longer)); buffer = longer }
        else more)
    else if read_again r.error
    then again
    else record { ended = failed; buffer = buffer }

unfoldable pub recv_tls_data : ℕ → List TlsRead → TlsReceived
recv_tls_data size rs = recv_loop size [] rs
