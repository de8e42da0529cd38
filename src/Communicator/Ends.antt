-- ===== src/Communicator/Ends.antt =====
-- src/communicator.c: `communicate` ends, and what it returns then.
use web_bench.Prelude.{
  ℕ, zero, suc, ◌+◌, ◌-◌, ◌≤◌, ◌<◌, ◌≡◌, refl, true, Option, none, some, List, [], ◌∷◌, length,
  arith, inl, inr,
}
use web_bench.Prelude.Int.{ℤ, pos, negsuc}
use web_bench.Arguments.{Arguments}
use web_bench.Communicator.{Ended, returned, waiting, crashed, SocketCall, TlsRead, TlsWrite}
use web_bench.Communicator.Socket.{socket_loop, socket, socket_count}
use web_bench.Communicator.Tls.{TlsSent, TlsReceived}
use web_bench.Communicator.Tls.Sending.{sent_total, Fits, Sends, send_tls_data-Sends}
use web_bench.Communicator.Tls.Receiving.{read_total, Within, Stop, recv_tls_data-Stops}
use web_bench.Communicator.Talk.{Calls, response_size, recv_response, or_failed, communicate}
use web_bench.Communicator.Walk.{ReturnsOr, communicate-EndsBy}

-- -1, or a number that fits into the buffer in front of its NUL.
abbrev pub Replies : Ended → Type 0
Replies (returned (pos n)) = n ≤ response_size - 1
Replies (returned (negsuc n)) = n ≡ 0
Replies waiting = ⊥
Replies crashed = ⊥

-- The calls of `recv`, after `total` bytes, bring no more than the room that they are given, and they
-- end the stream, fail or fill the room.
abbrev pub Delivers : ℕ → List (Option (List ℕ)) → Type 0
Delivers total [] = response_size - 1 ≤ total
Delivers total (none ∷ rs) = Unit
Delivers total (some bytes ∷ rs) =
    (total + length bytes ≤ response_size - 1)
    × (0 < length bytes → Delivers (total + length bytes) rs)

abbrev pub Reaches : Option ℕ → List SocketCall → Type 0
Reaches none calls = Unit
Reaches (some n) calls = n ≤ socket_count calls

-- Enough answers, and no more bytes than were asked for or given.
pub record Enough (calls : Calls) (body : List ℕ) : Type 0 where
  pub sockets : Reaches calls.addresses calls.sockets
  pub ssl_new : calls.ssl_new ≡ true
  pub nonempty : 0 < length body
  pub writes_fit : Fits body 0 calls.ssl_writes
  pub writes : length body ≤ sent_total calls.ssl_writes
  pub reads_fit : Within (response_size - 1) calls.ssl_reads
  pub reads : response_size - 1 ≤ read_total calls.ssl_reads
  pub recvs : Delivers 0 calls.recvs

socket_loop_returns :
    (n : ℕ) (calls : List SocketCall)
    → n ≤ socket_count calls
    → ReturnsOr Replies (socket_loop n calls).ended
unfolding socket_loop
socket_loop_returns zero calls h = tt
socket_loop_returns (suc n) [] h = omega arith
socket_loop_returns (suc n) (c ∷ calls) h =
    ground (arith, socket_loop_returns (suc n) calls, socket_loop_returns n calls)

socket_returns :
    (port : ℤ) (addresses : Option ℕ) (calls : List SocketCall)
    → Reaches addresses calls
    → ReturnsOr Replies (socket port addresses calls).ended
unfolding socket
socket_returns port none calls h = ground arith
socket_returns port (some n) calls h = ground (arith, socket_loop_returns n calls h)

recv_response-Replies :
    (total : ℕ) (rs : List (Option (List ℕ)))
    → total < response_size - 1
    → Delivers total rs
    → Replies (recv_response total rs)
unfolding recv_response
recv_response-Replies total [] b f = omega arith
recv_response-Replies total (none ∷ rs) b f = omega arith
recv_response-Replies total (some [] ∷ rs) b f = omega arith
recv_response-Replies total (some (x ∷ xs) ∷ rs) b f =
    ground (arith, recv_response-Replies (total + length (x ∷ xs)) rs, f.0, f.1 (omega arith))

received-Replies :
    (rs : List TlsRead) (r : TlsReceived)
    → length r.buffer ≤ response_size - 1
    → Stop response_size rs r
    → Replies (or_failed r.ended)
received-Replies rs r b (inl (e, k)) = rw e b
received-Replies rs r b (inr (e, k)) = rw e refl

sent_returns :
    (body : List ℕ) (ws : List TlsWrite) (r : TlsSent)
    → Sends body ws 0 r
    → ReturnsOr Replies r.ended
sent_returns body ws r (inl (e, k)) = rw e tt
sent_returns body ws r (inr (n, e, k, l)) = rw e tt

-- If the system gives a descriptor for each address, takes the whole body and brings a whole response, or the end of it, moving no more bytes in a call than it may, and OpenSSL gives an SSL object, then `communicate` with a body that is not empty ends in every mode: it returns -1 or a number of bytes from 0 to 8191.
pub communicate-Replies :
    (calls : Calls) (args : Arguments) (body : List ℕ)
    → Enough calls body
    → Replies (communicate calls args body).ended
communicate-Replies calls args body k = communicate-EndsBy Replies calls args body (record {
  failure = refl;
  zero_reply = omega arith;
  sockets = λ port. socket_returns port calls.addresses calls.sockets k.sockets;
  http = λ _. recv_response-Replies 0 calls.recvs (omega arith) k.recvs;
  no_ssl = λ h. cc (k.ssl_new);
  sending =
      sent_returns body calls.ssl_writes _
        (send_tls_data-Sends body calls.ssl_writes k.nonempty k.writes_fit k.writes);
  https = λ _.
      let s = recv_tls_data-Stops response_size calls.ssl_reads k.reads_fit k.reads in
      received-Replies calls.ssl_reads _ s.bound s.stop;
})
