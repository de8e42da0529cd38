-- ===== src/Tests/Blocking.antt =====
-- src/communicator.c: blocking calls at concrete answers of the system.
use web_bench.Prelude.{
  ℕ, zero, suc, ◌<◌, ◌≡◌, ◌↔◌, ◌%◌, refl, ap, true, false, none, some, List, [], ◌∷◌, length,
  replicate, map, arith,
}
use web_bench.Prelude.Int.{pos, two_32}
use web_bench.CString.{codes, strstr, cut_nul}
use web_bench.Arguments.{Arguments}
use web_bench.Connection.{count, refused, want_read, want_write, fatal}
use web_bench.Threads.{
  Counters, bench_with_no_racing, run_threads, bench_worker_no_racing, worker_loop,
  count_reply_no_racing, add_all,
}
use web_bench.Communicator.{returned, waiting, failed, SocketCall, TlsWrite, TlsRead, followed_by}
use web_bench.Communicator.Socket.{socket, socket_loop, NoneConnects, socket_count, socket-waits}
use web_bench.Communicator.Tls.{send_tls_data, send_loop, recv_tls_data, recv_loop, header_ends}
use web_bench.Communicator.Talk.{
  Calls, communicate, communicate_through_http, http_talk, http_response, recv_response,
}
use web_bench.Communicator.Closes.{descriptors, communicate-closes}
use web_bench.Communicator.Ends.{Replies, communicate-Replies}
use web_bench.Communicator.Reset.{after_error}
use web_bench.Communicator.Force.{call_count, bench_with_no_racing-force}

abbrev args : Arguments
args = record {
  clients = pos 2;
  force = 1;
  force_reload = 0;
  proxy_host = [];
  proxy_port = pos 80;
  target_host = codes "ab";
  target_port = pos 80;
  bench_time = pos 30;
  protocol = 0;
  http10 = 2;
  method = 0;
  url = codes "http://ab/";
}

abbrev body : List ℕ
body = codes "GET /"

abbrev write : ℕ → TlsWrite
write n = record { sent = count n; error = fatal }

abbrev busy : TlsWrite
busy = record { sent = refused; error = want_write }

-- Three bytes, a retry, and the other two.
abbrev writes : List TlsWrite
writes = write 3 ∷ (busy ∷ (write 2 ∷ []))

writes-sent : (send_tls_data true body writes).out ≡ body
unfolding send_tls_data send_loop
writes-sent = refl

-- The second call fails.
write_fails : (send_tls_data true body (write 3 ∷ (write 0 ∷ []))).ended ≡ failed
unfolding send_tls_data send_loop
write_fails = refl

abbrev read : List ℕ → TlsRead
read bytes = record { bytes = bytes; error = want_read }

-- The end of a header after a retry; four more bytes would fit.
abbrev reads : List TlsRead
reads = read (codes "OK\r\n") ∷ (read [] ∷ (read (codes "\r\n") ∷ (read (codes "body") ∷ [])))

reads-stop : (recv_tls_data 11 reads).ended ≡ returned (pos 6)
unfolding recv_tls_data recv_loop header_ends strstr cut_nul
reads-stop = refl

abbrev no_descriptor : SocketCall
no_descriptor = record { descriptor = none; connected = false }

abbrev unreachable : SocketCall
unreachable = record { descriptor = some 3; connected = false }

abbrev reachable : SocketCall
reachable = record { descriptor = some 4; connected = true }

socket-waits_example :
    ((socket (pos 80) (some 2) (unreachable ∷ (no_descriptor ∷ []))).ended ≡ waiting) ↔ (
      NoneConnects (unreachable ∷ (no_descriptor ∷ []))
      × (socket_count (unreachable ∷ (no_descriptor ∷ [])) < 2))
socket-waits_example = socket-waits (pos 80) 2 (unreachable ∷ (no_descriptor ∷ [])) refl

second_address :
    socket (pos 80) (some 2) (unreachable ∷ (reachable ∷ []))
    ≡ record { ended = returned (pos 4); opened = 3 ∷ (4 ∷ []); closed = pos 3 ∷ []; out = [] }
unfolding socket socket_loop
second_address = refl

abbrev calls : Calls
calls = record {
  addresses = some 2;
  sockets = unreachable ∷ (reachable ∷ []);
  proxy_send = refused;
  proxy_recv = none;
  ctx_new = true;
  ssl_new = true;
  ssl_connect = pos 1;
  ssl_writes = writes;
  ssl_reads = read (replicate 8191 0) ∷ [];
  send = count 5;
  recvs = some (codes "OK") ∷ (some [] ∷ []);
}

forced : (communicate calls args body).ended ≡ returned (pos 0)
unfolding communicate communicate_through_http socket socket_loop followed_by http_talk
    http_response
forced = refl

communicate-closes_example :
    descriptors (communicate calls args body).closed ≡ (communicate calls args body).opened
communicate-closes_example = communicate-closes calls args body (pos 0) forced

length-replicate : (n a : ℕ) → length (replicate n a) ≡ n
length-replicate zero a = refl
length-replicate (suc n) a = ap suc (length-replicate n a)

communicate-Replies_example : Replies (communicate calls (record args { force = 0 }) body).ended
communicate-Replies_example =
    communicate-Replies calls (record args { force = 0 }) body
      (record {
        sockets = omega arith;
        ssl_new = refl;
        nonempty = omega arith;
        writes_fit = (omega arith, (omega arith, (omega arith, tt)));
        writes = omega arith;
        reads_fit = (omega (arith, length-replicate 8191 0), tt);
        reads = omega (arith, length-replicate 8191 0);
        recvs = (omega arith, λ p. (omega arith, λ q. absurd (omega arith)));
      })

-- The connection is reset after two bytes of the response.
reset_counts :
    (communicate (after_error [] calls (codes "HT" ∷ [])) (record args { force = 0 }) body).ended
    ≡ returned (pos 2)
unfolding communicate communicate_through_http socket socket_loop followed_by http_talk
    http_response recv_response
reset_counts = refl

abbrev failures : Counters
failures = record { speed = 0; failed = 1; bytes = 0 }

one_worker : bench_with_no_racing true (map some ((pos 0 ∷ []) ∷ [])) ≡ some failures
unfolding bench_with_no_racing run_threads bench_worker_no_racing worker_loop count_reply_no_racing
    add_all
one_worker = refl

bench_with_no_racing-force_example :
    (failures.speed ≡ 0)
    × (failures.bytes ≡ 0)
    × (failures.failed ≡ call_count ((calls ∷ []) ∷ []) % two_32)
bench_with_no_racing-force_example =
    bench_with_no_racing-force args body ((calls ∷ []) ∷ []) ((pos 0 ∷ []) ∷ []) failures refl
      ((forced, tt), tt) one_worker
