-- ===== src/Communicator/Walk.antt =====
-- src/communicator.c: the ways in which a call of `communicate` ends.
use web_bench.Prelude.{
  ℕ, ◌≡◌, true, false, not, Option, none, some, List, [], arith, if_both, if_cases, length, ltb,
  ◌==◌, ◌&&◌,
}
use web_bench.Prelude.Int.{ℤ, pos, negsuc, minus_one, is_nonneg, is_positive}
use web_bench.Arguments.{Arguments, protocol_http, protocol_https}
use web_bench.Connection.{Sent, count, refused}
use web_bench.Epoll.Proxy.{connect_request, established, taken}
use web_bench.Communicator.{
  Ended, returned, waiting, crashed, failed, Talked, without_call, close_and_return, followed_by,
}
use web_bench.Communicator.Socket.{socket}
use web_bench.Communicator.Tls.{send_tls_data, recv_tls_data}
use web_bench.Communicator.Talk.{
  Calls, close_after, proxy_answer, proxy_request, proxy_talk, handle_proxy_connect, recv_response,
  response_size, http_response, http_talk, communicate_through_http, or_failed, https_response,
  https_talk, communicate_through_https, communicate,
}

-- A property of the end of a call.
record EndsBy (P : Ended → Type 0) (t : Talked) : Type 0 where
  end : P t.ended

-- A call that returns an `int` to the code that goes on; if it does not, the whole call ends so.
abbrev pub ReturnsOr : (Ended → Type 0) → Ended → Type 0
ReturnsOr P (returned r) = Unit
ReturnsOr P waiting = P waiting
ReturnsOr P crashed = P crashed

-- What ends a call, beside -1 and 0.
pub record Parts (P : Ended → Type 0) (calls : Calls) (force : ℕ) (body : List ℕ) : Type 0 where
  pub failure : P failed
  pub zero_reply : P (returned (pos 0))
  pub sockets : (port : ℤ) → ReturnsOr P (socket port calls.addresses calls.sockets).ended
  pub http : (force == 1) ≡ false → P (recv_response 0 calls.recvs)
  pub no_ssl : calls.ssl_new ≡ false → P crashed
  pub sending : ReturnsOr P (send_tls_data true body calls.ssl_writes).ended
  pub https :
      (force == 1) ≡ false → P (or_failed (recv_tls_data response_size calls.ssl_reads).ended)

module _ (P : Ended → Type 0) where
  followed_by-EndsBy :
      (e : Ended) (opened : List ℕ) (closed : List ℤ) (out : List ℕ) (next : ℤ → Talked)
      → ReturnsOr P e
      → ((r : ℤ) → EndsBy P (next r))
      → EndsBy P
          (followed_by (record { ended = e; opened = opened; closed = closed; out = out }) next)
  unfolding followed_by
  followed_by-EndsBy (returned r) opened closed out next h k = record { end = (k r).end }
  followed_by-EndsBy waiting opened closed out next h k = record { end = h }
  followed_by-EndsBy crashed opened closed out next h k = record { end = h }

  twice : (e : Ended) → ReturnsOr P e → ReturnsOr (ReturnsOr P) e
  twice (returned r) h = tt
  twice waiting h = h
  twice crashed h = h

-- The talk with the proxy always returns.
proxy_answer-EndsBy :
    (P : Ended → Type 0) (o : Option (List ℕ)) (out : List ℕ) (sockfd : ℤ)
    → EndsBy (ReturnsOr P) (proxy_answer o out sockfd)
unfolding proxy_answer
proxy_answer-EndsBy P none out sockfd = record { end = tt }
proxy_answer-EndsBy P (some response) out sockfd =
    if_both (EndsBy (ReturnsOr P)) (established response)
      {x = record { ended = returned sockfd; opened = []; closed = []; out = out }}
      {y = close_and_return sockfd minus_one out} (record { end = tt }) (record { end = tt })

proxy_request-EndsBy :
    (P : Ended → Type 0) (o : Option (List ℕ)) (s : Sent) (request : List ℕ) (sockfd : ℤ)
    → EndsBy (ReturnsOr P) (proxy_request o s request sockfd)
unfolding proxy_request
proxy_request-EndsBy P o refused request sockfd = record { end = tt }
proxy_request-EndsBy P o (count n) request sockfd =
    proxy_answer-EndsBy P o (taken (count n) request) sockfd

proxy_talk-EndsBy :
    (P : Ended → Type 0) (calls : Calls) (request : List ℕ) (sockfd : ℤ)
    → EndsBy (ReturnsOr P) (proxy_talk calls request sockfd)
unfolding proxy_talk
proxy_talk-EndsBy P calls request (negsuc n) = record { end = tt }
proxy_talk-EndsBy P calls request (pos fd) =
    proxy_request-EndsBy P calls.proxy_recv calls.proxy_send request (pos fd)

failed-EndsBy : (P : Ended → Type 0) → P failed → EndsBy P (without_call failed)
failed-EndsBy P h = record { end = h }

closed-EndsBy :
    (P : Ended → Type 0) (sockfd value : ℤ) (out : List ℕ)
    → P (returned value)
    → EndsBy P (close_and_return sockfd value out)
closed-EndsBy P sockfd value out h = record { end = h }

close_after-EndsBy :
    (P : Ended → Type 0) (sockfd : ℤ) (out : List ℕ) (e : Ended)
    → P e
    → EndsBy P (close_after sockfd out e)
close_after-EndsBy P sockfd out e h = record { end = h }

module _ (P : Ended → Type 0) (calls : Calls) (force : ℕ) (body : List ℕ)
    (parts : Parts P calls force body) where
  after_socket :
      (port : ℤ) (next : ℤ → Talked)
      → ((r : ℤ) → EndsBy P (next r))
      → EndsBy P (followed_by (socket port calls.addresses calls.sockets) next)
  after_socket port next k =
      let t = socket port calls.addresses calls.sockets in
      followed_by-EndsBy P t.ended t.opened t.closed t.out next (parts.sockets port) k

  handle_proxy_connect-EndsBy :
      (args : Arguments) → EndsBy (ReturnsOr P) (handle_proxy_connect calls args)
  unfolding handle_proxy_connect
  handle_proxy_connect-EndsBy args =
      let t = socket args.proxy_port calls.addresses calls.sockets in
      if_both (EndsBy (ReturnsOr P)) _ (failed-EndsBy (ReturnsOr P) tt) (
        followed_by-EndsBy (ReturnsOr P) t.ended t.opened t.closed t.out _
          (twice P t.ended (parts.sockets args.proxy_port))
          (proxy_talk-EndsBy P calls (connect_request args.target_host args.target_port)))

  http_response-EndsBy :
      (sockfd : ℤ) (s : Sent) → EndsBy P (http_response calls force body sockfd s)
  unfolding http_response
  http_response-EndsBy sockfd refused = closed-EndsBy P sockfd minus_one [] parts.failure
  http_response-EndsBy sockfd (count n) =
      if_cases (EndsBy P) (force == 1)
        (λ _. closed-EndsBy P sockfd (pos 0) (taken (count n) body) parts.zero_reply)
        (λ h. close_after-EndsBy P sockfd (taken (count n) body) _ (parts.http h))

  http_talk-EndsBy : (sockfd : ℤ) → EndsBy P (http_talk calls force body sockfd)
  unfolding http_talk
  http_talk-EndsBy (negsuc n) = failed-EndsBy P parts.failure
  http_talk-EndsBy (pos fd) = http_response-EndsBy (pos fd) calls.send

  https_response-EndsBy :
      (sockfd : ℤ) (e : Ended) (out : List ℕ)
      → ReturnsOr P e
      → EndsBy P (https_response calls force sockfd (record { ended = e; out = out }))
  unfolding https_response
  https_response-EndsBy sockfd (returned r) out h =
      if_both (EndsBy P) (not (is_nonneg r)) (closed-EndsBy P sockfd minus_one out parts.failure) (
        if_cases (EndsBy P) (force == 1) (λ _. closed-EndsBy P sockfd (pos 0) out parts.zero_reply)
          (λ h. close_after-EndsBy P sockfd out _ (parts.https h)))
  https_response-EndsBy sockfd waiting out h = record { end = h }
  https_response-EndsBy sockfd crashed out h = record { end = h }

  https_talk-EndsBy : (sockfd : ℤ) → EndsBy P (https_talk calls force body sockfd)
  unfolding https_talk
  https_talk-EndsBy sockfd =
      let sent = send_tls_data true body calls.ssl_writes in
      if_both (EndsBy P) (not calls.ctx_new) (closed-EndsBy P sockfd minus_one [] parts.failure) (
        if_cases (EndsBy P) (not calls.ssl_new)
          (λ none. record { end = parts.no_ssl (ground arith) })
          (λ _.
            if_both (EndsBy P) (not (is_positive calls.ssl_connect))
              (closed-EndsBy P sockfd minus_one [] parts.failure)
              (https_response-EndsBy sockfd sent.ended sent.out parts.sending)))

  communicate_through_http-EndsBy :
      (port : ℤ) → EndsBy P (communicate_through_http calls port force body)
  unfolding communicate_through_http
  communicate_through_http-EndsBy port =
      if_both (EndsBy P) (not (is_positive port)) (failed-EndsBy P parts.failure)
        (after_socket port _ http_talk-EndsBy)

communicate_through_https-EndsBy :
    (P : Ended → Type 0) (calls : Calls) (args : Arguments) (body : List ℕ)
    → Parts P calls args.force body
    → EndsBy P (communicate_through_https calls args body)
unfolding communicate_through_https
communicate_through_https-EndsBy P calls args body parts =
    let talk = https_talk calls args.force body in
    let tunnel = handle_proxy_connect calls args in
    let ends = https_talk-EndsBy P calls args.force body parts in
    if_both (λ (t : Talked). EndsBy P (followed_by t talk)) (not (length args.proxy_host == 0))
      (followed_by-EndsBy P tunnel.ended tunnel.opened tunnel.closed tunnel.out talk
        (handle_proxy_connect-EndsBy P calls args.force body parts args).end ends)
      (after_socket P calls args.force body parts args.target_port talk ends)

pub communicate-EndsBy :
    (P : Ended → Type 0) (calls : Calls) (args : Arguments) (body : List ℕ)
    → Parts P calls args.force body
    → P (communicate calls args body).ended
unfolding communicate
communicate-EndsBy P calls args body parts =
    let through = communicate_through_http-EndsBy P calls args.force body parts in
    (if_both (EndsBy P) (args.protocol == protocol_http)
      (if_both (EndsBy P) (ltb 0 (length args.proxy_host) && is_positive args.proxy_port)
        (through args.proxy_port) (through args.target_port))
      (if_both (EndsBy P) (args.protocol == protocol_https)
        (communicate_through_https-EndsBy P calls args body parts)
        (record { end = parts.zero_reply }))).end
