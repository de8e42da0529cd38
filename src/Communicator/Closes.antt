-- ===== src/Communicator/Closes.antt =====
-- src/communicator.c: every descriptor that a call of `communicate` opens is closed.
use web_bench.Prelude.{
  ℕ, zero, suc, ◌≡◌, refl, ap, sym, ◌∙◌, subst, true, not, Option, none, some, List, [], ◌∷◌, ◌++◌,
  append_assoc, append-nil, if_both, option_both, length, ltb, take, ◌==◌, ◌&&◌,
}
use web_bench.Prelude.Int.{ℤ, pos, negsuc, minus_one, is_nonneg, is_positive}
use web_bench.Arguments.{Arguments, protocol_http, protocol_https}
use web_bench.Connection.{Sent, count, refused}
use web_bench.Epoll.Proxy.{connect_request, established}
use web_bench.Communicator.{
  Ended, returned, waiting, crashed, failed, Talked, SocketCall, without_call, close_and_return,
  followed_by,
}
use web_bench.Communicator.Socket.{socket_loop, socket}
use web_bench.Communicator.Tls.{send_tls_data}
use web_bench.Communicator.Talk.{
  Calls, proxy_answer, proxy_request, proxy_talk, handle_proxy_connect, recv_response, close_after,
  http_response, http_talk, communicate_through_http, https_response, https_talk,
  communicate_through_https, communicate,
}

-- The descriptors among the values given to `close`.
abbrev pub descriptors : List ℤ → List ℕ
descriptors [] = []
descriptors (pos fd ∷ fds) = fd ∷ descriptors fds
descriptors (negsuc n ∷ fds) = descriptors fds

-- The descriptor that a result hands over.
abbrev handed : ℤ → List ℕ
handed (pos fd) = fd ∷ []
handed (negsuc n) = []

abbrev nothing : ℤ → List ℕ
nothing r = []

-- A call that begins with the descriptors `held` open and returns leaves open those that its result
-- hands over: it closes the others, in the order in which they were opened.
abbrev Balances : List ℕ → (ℤ → List ℕ) → Ended → List ℕ → List ℤ → Type 0
Balances held left (returned r) opened closed = descriptors closed ++ left r ≡ held ++ opened
Balances held left waiting opened closed = Unit
Balances held left crashed opened closed = Unit

record Balanced (held : List ℕ) (left : ℤ → List ℕ) (t : Talked) : Type 0 where
  balance : Balances held left t.ended t.opened t.closed

descriptors-append : (a b : List ℤ) → descriptors (a ++ b) ≡ descriptors a ++ descriptors b
descriptors-append [] b = refl
descriptors-append (pos fd ∷ a) b = ap (λ r. fd ∷ r) (descriptors-append a b)
descriptors-append (negsuc n ∷ a) b = descriptors-append a b

chain :
    (held : List ℕ) (left : ℤ → List ℕ) (r : ℤ) (opened : List ℕ) (closed : List ℤ) (e : Ended)
    (opened' : List ℕ) (closed' : List ℤ)
    → Balances held handed (returned r) opened closed
    → Balances (handed r) left e opened' closed'
    → Balances held left e (opened ++ opened') (closed ++ closed')
chain held left r opened closed (returned r') opened' closed' h k =
    ap (λ t. t ++ left r') (descriptors-append closed closed')
    ∙ append_assoc (descriptors closed) (descriptors closed') (left r')
    ∙ ap (λ t. descriptors closed ++ t) k
    ∙ sym (append_assoc (descriptors closed) (handed r) opened')
    ∙ ap (λ t. t ++ opened') h
    ∙ append_assoc held opened opened'
chain held left r opened closed waiting opened' closed' h k = tt
chain held left r opened closed crashed opened' closed' h k = tt

followed_by-Balanced :
    (held : List ℕ) (left : ℤ → List ℕ) (e : Ended) (opened : List ℕ) (closed : List ℤ)
    (out : List ℕ) (next : ℤ → Talked)
    → Balances held handed e opened closed
    → ((r : ℤ) → Balanced (handed r) left (next r))
    → Balanced held left
        (followed_by (record { ended = e; opened = opened; closed = closed; out = out }) next)
unfolding followed_by
followed_by-Balanced held left (returned r) opened closed out next h k = record {
  balance =
      chain held left r opened closed (next r).ended (next r).opened (next r).closed h
        (k r).balance;
}
followed_by-Balanced held left waiting opened closed out next h k = record { balance = tt }
followed_by-Balanced held left crashed opened closed out next h k = record { balance = tt }

failed-Balanced :
    (left : ℤ → List ℕ) (n : ℕ)
    → left minus_one ≡ []
    → Balanced (handed (negsuc n)) left (without_call failed)
failed-Balanced left n e = record { balance = e }

-- No descriptor is open, and none is handed over.
none-Balanced :
    (left : ℤ → List ℕ) (r : ℤ) → left r ≡ [] → Balanced [] left (without_call (returned r))
none-Balanced left r e = record { balance = e }

stuck-Balanced : (held : List ℕ) (left : ℤ → List ℕ) → Balanced held left (without_call waiting)
stuck-Balanced held left = record { balance = tt }

closed-Balanced :
    (left : ℤ → List ℕ) (sockfd value : ℤ) (out : List ℕ)
    → left value ≡ []
    → Balanced (handed sockfd) left (close_and_return sockfd value out)
closed-Balanced left (pos fd) value out e = record { balance = ap (λ t. fd ∷ t) e }
closed-Balanced left (negsuc n) value out e = record { balance = e }

connected-Balanced :
    (fd : ℕ)
    → Balanced [] handed
        (record { ended = returned (pos fd); opened = fd ∷ []; closed = []; out = [] })
connected-Balanced fd = record { balance = refl }

-- A descriptor that is opened and closed at once, before the rest.
closed_first-Balanced :
    (fd : ℕ) (e : Ended) (opened : List ℕ) (closed : List ℤ) (out : List ℕ)
    → Balances [] handed e opened closed
    → Balanced [] handed
        (record { ended = e; opened = fd ∷ opened; closed = pos fd ∷ closed; out = out })
closed_first-Balanced fd (returned r) opened closed out h = record { balance = ap (λ t. fd ∷ t) h }
closed_first-Balanced fd waiting opened closed out h = record { balance = tt }
closed_first-Balanced fd crashed opened closed out h = record { balance = tt }

socket_loop-Balanced : (n : ℕ) (calls : List SocketCall) → Balanced [] handed (socket_loop n calls)
unfolding socket_loop
socket_loop-Balanced zero calls = none-Balanced handed minus_one refl
socket_loop-Balanced (suc n) [] = stuck-Balanced [] handed
socket_loop-Balanced (suc n) (c ∷ calls) =
    let next = socket_loop n calls in
    option_both (Balanced [] handed) c.descriptor (socket_loop (suc n) calls) _
      (λ _. socket_loop-Balanced (suc n) calls)
      (λ fd _. if_both (Balanced [] handed) c.connected (connected-Balanced fd) (
        closed_first-Balanced fd next.ended next.opened next.closed next.out
          (socket_loop-Balanced n calls).balance))

socket-Balanced :
    (port : ℤ) (addresses : Option ℕ) (calls : List SocketCall)
    → Balanced [] handed (socket port addresses calls)
unfolding socket
socket-Balanced port none calls =
    if_both (Balanced [] handed) (not (is_positive port)) (none-Balanced handed minus_one refl)
      (none-Balanced handed minus_one refl)
socket-Balanced port (some n) calls =
    if_both (Balanced [] handed) (not (is_positive port)) (none-Balanced handed minus_one refl)
      (socket_loop-Balanced n calls)

-- A call of `Socket`, and what follows it.
after_socket :
    (left : ℤ → List ℕ) (port : ℤ) (addresses : Option ℕ) (calls : List SocketCall)
    (next : ℤ → Talked)
    → ((r : ℤ) → Balanced (handed r) left (next r))
    → Balanced [] left (followed_by (socket port addresses calls) next)
after_socket left port addresses calls next k =
    let t = socket port addresses calls in
    followed_by-Balanced [] left t.ended t.opened t.closed t.out next
      (socket-Balanced port addresses calls).balance k

proxy_answer-Balanced :
    (o : Option (List ℕ)) (out : List ℕ) (sockfd : ℤ)
    → Balanced (handed sockfd) handed (proxy_answer o out sockfd)
unfolding proxy_answer
proxy_answer-Balanced none out sockfd = closed-Balanced handed sockfd minus_one out refl
proxy_answer-Balanced (some response) out sockfd =
    if_both (Balanced (handed sockfd) handed) (established response)
      (record { balance = sym (append-nil (handed sockfd)) })
      (closed-Balanced handed sockfd minus_one out refl)

proxy_request-Balanced :
    (o : Option (List ℕ)) (s : Sent) (request : List ℕ) (sockfd : ℤ)
    → Balanced (handed sockfd) handed (proxy_request o s request sockfd)
unfolding proxy_request
proxy_request-Balanced o refused request sockfd = closed-Balanced handed sockfd minus_one [] refl
proxy_request-Balanced o (count n) request sockfd = proxy_answer-Balanced o _ sockfd

proxy_talk-Balanced :
    (calls : Calls) (request : List ℕ) (sockfd : ℤ)
    → Balanced (handed sockfd) handed (proxy_talk calls request sockfd)
unfolding proxy_talk
proxy_talk-Balanced calls request (negsuc n) = failed-Balanced handed n refl
proxy_talk-Balanced calls request (pos fd) =
    proxy_request-Balanced calls.proxy_recv calls.proxy_send request (pos fd)

handle_proxy_connect-Balanced :
    (calls : Calls) (args : Arguments) → Balanced [] handed (handle_proxy_connect calls args)
unfolding handle_proxy_connect
handle_proxy_connect-Balanced calls args =
    if_both (Balanced [] handed) _ (none-Balanced handed minus_one refl) (
      after_socket handed args.proxy_port calls.addresses calls.sockets _
        (proxy_talk-Balanced calls (connect_request args.target_host args.target_port)))

close_after-Balanced :
    (sockfd : ℤ) (out : List ℕ) (e : Ended)
    → Balanced (handed sockfd) nothing (close_after sockfd out e)
close_after-Balanced sockfd out (returned r) = closed-Balanced nothing sockfd r out refl
close_after-Balanced sockfd out waiting = record { balance = tt }
close_after-Balanced sockfd out crashed = record { balance = tt }

http_response-Balanced :
    (calls : Calls) (force : ℕ) (body : List ℕ) (sockfd : ℤ) (s : Sent)
    → Balanced (handed sockfd) nothing (http_response calls force body sockfd s)
unfolding http_response
http_response-Balanced calls force body sockfd refused =
    closed-Balanced nothing sockfd minus_one [] refl
http_response-Balanced calls force body sockfd (count n) =
    if_both (Balanced (handed sockfd) nothing) (force == 1)
      (closed-Balanced nothing sockfd (pos 0) (take n body) refl)
      (close_after-Balanced sockfd (take n body) (recv_response 0 calls.recvs))

http_talk-Balanced :
    (calls : Calls) (force : ℕ) (body : List ℕ) (sockfd : ℤ)
    → Balanced (handed sockfd) nothing (http_talk calls force body sockfd)
unfolding http_talk
http_talk-Balanced calls force body (negsuc n) = failed-Balanced nothing n refl
http_talk-Balanced calls force body (pos fd) =
    http_response-Balanced calls force body (pos fd) calls.send

https_response-Balanced :
    (calls : Calls) (force : ℕ) (sockfd : ℤ) (e : Ended) (out : List ℕ)
    → Balanced
        (handed sockfd)
        nothing
        (https_response calls force sockfd (record { ended = e; out = out }))
unfolding https_response
https_response-Balanced calls force sockfd (returned r) out =
    if_both (Balanced (handed sockfd) nothing) (not (is_nonneg r))
      (closed-Balanced nothing sockfd minus_one out refl)
      (if_both (Balanced (handed sockfd) nothing) (force == 1)
        (closed-Balanced nothing sockfd (pos 0) out refl) (close_after-Balanced sockfd out _))
https_response-Balanced calls force sockfd waiting out = record { balance = tt }
https_response-Balanced calls force sockfd crashed out = record { balance = tt }

https_talk-Balanced :
    (calls : Calls) (force : ℕ) (body : List ℕ) (sockfd : ℤ)
    → Balanced (handed sockfd) nothing (https_talk calls force body sockfd)
unfolding https_talk
https_talk-Balanced calls force body sockfd =
    let sent = send_tls_data true body calls.ssl_writes in
    if_both (Balanced (handed sockfd) nothing) (not calls.ctx_new)
      (closed-Balanced nothing sockfd minus_one [] refl)
      (if_both (Balanced (handed sockfd) nothing) (not calls.ssl_new) (record { balance = tt })
        (if_both (Balanced (handed sockfd) nothing) (not (is_positive calls.ssl_connect))
          (closed-Balanced nothing sockfd minus_one [] refl)
          (https_response-Balanced calls force sockfd sent.ended sent.out)))

communicate_through_http-Balanced :
    (calls : Calls) (port : ℤ) (force : ℕ) (body : List ℕ)
    → Balanced [] nothing (communicate_through_http calls port force body)
unfolding communicate_through_http
communicate_through_http-Balanced calls port force body =
    if_both (Balanced [] nothing) (not (is_positive port)) (none-Balanced nothing minus_one refl) (
      after_socket nothing port calls.addresses calls.sockets _
        (http_talk-Balanced calls force body))

communicate_through_https-Balanced :
    (calls : Calls) (args : Arguments) (body : List ℕ)
    → Balanced [] nothing (communicate_through_https calls args body)
unfolding communicate_through_https
communicate_through_https-Balanced calls args body =
    let talk = https_talk calls args.force body in
    let tunnel = handle_proxy_connect calls args in
    if_both (λ (t : Talked). Balanced [] nothing (followed_by t talk))
      (not (length args.proxy_host == 0))
      (followed_by-Balanced [] nothing tunnel.ended tunnel.opened tunnel.closed tunnel.out talk
        (handle_proxy_connect-Balanced calls args).balance
        (https_talk-Balanced calls args.force body))
      (after_socket nothing args.target_port calls.addresses calls.sockets talk
        (https_talk-Balanced calls args.force body))

communicate-Balanced :
    (calls : Calls) (args : Arguments) (body : List ℕ)
    → Balanced [] nothing (communicate calls args body)
unfolding communicate
communicate-Balanced calls args body =
    if_both (Balanced [] nothing) (args.protocol == protocol_http)
      (if_both (Balanced [] nothing) (ltb 0 (length args.proxy_host) && is_positive args.proxy_port)
        (communicate_through_http-Balanced calls args.proxy_port args.force body)
        (communicate_through_http-Balanced calls args.target_port args.force body))
      (if_both (Balanced [] nothing) (args.protocol == protocol_https)
        (communicate_through_https-Balanced calls args body) (none-Balanced nothing (pos 0) refl))

-- When `communicate` returns, on whatever path, the descriptors that it has closed are exactly those that `socket` gave it, in the same order and each once; the only other value that it passes to `close` is a negative one.
pub communicate-closes :
    (calls : Calls) (args : Arguments) (body : List ℕ) (r : ℤ)
    → (communicate calls args body).ended ≡ returned r
    → descriptors (communicate calls args body).closed ≡ (communicate calls args body).opened
communicate-closes calls args body r e =
    let t = communicate calls args body in
    let b =
      subst (λ x. Balances [] nothing x t.opened t.closed) e
        (communicate-Balanced calls args body).balance in
    sym (append-nil (descriptors t.closed)) ∙ b
