-- ===== src/Epoll/Proxy/Laws.antt =====
-- src/bench_epoll.c: one step of writing the CONNECT request, and of reading the proxy's answer.
use web_bench.Prelude.{
  ℕ, ◌+◌, ◌-◌, ◌≤◌, ◌<◌, ◌≡◌, ◌⊎◌, refl, ◌∙◌, Bool, true, false, List, length, take, drop, arith,
  ◌==◌, leb,
}
use web_bench.Prelude.Int.{pos, is_positive, add_size, sub_size, two_64}
use web_bench.CString.Laws.{length-snprintf}
use web_bench.Arguments.{Arguments}
use web_bench.Connection.{Connection, Answers, Handled, handled, count, refused, buffer_size}
use web_bench.Epoll.Proxy.{is_valid_port, connect_request, send_connect, send_proxy_connect}

pub length-connect_request :
    (args : Arguments) → length (connect_request args.target_host args.target_port) < buffer_size
unfolding connect_request
length-connect_request args = length-snprintf buffer_size _ (omega arith)

-- The settings and the connection with which the CONNECT request is written, as long as it is not all written.
pub record Tunnels (args : Arguments) (c : Connection) : Type 0 where
  pub proxy : (length args.proxy_host == 0) ≡ false
  pub target : (length args.target_host == 0) ≡ false
  pub proxy_port : is_valid_port args.proxy_port ≡ true
  pub target_port : is_valid_port args.target_port ≡ true
  pub socket : is_positive c.sockfd ≡ true
  pub sent : c.bytes_sent < length (connect_request args.target_host args.target_port)

module _ (args : Arguments) (a : Answers) (ctx : Bool) (c : Connection) (t : Tunnels args c) where
  abbrev pub request : List ℕ
  request = connect_request args.target_host args.target_port

  send_proxy_connect-sends : send_proxy_connect a ctx c args ≡ send_connect a ctx c request
  unfolding send_proxy_connect
  send_proxy_connect-sends =
      let room = length-connect_request args in
      let sent = t.sent in
      let some_left : (sub_size (length request) c.bytes_sent == 0) ≡ false = ground arith in
      rw (t.proxy, t.target, t.proxy_port, t.target_port, t.socket, some_left) refl

  -- A `send` that fails, on a connection that has written only a part of the CONNECT request, is taken for one of 18446744073709551615 bytes: before any byte is written, the function says that all of it is, and later it steps back by one byte and says that there is more to write. In neither case does it report the error, whatever `errno` says.
  pub send_proxy_connect-refused :
      a.send ≡ refused
      → (c.bytes_sent ≡ 0
          → send_proxy_connect a ctx c args ≡ handled (record c { bytes_sent = 0 }) ctx (pos 1))
        × (0 < c.bytes_sent
            → send_proxy_connect a ctx c args
              ≡ handled (record c { bytes_sent = c.bytes_sent - 1 }) ctx (pos 0))
  unfolding send_connect
  send_proxy_connect-refused r =
      let room = length-connect_request args in
      let sent = t.sent in
      (
        λ z.
            let wraps : leb (length request) (add_size c.bytes_sent (two_64 - 1)) ≡ true =
              ground arith in
            send_proxy_connect-sends ∙ rw r (rw wraps refl),
        λ p.
            let back : add_size c.bytes_sent (two_64 - 1) ≡ c.bytes_sent - 1 = omega arith in
            let less : leb (length request) (c.bytes_sent - 1) ≡ false = ground arith in
            send_proxy_connect-sends ∙ rw r (rw (back, less) refl),
      )

  -- A `send` that takes `n` bytes.
  pub record Step (n : ℕ) (h : Handled) : Type 0 where
    pub out : h.out ≡ take n (drop c.bytes_sent request)
    pub state : h.conn.state ≡ c.state
    pub sockfd : h.conn.sockfd ≡ c.sockfd
    pub moves :
        ((h.ret ≡ pos 1) × (h.conn.bytes_sent ≡ 0) × (length request ≤ c.bytes_sent + n))
        ⊎ ((h.ret ≡ pos 0)
            × (h.conn.bytes_sent ≡ c.bytes_sent + n)
            × (c.bytes_sent + n < length request))

  pub send_proxy_connect-Step :
      (n : ℕ)
      → a.send ≡ count n
      → 0 < n
      → n ≤ length request - c.bytes_sent
      → Step n (send_proxy_connect a ctx c args)
  unfolding send_connect
  send_proxy_connect-Step n s p k =
      let room = length-connect_request args in
      let sent = t.sent in
      let size : add_size c.bytes_sent n ≡ c.bytes_sent + n = omega arith in
      let some_taken : (n == 0) ≡ false = ground arith in
      rw send_proxy_connect-sends (rw s (rw (some_taken, size) (ground arith)))
