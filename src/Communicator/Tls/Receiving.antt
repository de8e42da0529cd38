-- ===== src/Communicator/Tls/Receiving.antt =====
-- src/communicator.c: what `recv_tls_data` stores, and that it ends.
use web_bench.Prelude.{
  ℕ, ◌+◌, ◌-◌, ◌≤◌, ◌≡◌, ◌⊎◌, inl, inr, refl, subst, true, List, [], ◌∷◌, ◌++◌, length, All, arith,
  ltb, leb, if_cases, leb→le, length-append,
}
use web_bench.Prelude.Int.{pos}
use web_bench.Connection.{want_read}
use web_bench.Communicator.{returned, failed, TlsRead}
use web_bench.Communicator.Tls.{TlsReceived, read_again, header_ends, recv_loop, recv_tls_data}

-- How many bytes the calls bring.
abbrev pub read_total : List TlsRead → ℕ
read_total [] = 0
read_total (r ∷ rs) = length r.bytes + read_total rs

-- `SSL_read` brings no more than the room that it is given, `room` bytes at first.
abbrev pub Within : ℕ → List TlsRead → Type 0
Within room [] = Unit
Within room (r ∷ rs) = (length r.bytes ≤ room) × Within (room - length r.bytes) rs

-- A call that brings no byte asks to be made again.
abbrev pub Again : TlsRead → Type 0
Again r = r.error ≡ want_read

Again-read_again : (r : TlsRead) → Again r → read_again r.error ≡ true
Again-read_again r e = rw e refl

-- The call ends with the header whole or the buffer full, or with an error that is not a request to
-- retry.
abbrev pub Stop : ℕ → List TlsRead → TlsReceived → Type 0
Stop size rs r =
    ((r.ended ≡ returned (pos (length r.buffer)))
      × ((header_ends r.buffer ≡ true) ⊎ (size - 1 ≤ length r.buffer)))
    ⊎ ((r.ended ≡ failed) × (All Again rs → ⊥))

-- The buffer keeps its last byte for the NUL.
pub record Stops (size : ℕ) (rs : List TlsRead) (r : TlsReceived) : Type 0 where
  pub bound : length r.buffer ≤ size - 1
  pub stop : Stop size rs r

later_Stop :
    (size : ℕ) (x : TlsRead) (rs : List TlsRead) (r : TlsReceived)
    → Stop size rs r
    → Stop size (x ∷ rs) r
later_Stop size x rs r (inl a) = inl a
later_Stop size x rs r (inr (e, k)) = inr (e, λ a. k a.1)

later_Stops :
    (size : ℕ) (x : TlsRead) (rs : List TlsRead) (r : TlsReceived)
    → Stops size rs r
    → Stops size (x ∷ rs) r
later_Stops size x rs r s = record { bound = s.bound; stop = later_Stop size x rs r s.stop }

recv_loop-Stops :
    (size : ℕ) (buffer : List ℕ) (rs : List TlsRead)
    → length buffer ≤ size - 1
    → Within (size - 1 - length buffer) rs
    → size - 1 ≤ length buffer + read_total rs
    → Stops size rs (recv_loop size buffer rs)
unfolding recv_loop
recv_loop-Stops size buffer [] b f h =
    if_cases (Stops size []) (leb (size - 1) (length buffer))
      (λ full. record { bound = b; stop = inl (refl, inr (leb→le _ _ full)) })
      (λ room. absurd (ground arith))
recv_loop-Stops size buffer (r ∷ rs) b f h =
    let longer_length : length (buffer ++ r.bytes) ≡ length buffer + length r.bytes =
      length-append buffer r.bytes in
    if_cases (Stops size (r ∷ rs)) (leb (size - 1) (length buffer))
      (λ full. record { bound = b; stop = inl (refl, inr (leb→le _ _ full)) })
      (λ _.
        if_cases (Stops size (r ∷ rs)) (ltb 0 (length r.bytes))
          (λ brought.
            let fits : length (buffer ++ r.bytes) ≤ size - 1 = let k = f.0 in omega arith in
            if_cases (Stops size (r ∷ rs)) (header_ends (buffer ++ r.bytes))
              (λ whole. record { bound = fits; stop = inl (refl, inl whole) })
              (λ _. later_Stops size r rs _ (
                recv_loop-Stops size (buffer ++ r.bytes) rs fits
                  (subst (λ k. Within k rs) (omega arith) f.1) (ground arith))))
          (λ nothing.
            if_cases (Stops size (r ∷ rs)) (read_again r.error)
              (λ _. later_Stops size r rs _ (
                recv_loop-Stops size buffer rs b
                  (subst (λ k. Within k rs) {x = size - 1 - length buffer - length r.bytes}
                    (ground arith) f.1)
                  (ground arith)))
              (λ gone. record { bound = b; stop = inr (refl, λ a. cc (Again-read_again r a.0)) })))

pub recv_tls_data-Stops :
    (size : ℕ) (rs : List TlsRead)
    → Within (size - 1) rs
    → size - 1 ≤ read_total rs
    → Stops size rs (recv_tls_data size rs)
unfolding recv_tls_data
recv_tls_data-Stops size rs f h =
    recv_loop-Stops size [] rs (omega arith)
      (subst (λ k. Within k rs) {x = size - 1} {y = size - 1 - 0} (omega arith) f) (omega arith)
