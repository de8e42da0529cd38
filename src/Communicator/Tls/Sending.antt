-- ===== src/Communicator/Tls/Sending.antt =====
-- src/communicator.c: what `send_tls_data` sends, and that it ends.
use web_bench.Prelude.{
  ℕ, ◌+◌, ◌≤◌, ◌<◌, ◌≡◌, ◌⊎◌, inl, inr, refl, ap, sym, ◌∙◌, subst, true, false, List, [], ◌∷◌, ◌++◌,
  length, take, drop, All, arith, ltb, leb, if_cases, ltb→ge, leb→le, append-nil, append_assoc,
  take-append_drop, take_all,
}
use web_bench.Prelude.Int.{pos}
use web_bench.Connection.{want_read, want_write}
use web_bench.Communicator.{returned, failed, TlsWrite}
use web_bench.Communicator.Tls.{TlsSent, write_again, written, send_loop, send_tls_data}

-- How many bytes the calls take.
abbrev pub sent_total : List TlsWrite → ℕ
sent_total [] = 0
sent_total (w ∷ ws) = written w.sent + sent_total ws

-- `SSL_write` takes no more than it is given.
abbrev pub Fits : List ℕ → ℕ → List TlsWrite → Type 0
Fits text total [] = Unit
Fits text total (w ∷ ws) =
    (total + written w.sent ≤ length text) × Fits text (total + written w.sent) ws

-- A call that takes no byte asks to be made again.
abbrev pub Retries : TlsWrite → Type 0
Retries w = (w.error ≡ want_read) ⊎ (w.error ≡ want_write)

Retries-write_again : (w : TlsWrite) → Retries w → write_again w.error ≡ true
Retries-write_again w (inl e) = rw e refl
Retries-write_again w (inr e) = rw e refl

-- The whole text is sent, or a first part of it before an error that is not a request to retry.
abbrev pub Sends : List ℕ → List TlsWrite → ℕ → TlsSent → Type 0
Sends text ws total r =
    ((r.ended ≡ returned (pos (length text))) × (take total text ++ r.out ≡ text))
    ⊎ ((n : ℕ) × (r.ended ≡ failed)
        × (take total text ++ r.out ≡ take n text)
        × (All Retries ws → ⊥))

abbrev Partly : List ℕ → ℕ → TlsSent → Type 0
Partly text total r = (n : ℕ) × (take total text ++ r.out ≡ take n text)

more_sent :
    (text out : List ℕ) (total n : ℕ) (whole : List ℕ)
    → total + n ≤ length text
    → take (total + n) text ++ out ≡ whole
    → take total text ++ (take n (drop total text) ++ out) ≡ whole
more_sent text out total n whole h e =
    sym (append_assoc (take total text) (take n (drop total text)) out)
    ∙ ap (λ t. t ++ out) (take-append_drop total n text h)
    ∙ e

-- At the end of the text.
sent_whole :
    (text : List ℕ) (total : ℕ) (ws : List TlsWrite)
    → total ≤ length text
    → leb (length text) total ≡ true
    → Sends text ws total (record { ended = returned (pos total); out = [] })
sent_whole text total ws b e =
    let le : length text ≤ total = leb→le (length text) total e in
    let eq : total ≡ length text = omega arith in
    inl (ap (λ k. returned (pos k)) eq, append-nil (take total text) ∙ take_all total text le)

later_Sends :
    (text : List ℕ) (total n : ℕ) (w : TlsWrite) (ws : List TlsWrite) (r : TlsSent)
    → total + n ≤ length text
    → Sends text ws (total + n) r
    → Sends text (w ∷ ws) total (record r { out = take n (drop total text) ++ r.out })
later_Sends text total n w ws r b (inl (e, whole)) =
    inl (e, more_sent text r.out total n text b whole)
later_Sends text total n w ws r b (inr (m, e, part, k)) =
    inr (m, e, more_sent text r.out total n (take m text) b part, λ a. k a.1)

again_Sends :
    (text : List ℕ) (total : ℕ) (w : TlsWrite) (ws : List TlsWrite) (r : TlsSent)
    → Sends text ws total r
    → Sends text (w ∷ ws) total r
again_Sends text total w ws r (inl s) = inl s
again_Sends text total w ws r (inr (m, e, part, k)) = inr (m, e, part, λ a. k a.1)

Fits-written :
    (text : List ℕ) (total : ℕ) (w : TlsWrite) (ws : List TlsWrite)
    → ltb 0 (written w.sent) ≡ false
    → Fits text (total + written w.sent) ws
    → Fits text total ws
Fits-written text total w ws z g =
    let zero_more : total + written w.sent ≡ total = omega (arith, ltb→ge 0 (written w.sent) z) in
    subst (λ k. Fits text k ws) zero_more g

send_loop-Sends :
    (text : List ℕ) (total : ℕ) (ws : List TlsWrite)
    → total ≤ length text
    → Fits text total ws
    → length text ≤ total + sent_total ws
    → Sends text ws total (send_loop text total ws)
unfolding send_loop
send_loop-Sends text total [] b f h =
    let e : leb (length text) total ≡ true = ground arith in rw e (sent_whole text total [] b e)
send_loop-Sends text total (w ∷ ws) b f h =
    if_cases (Sends text (w ∷ ws) total) (leb (length text) total)
      (sent_whole text total (w ∷ ws) b)
      (λ _.
        if_cases (Sends text (w ∷ ws) total) (ltb 0 (written w.sent))
          (λ some_taken.
            later_Sends text total (written w.sent) w ws _ f.0
              (send_loop-Sends text (total + written w.sent) ws f.0 f.1 (ground arith)))
          (λ none_taken.
            if_cases (Sends text (w ∷ ws) total) (write_again w.error)
              (λ _. again_Sends text total w ws _ (
                send_loop-Sends text total ws b (Fits-written text total w ws none_taken f.1)
                  (ground arith)))
              (λ gone.
                inr (
                  total,
                  refl,
                  append-nil (take total text),
                  λ a. cc (Retries-write_again w a.0),
                ))))

pub send_tls_data-Sends :
    (text : List ℕ) (ws : List TlsWrite)
    → 0 < length text
    → Fits text 0 ws
    → length text ≤ sent_total ws
    → Sends text ws 0 (send_tls_data true text ws)
unfolding send_tls_data
send_tls_data-Sends text ws h f k =
    let e : leb (length text) 0 ≡ false = ground arith in
    rw e (send_loop-Sends text 0 ws (omega arith) f (omega arith))
