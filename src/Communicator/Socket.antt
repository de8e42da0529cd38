-- ===== src/Communicator/Socket.antt =====
-- src/communicator.c: `Socket`, and when it ends.
use web_bench.Prelude.{
  ℕ, zero, suc, ◌+◌, ◌<◌, ◌≡◌, ◌↔◌, refl, Bool, true, false, Option, none, some, List, [], ◌∷◌,
  arith, not, if◌then◌else◌,
}
use web_bench.Prelude.Int.{ℤ, pos, is_positive}
use web_bench.Communicator.{returned, waiting, failed, SocketCall, Talked, without_call}

-- The loop, with the number of addresses left; one answer for each call of `socket`.
unfoldable pub socket_loop : ℕ → List SocketCall → Talked
socket_loop zero calls = without_call failed
socket_loop (suc n) [] = without_call waiting
socket_loop (suc n) (c ∷ calls) =
    let again = socket_loop (suc n) calls in
    let next = socket_loop n calls in
    elim c.descriptor [
      | none ↦ again
      | some fd ↦
          if c.connected
          then record { ended = returned (pos fd); opened = fd ∷ []; closed = []; out = [] }
          else record next { opened = fd ∷ next.opened; closed = pos fd ∷ next.closed }
    ]

-- `addresses` is how many addresses `getaddrinfo` finds, `none` for an error.
unfoldable pub socket : ℤ → Option ℕ → List SocketCall → Talked
socket port addresses calls =
    if not (is_positive port)
    then without_call failed
    else elim addresses [ none ↦ without_call failed | some n ↦ socket_loop n calls ]

-- How many of the calls of `socket` gave a descriptor.
abbrev pub socket_count : List SocketCall → ℕ
socket_count [] = 0
socket_count (c ∷ cs) = elim c.descriptor [ none ↦ socket_count cs | some fd ↦ socket_count cs + 1 ]

-- No descriptor, or no connection.
abbrev pub connects : SocketCall → Bool
connects c = elim c.descriptor [ none ↦ false | some fd ↦ c.connected ]

abbrev pub NoneConnects : List SocketCall → Type 0
NoneConnects [] = Unit
NoneConnects (c ∷ cs) = (connects c ≡ false) × NoneConnects cs

socket_loop-waits :
    (n : ℕ) (calls : List SocketCall)
    → NoneConnects calls
    → socket_count calls < n
    → (socket_loop n calls).ended ≡ waiting
unfolding socket_loop
socket_loop-waits zero calls k h = absurd (omega arith)
socket_loop-waits (suc n) [] k h = refl
socket_loop-waits (suc n) (c ∷ calls) k h =
    ground (arith, socket_loop-waits (suc n) calls k.1, socket_loop-waits n calls k.1)

socket_loop-blocked :
    (n : ℕ) (calls : List SocketCall)
    → (socket_loop n calls).ended ≡ waiting
    → NoneConnects calls × (socket_count calls < n)
unfolding socket_loop
socket_loop-blocked zero calls e = cc
socket_loop-blocked (suc n) [] e = (tt, omega arith)
socket_loop-blocked (suc n) (c ∷ calls) e =
    ground (arith, socket_loop-blocked (suc n) calls, socket_loop-blocked n calls)

-- `Socket`, on a valid port and with `n` addresses found, still goes on after the given answers exactly when none of them led to a connection and `socket` gave a descriptor fewer than `n` times: a call that fails with -1 never moves on to the next address.
pub socket-waits :
    (port : ℤ) (n : ℕ) (calls : List SocketCall)
    → is_positive port ≡ true
    → ((socket port (some n) calls).ended ≡ waiting)
      ↔ (NoneConnects calls × (socket_count calls < n))
unfolding socket
socket-waits port n calls p =
    rw p (socket_loop-blocked n calls, λ h. socket_loop-waits n calls h.0 h.1)
