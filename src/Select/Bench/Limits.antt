-- ===== src/Select/Bench/Limits.antt =====
-- src/bench_select.c: the descriptors that fit into an `fd_set`.
use web_bench.Prelude.{
  ℕ, suc, ◌≡◌, refl, Bool, true, false, not, ◌&&◌, ◌||◌, List, [], ◌∷◌, ltb, leb, All, arith,
  Outcome, done, exit, fault, ◌>>=◌, subst, Bool-cases, inl, inr,
}
use web_bench.Prelude.Int.{ℤ, pos, negsuc}
use web_bench.Arguments.{Arguments}
use web_bench.Connection.{
  Connection, ConnState, idle, connecting, proxy_connect, proxy_response, tls_handshake, sending,
  receiving, completed, error,
}
use web_bench.Epoll.Socket.{Resolver}
use web_bench.Select.Sets.{
  FdSets, fd_setsize, setup_connection_fdsets, setup_state, set_read, set_write, fd_set,
}
use web_bench.Select.Bench.{restart, setup_all}

-- The connection is entered in a set.
abbrev pub is_watched : ConnState → Bool → Bool
is_watched connecting ssl = true
is_watched sending ssl = true
is_watched proxy_connect ssl = true
is_watched receiving ssl = true
is_watched proxy_response ssl = true
is_watched tls_handshake ssl = ssl
is_watched idle ssl = false
is_watched completed ssl = false
is_watched error ssl = false

-- Its descriptor has a place in the sets, or is not entered.
abbrev pub has_place : ConnState → Bool → ℤ → Bool
has_place s ssl (pos fd) = not (is_watched s ssl) || ltb fd fd_setsize
has_place s ssl (negsuc n) = true

unfoldable pub all_have_place : List Connection → Bool
all_have_place [] = true
all_have_place (c ∷ cs) = has_place c.state c.ssl c.sockfd && all_have_place cs

abbrev pub is_over : ConnState → Bool
is_over completed = true
is_over error = true
is_over _ = false

abbrev pub NotOver : Connection → Type 0
NotOver c = is_over c.state ≡ false

-- A call that returns, or that accesses memory out of bounds, as the test says.
abbrev pub Settles {ℓ} : {A : Type ℓ} → Bool → Outcome A → Type 0
Settles true (done a) = Unit
Settles true (exit n) = ⊥
Settles true fault = ⊥
Settles false (done a) = ⊥
Settles false (exit n) = ⊥
Settles false fault = Unit

>>=-Settles {ℓ κ} :
    {A : Type ℓ} {B : Type κ} (b b' : Bool) (m : Outcome A) (f : A → Outcome B)
    → Settles b m
    → ((a : A) → Settles b' (f a))
    → Settles (b && b') (m >>= f)
>>=-Settles true b' (done a) f h k = k a
>>=-Settles true b' (exit n) f h k = absurd h
>>=-Settles true b' fault f h k = absurd h
>>=-Settles false b' (done a) f h k = absurd h
>>=-Settles false b' (exit n) f h k = absurd h
>>=-Settles false b' fault f h k = tt

fd_set-Settles : (fd : ℕ) (set : List ℕ) → Settles (ltb fd fd_setsize) (fd_set fd set)
unfolding fd_set
fd_set-Settles fd set = elim (Bool-cases (ltb fd fd_setsize)) [ inl e ↦ rw e tt | inr e ↦ rw e tt ]

-- The end of a sequence, which always returns.
ends {ℓ κ} :
    {A : Type ℓ} {B : Type κ} (b : Bool) (m : Outcome A) (f : A → B)
    → Settles b m
    → Settles b (m >>= λ a. done (f a))
ends true (done a) f h = tt
ends true (exit n) f h = absurd h
ends true fault f h = absurd h
ends false (done a) f h = absurd h
ends false (exit n) f h = absurd h
ends false fault f h = tt

set_read-Settles : (fd : ℕ) (s : FdSets) → Settles (ltb fd fd_setsize) (set_read fd s)
unfolding set_read
set_read-Settles fd s = ends (ltb fd fd_setsize) (fd_set fd s.read) _ (fd_set-Settles fd s.read)

set_write-Settles : (fd : ℕ) (s : FdSets) → Settles (ltb fd fd_setsize) (set_write fd s)
unfolding set_write
set_write-Settles fd s = ends (ltb fd fd_setsize) (fd_set fd s.write) _ (fd_set-Settles fd s.write)

both : (b : Bool) → (b && b) ≡ b
both true = refl
both false = refl

setup_state-Settles :
    (s : ConnState) (ssl : Bool) (fd : ℕ) (sets : FdSets)
    → Settles (not (is_watched s ssl) || ltb fd fd_setsize) (setup_state s ssl fd sets)
unfolding setup_state
setup_state-Settles connecting ssl fd sets =
    ends _ (set_write fd sets) _ (set_write-Settles fd sets)
setup_state-Settles sending ssl fd sets = ends _ (set_write fd sets) _ (set_write-Settles fd sets)
setup_state-Settles proxy_connect ssl fd sets =
    ends _ (set_write fd sets) _ (set_write-Settles fd sets)
setup_state-Settles receiving ssl fd sets = ends _ (set_read fd sets) _ (set_read-Settles fd sets)
setup_state-Settles proxy_response ssl fd sets =
    ends _ (set_read fd sets) _ (set_read-Settles fd sets)
setup_state-Settles tls_handshake true fd sets =
    subst (λ b. Settles b (setup_state tls_handshake true fd sets)) (both (ltb fd fd_setsize))
      (>>=-Settles _ _ (set_read fd sets) _ (set_read-Settles fd sets)
        (λ s. ends _ (set_write fd s) _ (set_write-Settles fd s)))
setup_state-Settles tls_handshake false fd sets = tt
setup_state-Settles idle ssl fd sets = tt
setup_state-Settles completed ssl fd sets = tt
setup_state-Settles error ssl fd sets = tt

setup_connection_fdsets-Settles :
    (c : Connection) (sockfd : ℤ) (sets : FdSets)
    → Settles (has_place c.state c.ssl sockfd) (setup_connection_fdsets c sockfd sets)
unfolding setup_connection_fdsets
setup_connection_fdsets-Settles c (negsuc n) sets = tt
setup_connection_fdsets-Settles c (pos fd) sets = elim (Bool-cases (leb fd 0)) [
  | inl zero ↦
      let small : ltb fd fd_setsize ≡ true = ground arith in
      let fits : (not (is_watched c.state c.ssl) || ltb fd fd_setsize) ≡ true = ground arith in
      rw (zero, fits) tt
  | inr more ↦ rw more (setup_state-Settles c.state c.ssl fd sets)
]

restart-not_over :
    (resolve : Resolver) (args : Arguments) (s : ConnState) (c : Connection)
    → is_over s ≡ false
    → restart resolve args s c ≡ done c
unfolding restart
restart-not_over resolve args completed c h = cc
restart-not_over resolve args error c h = cc
restart-not_over resolve args idle c h = refl
restart-not_over resolve args connecting c h = refl
restart-not_over resolve args proxy_connect c h = refl
restart-not_over resolve args proxy_response c h = refl
restart-not_over resolve args tls_handshake c h = refl
restart-not_over resolve args sending c h = refl
restart-not_over resolve args receiving c h = refl

-- The set-up of a round in which no connection has to be restarted returns exactly when every connection that is entered in a set has a descriptor below FD_SETSIZE; otherwise `FD_SET` writes behind the set. The number of connections, which is what `bench_select` limits, plays no part in it.
pub setup_all-Settles :
    (resolve : ℕ → Resolver) (args : Arguments) (i : ℕ) (cs : List Connection) (sets : FdSets)
    → All NotOver cs
    → Settles (all_have_place cs) (setup_all resolve args i cs sets)
unfolding setup_all all_have_place
setup_all-Settles resolve args i [] sets h = tt
setup_all-Settles resolve args i (c ∷ cs) sets h =
    rw (restart-not_over (resolve i) args c.state c h.0) (
      >>=-Settles (has_place c.state c.ssl c.sockfd) (all_have_place cs)
        (setup_connection_fdsets c c.sockfd sets) _
        (setup_connection_fdsets-Settles c c.sockfd sets)
        (λ sets'.
          ends (all_have_place cs) (setup_all resolve args (suc i) cs sets') _
            (setup_all-Settles resolve args (suc i) cs sets' h.1)))
