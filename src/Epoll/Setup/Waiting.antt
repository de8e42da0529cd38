-- ===== src/Epoll/Setup/Waiting.antt =====
-- src/bench_epoll.c: which connections a round waits for.
use web_bench.Prelude.{
  ℕ, zero, suc, ◌+◌, ◌<◌, ◌≡◌, true, Option, none, some, List, [], ◌∷◌, length, ◌==◌, if◌then◌else◌,
}
use web_bench.Arguments.{Arguments}
use web_bench.Connection.{Connection}
use web_bench.Epoll.Setup.{Registered, Interest, interest}

-- The events registered for an index.
abbrev pub registered : List (ℕ × Interest) → ℕ → Option Interest
registered [] j = none
registered (x ∷ xs) j = if x.0 == j then some x.1 else registered xs j

-- What the connection at an index waits for, by its state.
abbrev pub interest_at : List Connection → ℕ → Option Interest
interest_at [] i = none
interest_at (c ∷ cs) zero = interest c.state
interest_at (c ∷ cs) (suc i) = interest_at cs i

abbrev pub count_one : Option Interest → ℕ → ℕ
count_one none n = n
count_one (some events) n = suc n

-- How many connections wait for something.
abbrev pub active_count : List Connection → ℕ
active_count [] = 0
active_count (c ∷ cs) = count_one (interest c.state) (active_count cs)

record Waits (k : ℕ) (cs : List Connection) (r : Registered) : Type 0 where
  ok : r.ok ≡ true
  count : length r.waiting ≡ active_count cs
  before : (j : ℕ) → j < k → registered r.waiting j ≡ none
  at : (i : ℕ) → registered r.waiting (k + i) ≡ interest_at cs i
