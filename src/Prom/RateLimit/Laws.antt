-- ===== src/Prom/RateLimit/Laws.antt =====
-- The flow control under an arbitrary interleaving of its callers.
use fadvisor.Prelude.{ℕ, ◌+◌, ◌≡◌, min, arith}
use fadvisor.Prom.RateLimit.{
  Limiter, new_limiter, increase_in_flight_wait, decrease_in_flight_signal, Step, enter, leave,
  Reach, here, next,
}

-- Every caller that is counted runs or waits, and as many run as may.
pub record IsBalanced (max : ℕ) (c : Limiter) : Type 0 where
  pub same_max : c.max_in_flight ≡ max
  pub counted : c.current_in_flight ≡ c.running + c.waiting
  pub full : c.running ≡ min c.current_in_flight max

Step-IsBalanced : {max : ℕ} {c d : Limiter} → Step c d → IsBalanced max c → IsBalanced max d
unfolding increase_in_flight_wait decrease_in_flight_signal
Step-IsBalanced (enter c) b = ground arith
Step-IsBalanced (leave c r) b = ground arith

-- In every state that callers can bring a new client into, each of those that are counted runs or
-- waits, and the running ones are the smaller of the count and the limit: never more than the limit
-- run, and none waits while fewer run.
pub Reach-IsBalanced : (max : ℕ) {c : Limiter} → Reach (new_limiter max) c → IsBalanced max c
unfolding new_limiter
Reach-IsBalanced max here = ground arith
Reach-IsBalanced max (next r s) = Step-IsBalanced s (Reach-IsBalanced max r)
