-- ===== src/Prom/RateLimit.antt =====
-- The flow control of `prometheusRateLimitClient`, pkg/datasource-providers/prom/prom.go: the
-- counter and the condition variable that `Do` goes through around its request.
pub mod Laws
use fadvisor.Prelude.{ℕ, zero, suc, ◌+◌, ◌-◌, ◌<◌, ◌≡◌, ltb, if◌then◌else◌}

-- `waiting` and `running` are not fields of the client: they count the goroutines that `cond.Wait`
-- holds, and those between the two calls.
pub record Limiter : Type 0 where
  pub max_in_flight : ℕ
  pub current_in_flight : ℕ
  pub waiting : ℕ
  pub running : ℕ

pub new_limiter : ℕ → Limiter
new_limiter max = record { max_in_flight = max; current_in_flight = 0; waiting = 0; running = 0 }

-- `increaseInFightWait`, up to where it returns or waits.
pub increase_in_flight_wait : Limiter → Limiter
increase_in_flight_wait c =
    let n = c.current_in_flight + 1 in
    if ltb c.max_in_flight n
    then record c { current_in_flight = n; waiting = c.waiting + 1 }
    else record c { current_in_flight = n; running = c.running + 1 }

-- `cond.Signal()`: one of those that wait, if there is one, goes on behind its `Wait`.
pub signal : Limiter → Limiter
signal c =
    if ltb 0 c.waiting then record c { waiting = c.waiting - 1; running = c.running + 1 } else c

-- `decreaseInFlightSignal`, called by a goroutine whose request is done.
pub decrease_in_flight_signal : Limiter → Limiter
unfolding signal
decrease_in_flight_signal c =
    signal (record c { current_in_flight = c.current_in_flight - 1; running = c.running - 1 })

-- The lock makes each call one step; which goroutine comes next is open.
pub data Step : Limiter → Limiter → Type 0 where
  enter : (c : Limiter) → Step c (increase_in_flight_wait c)
  leave : (c : Limiter) → 0 < c.running → Step c (decrease_in_flight_signal c)

pub data Reach (c : Limiter) : Limiter → Type 0 where
  here : Reach c c
  next : {d e : Limiter} → Reach c d → Step d e → Reach c e
