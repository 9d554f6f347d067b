-- ===== src/Client/Reconnect/Backoff.antt =====
-- src/client.cpp: the times that calculate_backoff gives.
use ferriot.Prelude.{ℕ, zero, suc, ◌-◌, ◌≤◌, arith, leb, if◌then◌else◌}
use ferriot.Client.State.{ReconnectionConfig}
use ferriot.Client.Reconnect.{backoff_loop, calculate_backoff}

abbrev pub max : ℕ → ℕ → ℕ
max a b = if leb a b then b else a

abbrev pub min : ℕ → ℕ → ℕ
min a b = if leb a b then a else b

backoff_loop-le :
    (config : ReconnectionConfig) (rounds backoff : ℕ)
    → backoff_loop config rounds backoff ≤ max backoff config.max_backoff
unfolding backoff_loop
backoff_loop-le config zero backoff = ground arith
backoff_loop-le config (suc rounds) backoff =
    ground (arith, backoff_loop-le config rounds (config.scaled backoff))

-- No time is longer than the initial one and the maximal one, whichever is longer.
pub calculate_backoff-le :
    (config : ReconnectionConfig) (attempts : ℕ)
    → calculate_backoff config attempts ≤ max config.initial_backoff config.max_backoff
unfolding calculate_backoff
calculate_backoff-le config attempts = backoff_loop-le config (attempts - 1) config.initial_backoff
