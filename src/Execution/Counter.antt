-- ===== src/Execution/Counter.antt =====
-- The `int` counters of the loops of pefa/execution/execution.cpp.
use pefa.Base.{ℕ, ◌+◌, ◌-◌, ◌^◌, ◌<◌, ◌≡◌, arith, ltb, if◌then◌else◌, Outcome, ok, fault, Fault}

-- The largest value of an `int`.
abbrev pub int_max : ℕ
int_max = 2 ^ 31 - 1

-- `i++` on an `int`
unfoldable pub increment : ℕ → Outcome ℕ
increment i = if ltb i int_max then ok (i + 1) else fault Fault.int_overflow

pub increment_lem : (i : ℕ) → i < int_max → increment i ≡ ok (i + 1)
unfolding increment
increment_lem i below = ground arith
