-- ===== src/Soar/Breaker.antt =====
-- crates/thor-agent/src/soar/mod.rs: the circuit breaker of the automatic blocks. Instants are
-- nanoseconds; a call reads the clock once, under the lock of the window.
use thor_firewall_smart.Prelude.{
  ℕ, ◌+◌, ◌-◌, ◌*◌, ◌%◌, ◌^◌, ◌≤◌, ◌<◌, leb, if◌then◌else◌, Result, ok, err, arith,
}

pub record CircuitBreaker : Type 0 where
  pub block_count : ℕ
  pub window_start : ℕ
  pub max_per_window : ℕ
  pub window : ℕ

abbrev pub new_breaker : ℕ → ℕ → CircuitBreaker
new_breaker now max_per_window = record {
  block_count = 0;
  window_start = now;
  max_per_window = max_per_window;
  window = 300 * 1_000_000_000;
}

-- The breaker after the reset of a window that is over.
unfoldable pub refresh : ℕ → CircuitBreaker → CircuitBreaker
refresh now b =
    if leb b.window (now - b.window_start)
    then record b { window_start = now; block_count = 0 }
    else b

-- `fetch_add`, undone by `fetch_sub` where the limit is reached; both wrap.
unfoldable pub check_and_increment : ℕ → CircuitBreaker → Result ℕ (Unit {0}) × CircuitBreaker
unfolding refresh
check_and_increment now b =
    let c = refresh now b in
    let count = c.block_count in
    let added = (count + 1) % 2 ^ 32 in
    if leb c.max_per_window count
    then (err count, record c { block_count = (added + 2 ^ 32 - 1) % 2 ^ 32 })
    else (ok tt, record c { block_count = added })

-- The count of a breaker is within its limit, and the limit is a `u32`.
pub record IsWithin (b : CircuitBreaker) : Type 0 where
  pub count_le : b.block_count ≤ b.max_per_window
  pub max_lt : b.max_per_window < 2 ^ 32

pub refresh-IsWithin : (now : ℕ) (b : CircuitBreaker) → IsWithin b → IsWithin (refresh now b)
unfolding refresh
refresh-IsWithin now b v = ground arith

pub check_and_increment-IsWithin :
    (now : ℕ) (b : CircuitBreaker) → IsWithin b → IsWithin (check_and_increment now b).1
unfolding check_and_increment
check_and_increment-IsWithin now b v = ground arith
