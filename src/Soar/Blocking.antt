-- ===== src/Soar/Blocking.antt =====
-- crates/thor-agent/src/soar/mod.rs: automatic blocks. Of `blocked_ips` the keys are modelled.
pub mod Budget
pub mod Whitelist
mod Tests
use Prim.Native.Char.{Char}
use thor_firewall_smart.Prelude.{
  ℕ, String, Bool, true, false, ◌||◌, List, [], ◌∷◌, if◌then◌else◌, ◌==◌, string_eq, Result, ok,
  err,
}
use thor_firewall_smart.Prelude.Text.{starts_with, trim_end}
use thor_firewall_smart.Prelude.Dict.{Dict, insert, contains_key}
use thor_firewall_smart.Soar.Breaker.{CircuitBreaker, check_and_increment}

pub record SoarEngine : Type 0 where
  pub whitelist : List String
  pub blocked_ips : Dict String (Unit {0})
  pub circuit_breaker : CircuitBreaker

-- The two messages of `auto_block_ip`, with what they are formatted from.
pub data BlockError : Type 0 where
  in_whitelist : (ip : String) → BlockError
  breaker_open : (count max_per_window : ℕ) → BlockError

-- `ip == w || ip.starts_with(w.trim_end_matches('*'))`
unfoldable pub exempts : String → String → Bool
exempts ip w = ip == w || starts_with ip (trim_end "*" w)

unfoldable pub is_whitelisted : List String → String → Bool
is_whitelisted [] ip = false
is_whitelisted (w ∷ ws) ip = exempts ip w || is_whitelisted ws ip

-- The arms of the `match` on the circuit breaker.
unfoldable pub block_if :
    String
    → SoarEngine
    → Result ℕ (Unit {0}) × CircuitBreaker
    → Result BlockError (Unit {0}) × SoarEngine
block_if ip s (ok u, b) =
    (ok tt, record s { circuit_breaker = b; blocked_ips = insert ip tt s.blocked_ips })
block_if ip s (err count, b) =
    (err (breaker_open count b.max_per_window), record s { circuit_breaker = b })

unfoldable pub auto_block_ip : ℕ → String → SoarEngine → Result BlockError (Unit {0}) × SoarEngine
unfolding block_if
auto_block_ip now ip s =
    if is_whitelisted s.whitelist ip
    then (err (in_whitelist ip), s)
    else if contains_key ip s.blocked_ips
    then (ok tt, s)
    else block_if ip s (check_and_increment now s.circuit_breaker)

-- A history of requests, each with its instant.
unfoldable pub block_all : List (ℕ × String) → SoarEngine → SoarEngine
block_all [] s = s
block_all ((now, ip) ∷ rs) s = block_all rs (auto_block_ip now ip s).1
