-- ===== src/Soar/Blocking/Tests.antt =====
-- crates/thor-agent/src/soar/mod.rs: tests of the circuit breaker and the automatic blocks.
use thor_firewall_smart.Prelude.{
  ℕ, ◌+◌, ◌≤◌, ◌≡◌, refl, String, false, List, [], ◌∷◌, arith, length, string_eq,
}
use thor_firewall_smart.Prelude.Text.{starts_with, trim_end}
use thor_firewall_smart.Prelude.Dict.{lookup, insert, contains_key}
use thor_firewall_smart.Soar.Breaker.{new_breaker, check_and_increment}
use thor_firewall_smart.Soar.Blocking.{
  SoarEngine, exempts, is_whitelisted, auto_block_ip, block_all,
}
use thor_firewall_smart.Soar.Blocking.Budget.{block_all-budget}
use thor_firewall_smart.Soar.Blocking.Whitelist.{block_all_exempt}

abbrev engine : SoarEngine
engine = record {
  whitelist = "10.0.0.1" ∷ "192.168.*" ∷ [];
  blocked_ips = [];
  circuit_breaker = new_breaker 0 2;
}

abbrev storm : List (ℕ × String)
storm = (1, "1.1.1.1") ∷ (2, "2.2.2.2") ∷ (3, "2.2.2.2") ∷ (4, "3.3.3.3") ∷ []

storm_capped : length (block_all storm engine).blocked_ips ≡ 2
unfolding block_all auto_block_ip is_whitelisted exempts starts_with trim_end lookup insert
    check_and_increment
storm_capped = refl

block_all-budget_example :
    (length (block_all storm engine).blocked_ips ≤ 2)
    × ((block_all storm engine).circuit_breaker.block_count + 0
        ≡ 0 + length (block_all storm engine).blocked_ips)
block_all-budget_example = block_all-budget storm engine (omega arith) (omega arith)

block_all_exempt_example :
    contains_key "192.168.7.7" (block_all ((1, "192.168.7.7") ∷ storm) engine).blocked_ips ≡ false
unfolding is_whitelisted exempts starts_with trim_end lookup
block_all_exempt_example =
    block_all_exempt "192.168.7.7" ((1, "192.168.7.7") ∷ storm) engine refl refl
