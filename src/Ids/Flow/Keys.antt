-- ===== src/Ids/Flow/Keys.antt =====
-- crates/thor-agent/src/ids/flow.rs: both directions of a connection share one key.
use thor_firewall_smart.Prelude.{◌≡◌, ◌≢◌, arith, ◌⊎◌}
use thor_firewall_smart.Ids.Flow.{FlowKey, swap_ends, canonical}

-- The two directions of a connection have one canonical key, and unless its two ends are the same
-- they get different directions.
pub canonical-swap_ends :
    (k : FlowKey)
    → ((canonical (swap_ends k)).0 ≡ (canonical k).0)
      × ((k ≢ swap_ends k) → (canonical (swap_ends k)).1 ≢ (canonical k).1)
unfolding canonical
canonical-swap_ends k = ground arith

-- Two keys share a canonical key only if they are the two directions of one connection.
pub canonical_injective :
    (k l : FlowKey) → (canonical k).0 ≡ (canonical l).0 → (k ≡ l) ⊎ (k ≡ swap_ends l)
unfolding canonical
canonical_injective k l h = ground arith
