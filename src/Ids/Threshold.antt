-- ===== src/Ids/Threshold.antt =====
-- crates/thor-agent/src/ids/threshold.rs: how often a rule may fire. Instants are nanoseconds, and a
-- call reads the clock once.
pub mod Counts
pub mod Cleanup
mod Tests
use thor_firewall_smart.Prelude.{
  ℕ, ◌+◌, ◌-◌, ◌*◌, ◌/◌, ◌%◌, ◌^◌, Bool, true, false, ◌&&◌, Option, none, some, List, [], ltb, leb,
  nat_eq, if◌then◌else◌,
}
use thor_firewall_smart.Prelude.Dict.{Dict, lookup, lookup_or, insert, remove, retain}

pub data ThresholdType : Type 0 where
  limit threshold both : (count seconds : ℕ) → ThresholdType

pub record Bucket : Type 0 where
  pub hits : ℕ
  pub fires : ℕ
  pub window_start : ℕ

pub record ThresholdTracker : Type 0 where
  pub buckets : Dict ℕ Bucket
  pub suppressed : Dict ℕ ℕ

abbrev pub new_tracker : ThresholdTracker
new_tracker = record { buckets = []; suppressed = [] }

-- `Bucket::new`, and the bucket after `reset`.
abbrev pub new_bucket : ℕ → Bucket
new_bucket now = record { hits = 0; fires = 0; window_start = now }

abbrev pub age_secs : ℕ → Bucket → ℕ
age_secs now b = (now - b.window_start) / 1_000_000_000

unfoldable pub suppress : ℕ → ℕ → ℕ → ThresholdTracker → ThresholdTracker
suppress now sid duration t = record t { suppressed = insert sid (now + duration) t.suppressed }

-- An expired suppression is forgotten on the way.
unfoldable pub is_suppressed : ℕ → ℕ → ThresholdTracker → Bool × ThresholdTracker
is_suppressed now sid t = elim (lookup sid t.suppressed) [
  | none ↦ (false, t)
  | some exp ↦
      if ltb now exp then (true, t) else (false, record t { suppressed = remove sid t.suppressed })
]

abbrev pub window_secs : ThresholdType → ℕ
window_secs (limit count seconds) = seconds
window_secs (threshold count seconds) = seconds
window_secs (both count seconds) = seconds

-- The last `match` of `should_fire`, on a bucket whose hit is counted.
unfoldable pub fires_now : ThresholdType → Bucket → Bool
fires_now (limit count seconds) b = ltb b.fires count
fires_now (threshold count seconds) b = leb count b.hits
fires_now (both count seconds) b = leb count b.hits && ltb b.fires count

-- The window is reset if it is over, and the hit counted; `u32`s that wrap.
unfoldable pub hit : ℕ → ThresholdType → Bucket → Bucket
hit now thr b =
    let c = if leb (window_secs thr) (age_secs now b) then new_bucket now else b in
    record c { hits = (c.hits + 1) % 2 ^ 32 }

unfoldable pub fire : ThresholdType → Bucket → Bool × Bucket
unfolding fires_now
fire thr b =
    if fires_now thr b then (true, record b { fires = (b.fires + 1) % 2 ^ 32 }) else (false, b)

unfoldable pub should_fire : ℕ → ℕ → ThresholdType → ThresholdTracker → Bool × ThresholdTracker
unfolding is_suppressed
should_fire now sid thr t =
    let (held, u) = is_suppressed now sid t in
    let (fired, b) = fire thr (hit now thr (lookup_or sid (new_bucket now) u.buckets)) in
    if held then (false, u) else (fired, record u { buckets = insert sid b u.buckets })

abbrev pub is_young : ℕ → Bucket → Bool
is_young now b = ltb (now - b.window_start) (300 * 1_000_000_000)

unfoldable pub cleanup : ℕ → ThresholdTracker → ThresholdTracker
cleanup now t = record {
  suppressed = retain (λ _ exp. ltb now exp) t.suppressed;
  buckets = retain (λ _ b. is_young now b) t.buckets;
}

abbrev pub default_threshold : ThresholdType
default_threshold = limit 3 60
