-- ===== src/Ids/Threshold/Tests.antt =====
-- crates/thor-agent/src/ids/threshold.rs: tests.
use thor_firewall_smart.Prelude.{ℕ, ◌≡◌, refl, [], ◌∷◌, arith, nat_eq}
use thor_firewall_smart.Prelude.Dict.{lookup, insert}
use thor_firewall_smart.Ids.Threshold.{
  threshold, both, Bucket, ThresholdTracker, new_tracker, should_fire, hit, fire, default_threshold,
}
use thor_firewall_smart.Ids.Threshold.Counts.{alerts_for, alerts_of, alerts_of-alerts_for}

abbrev second : ℕ
second = 1_000_000_000

both_twice : alerts_of 7 (both 2 60) (0 ∷ 1 ∷ 2 ∷ 3 ∷ 4 ∷ []) new_tracker ≡ 2
unfolding should_fire hit fire lookup insert
both_twice = refl

threshold_from_third : alerts_of 7 (threshold 3 60) (0 ∷ 1 ∷ 2 ∷ 3 ∷ []) new_tracker ≡ 2
unfolding should_fire hit fire lookup insert
threshold_from_third = refl

alerts_of-alerts_for_example :
    alerts_of 7 default_threshold (5 ∷ 6 ∷ 7 ∷ 8 ∷ []) new_tracker ≡ alerts_for default_threshold 4
unfolding lookup
alerts_of-alerts_for_example =
    alerts_of-alerts_for 7 5 default_threshold (6 ∷ 7 ∷ 8 ∷ []) new_tracker refl refl (omega arith)
      (omega arith) (omega arith)

abbrev spent : Bucket
spent = record { hits = 9; fires = 3; window_start = 0 }

abbrev tracker : ThresholdTracker
tracker = record { buckets = (7, spent) ∷ []; suppressed = [] }
