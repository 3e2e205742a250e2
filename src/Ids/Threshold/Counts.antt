-- ===== src/Ids/Threshold/Counts.antt =====
-- crates/thor-agent/src/ids/threshold.rs: how many alerts a rule raises in one window, and that
-- rules do not disturb each other.
use Prim.Native.Nat.{max}
use thor_firewall_smart.Prelude.{
  ℕ, suc, ◌+◌, ◌-◌, ◌/◌, ◌^◌, ◌<◌, ◌≡◌, ◌≢◌, sym, Bool-cases, inl, inr, refl, ap, none, some, List,
  [], ◌∷◌, arith, min, length, nat_eq, nat_beq_iff, if◌then◌else◌, All,
}
use thor_firewall_smart.Prelude.Dict.{lookup, lookup_or, insert}
use thor_firewall_smart.Prelude.Dict.Laws.{
  lookup-insert, lookup-insert_self, lookup-remove, IsDistinct,
}
use thor_firewall_smart.Ids.Threshold.{
  ThresholdType, limit, threshold, both, Bucket, ThresholdTracker, new_bucket, window_secs,
  fires_now, hit, fire, is_suppressed, should_fire,
}

-- The alerts for the first `n` hits of a window: the first `count`; all from hit `count` on; the
-- first `count` from hit `count` on.
abbrev pub alerts_for : ThresholdType → ℕ → ℕ
alerts_for (limit count seconds) n = min n count
alerts_for (threshold count seconds) n = n + 1 - max count 1
alerts_for (both count seconds) n = min (n + 1 - max count 1) count

-- A bucket after `n` hits of the window that began at `start`.
pub record IsAfter (thr : ThresholdType) (start n : ℕ) (b : Bucket) : Type 0 where
  pub hits_lem : b.hits ≡ n
  pub fires_lem : b.fires ≡ alerts_for thr n
  pub start_lem : b.window_start ≡ start

-- The instant is in the window that began at `start`.
abbrev pub InWindow : ThresholdType → ℕ → ℕ → Type 0
InWindow thr start now = (now - start) / 1_000_000_000 < window_secs thr

module _ (start n : ℕ) (now : ℕ) (b : Bucket) (small : n + 1 < 2 ^ 32) where
  hit-IsAfter :
      (thr : ThresholdType)
      → IsAfter thr start n b
      → InWindow thr start now
      → let (fired, c) = fire thr (hit now thr b) in
        IsAfter thr start (n + 1) c
        × ((if fired then 1 else 0) + alerts_for thr n ≡ alerts_for thr (n + 1))
  unfolding fire hit fires_now
  hit-IsAfter (limit count seconds) a w = ground arith
  hit-IsAfter (threshold count seconds) a w = ground arith
  hit-IsAfter (both count seconds) a w = ground arith

alerts_for-zero : (thr : ThresholdType) → alerts_for thr 0 ≡ 0
alerts_for-zero (limit count seconds) = omega arith
alerts_for-zero (threshold count seconds) = omega arith
alerts_for-zero (both count seconds) = omega arith

new-IsAfter : (thr : ThresholdType) (start : ℕ) → IsAfter thr start 0 (new_bucket start)
new-IsAfter thr start = record {
  hits_lem = refl;
  fires_lem = sym (alerts_for-zero thr);
  start_lem = refl;
}

-- The number of alerts that hits of one rule at these instants raise.
abbrev pub alerts_of : ℕ → ThresholdType → List ℕ → ThresholdTracker → ℕ
alerts_of sid thr [] t = 0
alerts_of sid thr (now ∷ nows) t =
    let (fired, u) = should_fire now sid thr t in
    (if fired then 1 else 0) + alerts_of sid thr nows u

should_fire_open :
    (now sid : ℕ) (thr : ThresholdType) (t : ThresholdTracker)
    → lookup sid t.suppressed ≡ none
    → should_fire now sid thr t ≡ (
        let (fired, b) = fire thr (hit now thr (lookup_or sid (new_bucket now) t.buckets)) in
        (fired, record t { buckets = insert sid b t.buckets }))
unfolding should_fire
should_fire_open now sid thr t h = rw (h, is_suppressed)

module _ (sid start : ℕ) (thr : ThresholdType) where
  alerts_from :
      (n : ℕ) (nows : List ℕ) (b : Bucket) (t : ThresholdTracker)
      → lookup sid t.buckets ≡ some b
      → lookup sid t.suppressed ≡ none
      → IsAfter thr start n b
      → n + length nows < 2 ^ 32
      → All (InWindow thr start) nows
      → alerts_of sid thr nows t + alerts_for thr n ≡ alerts_for thr (n + length nows)
  alerts_from n [] b t e h a small w =
      let none_left : n ≡ n + 0 = omega arith in omega (arith, ap (alerts_for thr) none_left)
  alerts_from n (now ∷ nows) b t e h a small w =
      let c = (fire thr (hit now thr b)).1 in
      let u : ThresholdTracker = record t { buckets = insert sid c t.buckets } in
      let one = hit-IsAfter start n now b (omega arith) thr a w.0 in
      let rest =
        alerts_from (n + 1) nows c u (lookup-insert_self sid c t.buckets) h one.0 (omega arith)
          w.1 in
      let sum : n + 1 + length nows ≡ n + suc (length nows) = omega arith in
      rw (should_fire_open now sid thr t h, e) (omega (arith, rest, one.1, ap (alerts_for thr) sum))

  -- A rule that is not suppressed and has no bucket raises, for the hits of one window, the alerts
  -- that its threshold grants to that many hits.
  pub alerts_of-alerts_for :
      (nows : List ℕ) (t : ThresholdTracker)
      → lookup sid t.buckets ≡ none
      → lookup sid t.suppressed ≡ none
      → 0 < window_secs thr
      → length nows + 1 < 2 ^ 32
      → All (InWindow thr start) nows
      → alerts_of sid thr (start ∷ nows) t ≡ alerts_for thr (1 + length nows)
  alerts_of-alerts_for nows t e h pos small w =
      let c = (fire thr (hit start thr (new_bucket start))).1 in
      let u : ThresholdTracker = record t { buckets = insert sid c t.buckets } in
      let one =
        hit-IsAfter start 0 start (new_bucket start) (omega arith) thr (new-IsAfter thr start)
          (omega arith) in
      let rest =
        alerts_from 1 nows c u (lookup-insert_self sid c t.buckets) h one.0 (omega arith) w in
      rw (should_fire_open start sid thr t h, e) (omega (arith, rest, one.1, alerts_for-zero thr))

is_suppressed_other :
    (now sid other : ℕ) (t : ThresholdTracker)
    → IsDistinct t.suppressed
    → sid ≢ other
    → let u = (is_suppressed now sid t).1 in
      (u.buckets ≡ t.buckets) × (lookup other u.suppressed ≡ lookup other t.suppressed)
unfolding is_suppressed
is_suppressed_other now sid other t d n =
    ground (arith, lookup-remove sid other t.suppressed d, nat_beq_iff sid other)

-- A hit of one rule changes neither the bucket nor the suppression of another.
pub should_fire_other :
    (now sid other : ℕ) (thr : ThresholdType) (t : ThresholdTracker)
    → IsDistinct t.suppressed
    → sid ≢ other
    → let u = (should_fire now sid thr t).1 in
      (lookup other u.buckets ≡ lookup other t.buckets)
      × (lookup other u.suppressed ≡ lookup other t.suppressed)
unfolding lookup should_fire
should_fire_other now sid other thr t d n =
    let (held, u) = is_suppressed now sid t in
    let b = (fire thr (hit now thr (lookup_or sid (new_bucket now) u.buckets))).1 in
    let (same_buckets, same_suppressed) = is_suppressed_other now sid other t d n in
    let other_bucket : lookup other (insert sid b u.buckets) ≡ lookup other u.buckets =
      ground (arith, lookup-insert sid other b u.buckets, nat_beq_iff sid other) in
    elim (Bool-cases held) [
      | inl e ↦ rw (e) (rw same_buckets refl, same_suppressed)
      | inr e ↦ rw (e) (rw (other_bucket, same_buckets) refl, same_suppressed)
    ]
