-- ===== src/Ids/Threshold/Cleanup.antt =====
-- crates/thor-agent/src/ids/threshold.rs: the periodic cleanup, and suppression.
use thor_firewall_smart.Prelude.{
  ℕ, ◌+◌, ◌≤◌, ◌<◌, ◌≡◌, true, false, none, some, arith, ltb, nat_eq, if◌then◌else◌, Option-cases,
  Bool-cases, inl, inr, ◌⊎◌,
}
use thor_firewall_smart.Prelude.Dict.{lookup, lookup_or, retain}
use thor_firewall_smart.Prelude.Dict.Laws.{lookup-insert_self, lookup-retain, IsDistinct}
use thor_firewall_smart.Ids.Threshold.{
  ThresholdType, limit, Bucket, ThresholdTracker, new_bucket, age_secs, window_secs, hit, fire,
  suppress, is_suppressed, should_fire, cleanup, is_young,
}

-- What the cleanup leaves of a suppression and of a bucket.
module _ (now sid : ℕ) (t : ThresholdTracker) where
  cleanup-suppressed :
      IsDistinct t.suppressed
      → (is_suppressed now sid (cleanup now t)).0 ≡ (is_suppressed now sid t).0
  unfolding is_suppressed cleanup
  cleanup-suppressed d = ground (arith, lookup-retain (λ _ exp. ltb now exp) sid t.suppressed d)

  is_suppressed-buckets : (is_suppressed now sid t).1.buckets ≡ t.buckets
  unfolding is_suppressed
  is_suppressed-buckets = ground arith

  should_fire-eq :
      (thr : ThresholdType)
      → (should_fire now sid thr t).0 ≡ (
          if (is_suppressed now sid t).0
          then false
          else (fire thr (hit now thr (lookup_or sid (new_bucket now) t.buckets))).0)
  unfolding should_fire
  should_fire-eq thr =
      rw is_suppressed-buckets
        (elim (Bool-cases (is_suppressed now sid t).0) [ inl e ↦ rw (e) | inr e ↦ rw (e) ])

  cleanup-bucket :
      IsDistinct t.buckets
      → (lookup sid (cleanup now t).buckets ≡ lookup sid t.buckets)
        ⊎ ((b : Bucket) × (lookup sid t.buckets ≡ some b)
            × (lookup sid (cleanup now t).buckets ≡ none)
            × (300 ≤ age_secs now b))
  unfolding cleanup
  cleanup-bucket d = elim (Option-cases (lookup sid t.buckets)) [
    | inl e ↦ inl (ground (arith, kept))
    | inr (b, e) ↦ elim (Bool-cases (is_young now b)) [
      | inl young ↦ inl (ground (arith, kept))
      | inr old ↦ inr (b, e, ground (arith, kept), ground arith)
    ]
  ]
    where
      kept : lookup sid (retain (λ _ b. is_young now b) t.buckets) ≡ elim (lookup sid t.buckets) [
        | none ↦ none
        | some b ↦ if is_young now b then some b else none
      ]
      kept = lookup-retain (λ _ b. is_young now b) sid t.buckets d

cleanup_old :
    (now sid : ℕ) (t : ThresholdTracker) (b : Bucket)
    → IsDistinct t.buckets
    → lookup sid t.buckets ≡ some b
    → 300 ≤ age_secs now b
    → lookup sid (cleanup now t).buckets ≡ none
unfolding cleanup
cleanup_old now sid t b d e old =
    ground (arith, lookup-retain (λ _ b. is_young now b) sid t.buckets d)

not_suppressed :
    (now sid : ℕ) (t : ThresholdTracker)
    → lookup sid t.suppressed ≡ none
    → (is_suppressed now sid t).0 ≡ false
unfolding is_suppressed
not_suppressed now sid t h = rw (h, is_suppressed)

hit_reset :
    (now : ℕ) (thr : ThresholdType) (b : Bucket)
    → window_secs thr ≤ age_secs now b
    → hit now thr b ≡ hit now thr (new_bucket now)
unfolding hit
hit_reset now thr b h = ground arith

module _ (now sid count seconds : ℕ) (t : ThresholdTracker) (buckets : IsDistinct t.buckets)
    (suppressions : IsDistinct t.suppressed) where
  -- For a window of at most five minutes the cleanup changes no decision.
  pub should_fire-cleanup :
      (thr : ThresholdType)
      → window_secs thr ≤ 300
      → (should_fire now sid thr (cleanup now t)).0 ≡ (should_fire now sid thr t).0
  should_fire-cleanup thr h =
      rw
        (
          should_fire-eq now sid (cleanup now t),
          should_fire-eq now sid t,
          cleanup-suppressed now sid t suppressions,
        )
        (elim (cleanup-bucket now sid t buckets) [
          | inl e ↦ rw e
          | inr (b, e, gone, old) ↦ rw (gone, e, hit_reset now thr b (omega arith))
        ])

  -- For a longer window it forgets the alerts of a window that is still running: a rule limited to
  -- `count` alerts, which has raised them all and is not suppressed, raises another.
  pub should_fire-cleanup_long :
      (b : Bucket)
      → lookup sid t.buckets ≡ some b
      → lookup sid t.suppressed ≡ none
      → 0 < count
      → b.fires ≡ count
      → 300 ≤ age_secs now b
      → age_secs now b < seconds
      → ((should_fire now sid (limit count seconds) t).0 ≡ false)
        × ((should_fire now sid (limit count seconds) (cleanup now t)).0 ≡ true)
  unfolding hit fire
  should_fire-cleanup_long b e s pos full old running = (before, after)
    where
      free : (is_suppressed now sid t).0 ≡ false
      free = not_suppressed now sid t s

      before : (should_fire now sid (limit count seconds) t).0 ≡ false
      before = rw (should_fire-eq, free, e) (ground arith)

      after : (should_fire now sid (limit count seconds) (cleanup now t)).0 ≡ true
      after =
          rw
            (
              should_fire-eq,
              cleanup-suppressed now sid t suppressions,
              free,
              cleanup_old now sid t b buckets e old,
            )
            (ground arith)

-- While a rule is suppressed it raises no alert, whatever its threshold.
pub should_fire-suppress :
    (now later sid duration : ℕ) (thr : ThresholdType) (t : ThresholdTracker)
    → later < now + duration
    → (should_fire later sid thr (suppress now sid duration t)).0 ≡ false
unfolding should_fire suppress is_suppressed
should_fire-suppress now later sid duration thr t h =
    ground (arith, lookup-insert_self sid (now + duration) t.suppressed)
