-- ===== src/Soar/Correlator/Counts.antt =====
-- soar/mod.rs: what becomes of each entry that is filed.
use thor_firewall_smart.Prelude.{
  Bool, not, leb, map, ap, subst, sym, same→eq, ℕ, suc, ◌+◌, ◌≡◌, ◌≤◌, String, true, ◌&&◌, List, [],
  ◌∷◌, arith, length, if◌then◌else◌, ◌==◌, nat_eq, string_eq, Bool-cases, inl, inr, refl,
}
use thor_firewall_smart.Prelude.Dict.{lookup, lookup_or, insert, retain}
use thor_firewall_smart.Soar.Correlator.{
  Alert, CorrelationKey, key_eq, BucketEntry, Buckets, keys_of, pid_keys, ip_keys, push_entry,
  file_under, ingest, oldest, should_seal, aggregate, reports, flush,
}

-- The buckets that a flush reports, and those of one entry that it drops without a report.
abbrev pub grouped : ℕ → Buckets → Buckets
grouped now [] = []
grouped now ((k, es) ∷ m) =
    if should_seal now es && leb 2 (length es) then (k, es) ∷ grouped now m else grouped now m

abbrev pub lone : ℕ → Buckets → Buckets
lone now [] = []
lone now ((k, es) ∷ m) =
    if should_seal now es && length es == 1 then (k, es) ∷ lone now m else lone now m

length-keys_of : (a : Alert) → (1 ≤ length (keys_of a)) × (length (keys_of a) ≤ 2)
unfolding keys_of pid_keys ip_keys
length-keys_of a = ground arith

should_seal-nonempty : (now : ℕ) (es : List BucketEntry) → should_seal now es ≡ true → 1 ≤ length es
unfolding should_seal oldest
should_seal-nonempty now [] h = ground (arith, h)
should_seal-nonempty now (e ∷ es) h = omega arith

-- A selection of the entries by their key and content, such as one entry under one key.
module _ (chosen : CorrelationKey → BucketEntry → Bool) where
  -- How many entries of a bucket, of buckets, and of one entry under several keys are selected.
  abbrev pub chosen_in : CorrelationKey → List BucketEntry → ℕ
  chosen_in k [] = 0
  chosen_in k (e ∷ es) = if chosen k e then suc (chosen_in k es) else chosen_in k es

  abbrev pub filed : Buckets → ℕ
  filed [] = 0
  filed ((k, es) ∷ m) = chosen_in k es + filed m

  abbrev pub arriving : BucketEntry → List CorrelationKey → ℕ
  arriving e [] = 0
  arriving e (k ∷ ks) = if chosen k e then suc (arriving e ks) else arriving e ks

  chosen_in-push_entry :
      (k : CorrelationKey) (e : BucketEntry) (es : List BucketEntry)
      → chosen_in k (push_entry e es) ≡ chosen_in k (e ∷ es)
  unfolding push_entry
  chosen_in-push_entry k e [] = refl
  chosen_in-push_entry k e (f ∷ es) = ground (arith, chosen_in-push_entry k e es)

  filed-insert :
      (k : CorrelationKey) (es : List BucketEntry) (m : Buckets)
      → filed (insert k es m) + chosen_in k (lookup_or k [] m) ≡ chosen_in k es + filed m
  unfolding insert lookup
  filed-insert k es [] = omega arith
  filed-insert k es ((j, old) ∷ m) = elim (Bool-cases (j == k)) [
    | inl at ↦ rw at (
        subst
          (λ i.
            chosen_in i es + filed m + chosen_in k old
            ≡ chosen_in k es + (chosen_in i old + filed m))
          (sym (same→eq j k at)) (omega arith))
    | inr n ↦ rw n (omega (arith, filed-insert k es m))
  ]

  filed-file_under :
      (ks : List CorrelationKey) (e : BucketEntry) (m : Buckets)
      → filed (file_under ks e m) ≡ filed m + arriving e ks
  unfolding file_under
  filed-file_under [] e m = omega arith
  filed-file_under (k ∷ ks) e m =
      let old = lookup_or k [] m in
      ground (
        arith,
        filed-insert k (push_entry e old) m,
        chosen_in-push_entry k e old,
        filed-file_under ks e (insert k (push_entry e old) m),
      )

  filed-retain :
      (now : ℕ) (m : Buckets)
      → filed m
        ≡ filed (retain (λ _ es. not (should_seal now es)) m)
          + filed (grouped now m)
          + filed (lone now m)
  unfolding retain
  filed-retain now [] = refl
  filed-retain now ((k, es) ∷ m) = ground (arith, filed-retain now m, should_seal-nonempty now es)

module _ (to_rfc3339 : ℕ → String) (debug_key : CorrelationKey → String) where
  reports-grouped :
      (now : ℕ) (m : Buckets)
      → reports to_rfc3339 debug_key now m
        ≡ map (λ b. aggregate to_rfc3339 debug_key b.0 b.1) (grouped now m)
  unfolding reports
  reports-grouped now [] = refl
  reports-grouped now ((k, es) ∷ m) = elim (Bool-cases (should_seal now es && leb 2 (length es))) [
    | inl told ↦ rw (told) (ap (◌∷◌ (aggregate to_rfc3339 debug_key k es)) (reports-grouped now m))
    | inr n ↦ rw (n) (reports-grouped now m)
  ]

  counts-grouped :
      (now : ℕ) (m : Buckets)
      → map (λ r. r.alert_count) (reports to_rfc3339 debug_key now m)
        ≡ map (λ b. length b.1) (grouped now m)
  unfolding reports aggregate
  counts-grouped now [] = refl
  counts-grouped now ((k, es) ∷ m) = elim (Bool-cases (should_seal now es && leb 2 (length es))) [
    | inl told ↦ rw (told) (ap (◌∷◌ (length es)) (counts-grouped now m))
    | inr n ↦ rw (n) (counts-grouped now m)
  ]

  -- An ingested alert brings one entry or two, each under one of its keys. When the buckets are
  -- flushed after it, then, for any selection of entries by key and content, those filed before
  -- and those that the alert brings are as many as those still filed, those of the buckets
  -- reported, and those that were alone in a bucket whose window is over: no entry is lost, changed
  -- or filed twice. The reports are those of the reported buckets, one each and in their order, with
  -- the number of the entries.
  pub filed-flush-ingest :
      (chosen : CorrelationKey → BucketEntry → Bool) (now later : ℕ) (a : Alert) (m : Buckets)
      → let e : BucketEntry = record { received_at = now; alert = a } in
        let before = ingest now a m in
        let (rs, kept) = flush to_rfc3339 debug_key later before in
        (filed chosen m + arriving chosen e (keys_of a)
          ≡ filed chosen kept
            + filed chosen (grouped later before)
            + filed chosen (lone later before))
        × (rs ≡ map (λ b. aggregate to_rfc3339 debug_key b.0 b.1) (grouped later before))
        × (map (λ r. r.alert_count) rs ≡ map (λ b. length b.1) (grouped later before))
        × (1 ≤ length (keys_of a))
        × (length (keys_of a) ≤ 2)
  unfolding ingest flush
  filed-flush-ingest chosen now later a m =
      let e : BucketEntry = record { received_at = now; alert = a } in
      let before = file_under (keys_of a) e m in
      let (low, high) = length-keys_of a in
      (
        omega (arith, filed-file_under chosen (keys_of a) e m, filed-retain chosen later before),
        reports-grouped later before,
        counts-grouped later before,
        low,
        high,
      )
