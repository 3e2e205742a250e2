-- ===== src/Soar/Correlator/Sealing.antt =====
-- soar/mod.rs: when a bucket is sealed, and what its report says.
use thor_firewall_smart.Prelude.{
  ℕ, ◌+◌, ◌-◌, ◌≡◌, ◌≤◌, String, Bool, true, not, Option, none, some, List, [], ◌∷◌, arith, length,
  ◌==◌, nat_eq, string_eq, Bool-cases, inl, inr, refl, ap, All, min, le→leb,
}
use thor_firewall_smart.Prelude.Dict.{lookup, lookup_or, insert, retain}
use thor_firewall_smart.Soar.Correlator.{
  Alert, CorrelationKey, key_eq, BucketEntry, Buckets, keys_of, push_entry, file_under, ingest,
  oldest, should_seal, flush, correlation_window,
}

-- Every bucket has an entry, and no entry came after `now`.
abbrev pub IsFiledBy : ℕ → List BucketEntry → Type 0
IsFiledBy now es = (1 ≤ length es) × All (λ e. e.received_at ≤ now) es

abbrev pub AllFiledBy : ℕ → Buckets → Type 0
AllFiledBy now m = All (λ b. IsFiledBy now b.1) m

oldest-le :
    (now : ℕ) (es : List BucketEntry)
    → IsFiledBy now es
    → (t : ℕ) × (oldest es ≡ some t) × (t ≤ now)
unfolding oldest
oldest-le now [] (h, a) = absurd (omega (arith, h))
oldest-le now (e ∷ []) (h, a) = (e.received_at, refl, a.0)
oldest-le now (e ∷ f ∷ es) (h, a) =
    let (t, o, b) = oldest-le now (f ∷ es) (omega arith, a.1) in
    let earlier : Option ℕ → Option ℕ =
      λ q. elim q [ none ↦ some e.received_at | some u ↦ some (min e.received_at u) ] in
    (min e.received_at t, ap earlier o, omega (arith, b))

should_seal-IsFiledBy :
    (now later : ℕ) (es : List BucketEntry)
    → IsFiledBy now es
    → now + correlation_window ≤ later
    → should_seal later es ≡ true
unfolding should_seal
should_seal-IsFiledBy now later es f h =
    let (t, o, b) = oldest-le now es f in
    rw (should_seal, o) (le→leb correlation_window (later - t) (omega (arith, b, h)))

push_entry-IsFiledBy :
    (now : ℕ) (e : BucketEntry) (es : List BucketEntry)
    → e.received_at ≤ now
    → All (λ e. e.received_at ≤ now) es
    → IsFiledBy now (push_entry e es)
unfolding push_entry
push_entry-IsFiledBy now e [] h a = (omega arith, (h, tt))
push_entry-IsFiledBy now e (f ∷ es) h a =
    (omega arith, (a.0, (push_entry-IsFiledBy now e es h a.1).1))

insert-AllFiledBy :
    (now : ℕ) (k : CorrelationKey) (es : List BucketEntry) (m : Buckets)
    → IsFiledBy now es
    → AllFiledBy now m
    → AllFiledBy now (insert k es m)
unfolding insert
insert-AllFiledBy now k es [] f a = (f, tt)
insert-AllFiledBy now k es ((j, old) ∷ m) f a = elim (Bool-cases (j == k)) [
  | inl e ↦ rw e (f, a.1)
  | inr n ↦ rw n (a.0, insert-AllFiledBy now k es m f a.1)
]

lookup_or-received :
    (now : ℕ) (k : CorrelationKey) (m : Buckets)
    → AllFiledBy now m
    → All (λ e. e.received_at ≤ now) (lookup_or k [] m)
unfolding lookup
lookup_or-received now k [] a = tt
lookup_or-received now k ((j, es) ∷ m) a = elim (Bool-cases (j == k)) [
  | inl e ↦ rw e a.0.1
  | inr n ↦ rw n (lookup_or-received now k m a.1)
]

file_under-AllFiledBy :
    (now : ℕ) (ks : List CorrelationKey) (e : BucketEntry) (m : Buckets)
    → e.received_at ≤ now
    → AllFiledBy now m
    → AllFiledBy now (file_under ks e m)
unfolding file_under
file_under-AllFiledBy now [] e m h a = a
file_under-AllFiledBy now (k ∷ ks) e m h a = file_under-AllFiledBy now ks e _ h (
    insert-AllFiledBy now k (push_entry e (lookup_or k [] m)) m
      (push_entry-IsFiledBy now e (lookup_or k [] m) h (lookup_or-received now k m a)) a)

retain-AllFiledBy :
    (now : ℕ) (p : CorrelationKey → List BucketEntry → Bool) (m : Buckets)
    → AllFiledBy now m
    → AllFiledBy now (retain p m)
unfolding retain
retain-AllFiledBy now p [] a = tt
retain-AllFiledBy now p ((k, es) ∷ m) a = elim (Bool-cases (p k es)) [
  | inl e ↦ rw e (a.0, retain-AllFiledBy now p m a.1)
  | inr n ↦ rw n (retain-AllFiledBy now p m a.1)
]

retain-sealed :
    (now later : ℕ) (m : Buckets)
    → AllFiledBy now m
    → now + correlation_window ≤ later
    → retain (λ _ es. not (should_seal later es)) m ≡ []
unfolding retain
retain-sealed now later [] a h = refl
retain-sealed now later ((k, es) ∷ m) a h =
    rw (should_seal-IsFiledBy now later es a.0 h) (retain-sealed now later m a.1 h)

-- The calls of the correlator, with their instants.
pub data Call : Type 0 where
  ingested : ℕ → Alert → Call
  flushed : ℕ → Call

abbrev pub instant : Call → ℕ
instant (ingested now a) = now
instant (flushed now) = now

module _ (to_rfc3339 : ℕ → String) (debug_key : CorrelationKey → String) where
  abbrev pub run : List Call → Buckets → Buckets
  run [] m = m
  run (ingested now a ∷ cs) m = run cs (ingest now a m)
  run (flushed now ∷ cs) m = run cs (flush to_rfc3339 debug_key now m).1

  run-AllFiledBy :
      (last : ℕ) (cs : List Call) (m : Buckets)
      → All (λ c. instant c ≤ last) cs
      → AllFiledBy last m
      → AllFiledBy last (run cs m)
  unfolding ingest flush
  run-AllFiledBy last [] m h a = a
  run-AllFiledBy last (ingested now al ∷ cs) m h a =
      run-AllFiledBy last cs _ h.1
        (file_under-AllFiledBy last (keys_of al) (record { received_at = now; alert = al }) m h.0 a)
  run-AllFiledBy last (flushed now ∷ cs) m h a =
      run-AllFiledBy last cs _ h.1 (retain-AllFiledBy last _ m a)

  -- No bucket stays for good: after any calls, a flush that comes a correlation window after the
  -- last of them leaves no bucket.
  pub run-flush-empty :
      (last later : ℕ) (cs : List Call)
      → All (λ c. instant c ≤ last) cs
      → last + correlation_window ≤ later
      → (flush to_rfc3339 debug_key later (run cs [])).1 ≡ []
  unfolding flush
  run-flush-empty last later cs h w =
      retain-sealed last later (run cs []) (run-AllFiledBy last cs [] h tt) w
