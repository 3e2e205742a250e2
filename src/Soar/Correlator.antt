-- ===== src/Soar/Correlator.antt =====
-- crates/thor-agent/src/soar/mod.rs: the correlation of alerts. Of an alert the fields that the
-- correlator reads are modelled. Instants are nanoseconds; a call reads the clock once. The two
-- texts that the formatters of the libraries make are parameters.
pub mod Sealing
pub mod Counts
pub mod Report
mod Tests
use Prim.Native.String.{◌++◌, compare}
use Prim.Native.Nat.{Ordering, max}
use mathlib.Core.List.{◌++◌ as append}
use thor_firewall_smart.Prelude.{
  ℕ, suc, ◌-◌, ◌*◌, String, Bool, true, false, not, ◌&&◌, ◌||◌, Option, none, some, List, [], ◌∷◌,
  ◌≡◌, ◌↔◌, length, ltb, leb, if◌then◌else◌, ◌==◌, string_eq, nat_eq, PartialEq, min, eq_iff,
  nat_beq_iff, arith,
}
use thor_firewall_smart.Prelude.Dict.{Dict, lookup_or, insert, retain}
use thor_firewall_smart.Prelude.Text.{starts_with}

pub data ThreatLevel : Type 0 where
  unknown low medium high critical : ThreatLevel

pub record Alert : Type 0 where
  pub timestamp : ℕ
  pub rule_name : String
  pub threat_level : ThreatLevel
  pub pid : Option ℕ
  pub src_ip : Option String

pub data CorrelationKey : Type 0 where
  pid : ℕ → CorrelationKey
  src_ip : String → CorrelationKey

abbrev pub same_key : CorrelationKey → CorrelationKey → Bool
same_key (pid p) (pid q) = p == q
same_key (src_ip a) (src_ip b) = a == b
same_key (pid p) (src_ip b) = false
same_key (src_ip a) (pid q) = false

pub same_key_iff : (k l : CorrelationKey) → (same_key k l ≡ true) ↔ (k ≡ l)
same_key_iff (pid p) (pid q) = ground (arith, nat_beq_iff p q)
same_key_iff (src_ip a) (src_ip b) = ground (arith, eq_iff a b)
same_key_iff (pid p) (src_ip b) = ground arith
same_key_iff (src_ip a) (pid q) = ground arith

instance abbrev pub key_eq : PartialEq CorrelationKey
key_eq = record { same = same_key; same_iff = same_key_iff }

pub record BucketEntry : Type 0 where
  pub received_at : ℕ
  pub alert : Alert

pub record AggregatedAlert : Type 0 where
  pub correlation_key : String
  pub max_threat_level : ThreatLevel
  pub alert_count : ℕ
  pub rule_names : List String
  pub window_start : String
  pub window_end : String
  pub pid : Option ℕ
  pub src_ip : Option String

abbrev pub Buckets : Type 0
Buckets = Dict CorrelationKey (List BucketEntry)

-- `60` seconds.
abbrev pub correlation_window : ℕ
correlation_window = 60 * 1_000_000_000

unfoldable pub pid_keys : Alert → List CorrelationKey
pid_keys a = elim a.pid [ none ↦ [] | some p ↦ pid p ∷ [] ]

abbrev pub is_address : String → Bool
is_address ip = not (ip == "") && not (ip == "0.0.0.0")

unfoldable pub ip_keys : Alert → List CorrelationKey
ip_keys a = elim a.src_ip [ none ↦ [] | some ip ↦ if is_address ip then src_ip ip ∷ [] else [] ]

-- The keys under which an alert is filed.
unfoldable pub keys_of : Alert → List CorrelationKey
keys_of a =
    let keys = append (pid_keys a) (ip_keys a) in
    if length keys == 0 then src_ip ("rule:" ++ a.rule_name) ∷ [] else keys

unfoldable pub push_entry : BucketEntry → List BucketEntry → List BucketEntry
push_entry e [] = e ∷ []
push_entry e (f ∷ es) = f ∷ push_entry e es

unfoldable pub file_under : List CorrelationKey → BucketEntry → Buckets → Buckets
file_under [] e m = m
file_under (k ∷ ks) e m = file_under ks e (insert k (push_entry e (lookup_or k [] m)) m)

unfoldable pub ingest : ℕ → Alert → Buckets → Buckets
ingest now a m = file_under (keys_of a) (record { received_at = now; alert = a }) m

-- `min` of the instants, where there is one.
unfoldable pub oldest : List BucketEntry → Option ℕ
oldest [] = none
oldest (e ∷ es) = elim (oldest es) [
  | none ↦ some e.received_at
  | some t ↦ some (min e.received_at t)
]

unfoldable pub should_seal : ℕ → List BucketEntry → Bool
should_seal now es = elim (oldest es) [ none ↦ false | some t ↦ leb correlation_window (now - t) ]

abbrev pub rank : ThreatLevel → ℕ
rank critical = 4
rank high = 3
rank medium = 2
rank low = 1
rank unknown = 0

-- `max_by_key`, which takes the last of several.
unfoldable pub max_level : ThreatLevel → List BucketEntry → ThreatLevel
max_level l [] = l
max_level l (e ∷ es) =
    max_level (if ltb (rank e.alert.threat_level) (rank l) then l else e.alert.threat_level) es

-- A set in the order of its elements.
unfoldable pub insert_name : String → List String → List String
insert_name r [] = r ∷ []
insert_name r (s ∷ ss) =
    if r == s
    then s ∷ ss
    else elim (compare r s) [ Ordering.lt ↦ r ∷ s ∷ ss | _ ↦ s ∷ insert_name r ss ]

unfoldable pub rule_names_of : List BucketEntry → List String
rule_names_of [] = []
rule_names_of (e ∷ es) = insert_name e.alert.rule_name (rule_names_of es)

-- `min` and `max` of the times of the alerts.
unfoldable pub earliest : List BucketEntry → Option ℕ
earliest [] = none
earliest (e ∷ es) = elim (earliest es) [
  | none ↦ some e.alert.timestamp
  | some t ↦ some (min e.alert.timestamp t)
]

unfoldable pub latest : List BucketEntry → Option ℕ
latest [] = none
latest (e ∷ es) = elim (latest es) [
  | none ↦ some e.alert.timestamp
  | some t ↦ some (max e.alert.timestamp t)
]

unfoldable pub pid_of : CorrelationKey → List BucketEntry → Option ℕ
pid_of (pid p) es = some p
pid_of (src_ip ip) [] = none
pid_of (src_ip ip) (e ∷ es) = e.alert.pid

unfoldable pub src_ip_of : CorrelationKey → List BucketEntry → Option String
src_ip_of (src_ip ip) es = if starts_with ip "rule:" then none else some ip
src_ip_of (pid p) [] = none
src_ip_of (pid p) (e ∷ es) = e.alert.src_ip

-- `should_seal` and enough entries to report.
abbrev pub is_reported : ℕ → List BucketEntry → Bool
is_reported now es = should_seal now es && leb 2 (length es)

module _ (to_rfc3339 : ℕ → String) (debug_key : CorrelationKey → String) where
  abbrev pub text_of : Option ℕ → String
  text_of t = elim t [ none ↦ "" | some x ↦ to_rfc3339 x ]

  unfoldable pub aggregate : CorrelationKey → List BucketEntry → AggregatedAlert
  aggregate key es = record {
    correlation_key = debug_key key;
    max_threat_level = max_level unknown es;
    alert_count = length es;
    rule_names = rule_names_of es;
    window_start = text_of (earliest es);
    window_end = text_of (latest es);
    pid = pid_of key es;
    src_ip = src_ip_of key es;
  }

  unfoldable pub reports : ℕ → Buckets → List AggregatedAlert
  reports now [] = []
  reports now ((k, es) ∷ m) =
      if is_reported now es then aggregate k es ∷ reports now m else reports now m

  unfoldable pub flush : ℕ → Buckets → List AggregatedAlert × Buckets
  flush now m = (reports now m, retain (λ _ es. not (should_seal now es)) m)
