-- ===== src/Soar/Correlator/Report.antt =====
-- soar/mod.rs: what the report of a bucket says.
use Prim.Native.Nat.{max}
use thor_firewall_smart.Prelude.{
  ℕ, ◌≡◌, String, ◌||◌, List, [], ◌∷◌, arith, length, ltb, ◌==◌, string_eq, Bool-cases, inl, inr,
  refl, contains, eq_iff, map,
}
use thor_firewall_smart.Soar.Correlator.{
  ThreatLevel, unknown, CorrelationKey, BucketEntry, aggregate, rank, max_level, insert_name,
  rule_names_of,
}

-- The highest rank of the entries.
abbrev pub top_rank : List BucketEntry → ℕ
top_rank [] = 0
top_rank (e ∷ es) = max (rank e.alert.threat_level) (top_rank es)

rank-max_level :
    (l : ThreatLevel) (es : List BucketEntry) → rank (max_level l es) ≡ max (rank l) (top_rank es)
unfolding max_level
rank-max_level l [] = omega arith
rank-max_level l (e ∷ es) = elim (Bool-cases (ltb (rank e.alert.threat_level) (rank l))) [
  | inl below ↦ rw below (ground (arith, rank-max_level l es, below))
  | inr above ↦ rw above (ground (arith, rank-max_level e.alert.threat_level es, above))
]

contains-insert_name :
    (name r : String) (ss : List String)
    → contains (insert_name r ss) name ≡ (name == r || contains ss name)
unfolding contains insert_name
contains-insert_name name r [] = refl
contains-insert_name name r (s ∷ ss) =
    ground (arith, contains-insert_name name r ss, eq_iff r s, eq_iff name r, eq_iff name s)

contains-rule_names_of :
    (name : String) (es : List BucketEntry)
    → contains (rule_names_of es) name ≡ contains (map (λ e. e.alert.rule_name) es) name
unfolding contains rule_names_of
contains-rule_names_of name [] = refl
contains-rule_names_of name (e ∷ es) =
    rw
      (
        contains-insert_name name e.alert.rule_name (rule_names_of es),
        contains-rule_names_of name es,
      )
      refl

-- The report of a bucket has the highest level of its entries, their number, and the names of
-- exactly their rules.
pub aggregate_lem :
    (to_rfc3339 : ℕ → String) (debug_key : CorrelationKey → String) (key : CorrelationKey)
    (es : List BucketEntry) (name : String)
    → let r = aggregate to_rfc3339 debug_key key es in
      (rank r.max_threat_level ≡ top_rank es)
      × (r.alert_count ≡ length es)
      × (contains r.rule_names name ≡ contains (map (λ e. e.alert.rule_name) es) name)
unfolding aggregate
aggregate_lem to_rfc3339 debug_key key es name =
    (omega (arith, rank-max_level unknown es), refl, contains-rule_names_of name es)
