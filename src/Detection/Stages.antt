-- ===== src/Detection/Stages.antt =====
-- crates/thor-agent/src/detection/sequence_detector.rs: the rules, and the predicates of their stages.
-- and a call takes what it reads from the clock. Of an event the raw part is what `source` returns; of
-- an alert its identifier and its date are left out.
use Prim.Native.String.{String}
use thor_firewall_smart.Prelude.{
  ℕ, Bool, true, false, ◌&&◌, ◌||◌, Option, none, some, List, [], ◌∷◌, ◌==◌, string_eq, nat_eq,
  contains,
}
use thor_firewall_smart.Prelude.Text.{contains_str}
use thor_firewall_smart.Soar.Correlator.{ThreatLevel}

pub data EntityField : Type 0 where
  hostname pid user_id src_ip : EntityField

-- `Predicates` is the vector of a compound.
mutual
  pub data StagePredicate : Type 0 where
    command_contains process_name_in : List String → StagePredicate
    event_type_equals : String → StagePredicate
    and_of or_of : Predicates → StagePredicate

  pub data Predicates : Type 0 where
    no_predicates : Predicates
    predicate : StagePredicate → Predicates → Predicates

pub record EnrichedEvent : Type 0 where
  pub raw_source : String
  pub hostname : Option String
  pub src_ip_str : Option String
  pub dst_ip_str : Option String
  pub command_line : Option String
  pub process_name : Option String
  pub event_type : Option String
  pub user_id : Option String
  pub pid : Option ℕ

pub record SequenceStage : Type 0 where
  pub name : String
  pub entity_field : EntityField
  pub predicate : StagePredicate

pub record SequenceRule : Type 0 where
  pub id : String
  pub title : String
  pub description : String
  pub threat_level : ThreatLevel
  pub stages : List SequenceStage
  pub window : ℕ
  pub tags : List String

abbrev pub unwrap_or : Option String → String → String
unwrap_or none d = d
unwrap_or (some s) d = s

abbrev pub any_contained : List String → String → Bool
any_contained [] text = false
any_contained (p ∷ ps) text = contains_str p text || any_contained ps text

abbrev pub is_some_of : Option String → String → Bool
is_some_of none t = false
is_some_of (some s) t = s == t

unfoldable mutual
  unfolding contains

  pub matches : StagePredicate → EnrichedEvent → Bool
  matches (command_contains patterns) e = any_contained patterns (unwrap_or e.command_line "")
  matches (process_name_in names) e = contains names (unwrap_or e.process_name "")
  matches (event_type_equals t) e = is_some_of e.event_type t
  matches (and_of ps) e = all_match ps e
  matches (or_of ps) e = any_match ps e

  pub all_match : Predicates → EnrichedEvent → Bool
  all_match no_predicates e = true
  all_match (predicate p ps) e = matches p e && all_match ps e

  pub any_match : Predicates → EnrichedEvent → Bool
  any_match no_predicates e = false
  any_match (predicate p ps) e = matches p e || any_match ps e
