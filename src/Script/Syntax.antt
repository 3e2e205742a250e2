-- ===== src/Script/Syntax.antt =====
-- crates/thor-script/src/parser.rs: the tree of a script, and its tokens.
use thor_firewall_smart.Prelude.{String, Bool, List}
use thor_firewall_smart.Prelude.Int.{ℤ}

pub data EventType : Type 0 where
  network dns http tls process file any : EventType

pub data Operator : Type 0 where
  eq ne lt gt le ge in_list not_in match_regex not_match contains_text : Operator

-- `Values` is the vector in a list.
mutual
  pub data Value : Type 0 where
    str : String → Value
    int : ℤ → Value
    list : Values → Value
    regex : String → Value
    bool : Bool → Value

  pub data Values : Type 0 where
    no_values : Values
    value : Value → Values → Values

pub data Condition : Type 0 where
  compare : (field : String) (op : Operator) (value : Value) → Condition
  payload_match : (pattern_text : String) (case_insensitive : Bool) → Condition
  and_cond or_cond : Condition → Condition → Condition
  not_cond : Condition → Condition
  always : Condition

pub data Action : Type 0 where
  alert : (severity msg : String) → Action
  log : (message : String) → Action
  drop_packet : Action

pub record Rule : Type 0 where
  pub name : String
  pub event_type : EventType
  pub condition : Condition
  pub actions : List Action
  pub enabled : Bool

pub data ScriptToken : Type 0 where
  keyword identifier string_lit : String → ScriptToken
  int_lit : ℤ → ScriptToken
  regex_lit : (pattern_text flags : String) → ScriptToken
  l_brace r_brace l_paren r_paren l_bracket r_bracket : ScriptToken
  colon comma plus : ScriptToken
  op_eq op_ne op_lt op_gt op_le op_ge : ScriptToken
  eof : ScriptToken
