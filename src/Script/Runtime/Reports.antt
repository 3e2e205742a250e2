-- ===== src/Script/Runtime/Reports.antt =====
-- runtime.rs and lib.rs: what the engine reports of the rules it was given, or has loaded.
use Prim.Native.String.{String}
use mathlib.Core.Bool.{or-false}
use mathlib.Core.List.{◌++◌ as append, append_assoc, append-nil, map-append}
use thor_firewall_smart.Prelude.{
  ◌≡◌, inl, inr, refl, sym, ap, ◌∙◌, Bool, true, false, not, ◌&&◌, ◌||◌, Option, none, some,
  Bool-cases, List, [], ◌∷◌, map, filterb, or-true, if◌then◌else◌, ◌==◌, string_eq,
}
use thor_firewall_smart.Script.Syntax.{Action, alert, log, drop_packet, Rule}
use thor_firewall_smart.Script.Parser.Outcomes.{Outcome, ok, failed, out_of_fuel}
use thor_firewall_smart.Script.Parser.{parse_script}
use thor_firewall_smart.Script.Runtime.Cache.{meaning, eval_condition-collect_regexes}
use thor_firewall_smart.Script.Runtime.{
  Crates, matches_event, compile, run_action, run_actions, start_result, evaluate_rule,
  evaluate_from, evaluate_all, ScriptEngine, new_engine, add_rule, add_rules, add_parsed,
  load_entry, load_entries, load_scripts_from_dir,
}
use thor_firewall_smart.Script.Context.{ExecutionContext, ScriptResult, expand_string}

abbrev pub last_alert : String × String → List Action → String × String
last_alert before [] = before
last_alert before (alert s m ∷ as_) = last_alert (s, m) as_
last_alert before (a ∷ as_) = last_alert before as_

abbrev pub drops : List Action → Bool
drops [] = false
drops (drop_packet ∷ as_) = true
drops (a ∷ as_) = drops as_

abbrev pub messages : List Action → List String
messages [] = []
messages (log message ∷ as_) = message ∷ messages as_
messages (a ∷ as_) = messages as_

-- The severity and the message of the last alert, or the rule's name at severity medium; whether any
-- action drops; the messages of the logs in their order, expanded.
abbrev pub report : ExecutionContext → Rule → ScriptResult
report ctx rule =
    let alerted = last_alert ("medium", rule.name) rule.actions in
    record {
      rule_name = rule.name;
      severity = alerted.0;
      msg = alerted.1;
      drop = drops rule.actions;
      logs = map (λ m. expand_string m ctx) (messages rule.actions);
    }

abbrev pub parsed : Outcome (List Rule) → List Rule
parsed (ok rules) = rules
parsed _ = []

module _ (crates : Crates) where
  abbrev after_actions : ExecutionContext → List Action → ScriptResult → ScriptResult
  after_actions ctx as_ r =
      let alerted = last_alert (r.severity, r.msg) as_ in
      record {
        rule_name = r.rule_name;
        severity = alerted.0;
        msg = alerted.1;
        drop = r.drop || drops as_;
        logs = append r.logs (map (λ m. expand_string m ctx) (messages as_));
      }

  run_actions_lem :
      (ctx : ExecutionContext) (as_ : List Action) (r : ScriptResult)
      → run_actions ctx as_ r ≡ after_actions ctx as_ r
  unfolding run_actions run_action
  run_actions_lem ctx [] r = rw (or-false r.drop, append-nil r.logs) refl
  run_actions_lem ctx (alert s m ∷ as_) r =
      run_actions_lem ctx as_ (record r { severity = s; msg = m })
  run_actions_lem ctx (log message ∷ as_) r =
      let line = expand_string message ctx in
      run_actions_lem ctx as_ (record r { logs = append r.logs (line ∷ []) })
      ∙ rw (append_assoc r.logs (line ∷ []) (map (λ m. expand_string m ctx) (messages as_))) refl
  run_actions_lem ctx (drop_packet ∷ as_) r =
      run_actions_lem ctx as_ (record r { drop = true }) ∙ rw (or-true r.drop) refl

  run_actions-start :
      (ctx : ExecutionContext) (rule : Rule)
      → run_actions ctx rule.actions (start_result rule) ≡ report ctx rule
  run_actions-start ctx rule = run_actions_lem ctx rule.actions (start_result rule)

  -- A rule is reported when it is enabled, is about the event, and its condition is true.
  abbrev pub fires : ExecutionContext → Rule → Bool
  fires ctx rule =
      rule.enabled
      && matches_event rule.event_type ctx.event_type
      && meaning crates rule.condition ctx

  abbrev pub reports : ExecutionContext → List Rule → List ScriptResult
  reports ctx rules = map (report ctx) (filterb (fires ctx) rules)

  evaluate_rule-compile :
      (ctx : ExecutionContext) (rule : Rule) (results : List ScriptResult)
      → evaluate_rule crates (compile crates rule) ctx results
        ≡ (if fires ctx rule then append results (report ctx rule ∷ []) else results)
  unfolding evaluate_rule compile
  evaluate_rule-compile ctx rule results =
      rw (eval_condition-collect_regexes crates rule.condition ctx, run_actions-start ctx rule)
        (three rule.enabled (matches_event rule.event_type ctx.event_type)
          (meaning crates rule.condition ctx) results (append results (report ctx rule ∷ [])))
    where
      three :
          (a b c : Bool) (x y : List ScriptResult)
          → (if not a then x else if not b then x else if c then y else x)
            ≡ (if a && b && c then y else x)
      three true true c x y = refl
      three true false c x y = refl
      three false b c x y = refl

  evaluate_from-map :
      (ctx : ExecutionContext) (rules : List Rule) (results : List ScriptResult)
      → evaluate_from crates (map (compile crates) rules) ctx results
        ≡ append results (reports ctx rules)
  evaluate_from-map ctx [] results = sym (append-nil results)
  evaluate_from-map ctx (rule ∷ rules) results =
      ap (λ r. evaluate_from crates (map (compile crates) rules) ctx r)
        (evaluate_rule-compile ctx rule results)
      ∙ elim (Bool-cases (fires ctx rule)) [
        | inl e ↦ rw e (
            evaluate_from-map ctx rules (append results (report ctx rule ∷ []))
            ∙ append_assoc results (report ctx rule ∷ []) (reports ctx rules))
        | inr e ↦ rw e (evaluate_from-map ctx rules results)
      ]

  rules-add_rules :
      (rules : List Rule) (engine : ScriptEngine crates)
      → (add_rules crates rules engine).rules ≡ append engine.rules (map (compile crates) rules)
  unfolding add_rule
  rules-add_rules [] engine = sym (append-nil engine.rules)
  rules-add_rules (r ∷ rules) engine =
      rules-add_rules rules (add_rule crates r engine)
      ∙ append_assoc engine.rules (compile crates r ∷ []) (map (compile crates) rules)

  -- An engine that was given the rules one after the other reports, in their order, of exactly the
  -- rules that are enabled, are about the context's event, and have a condition that is true of the
  -- context; each report has the severity and the message of the rule's last alert (or `medium` and
  -- the rule's name), says whether an action drops, and has the expanded log messages in order.
  pub evaluate_all-add_rules :
      (ctx : ExecutionContext) (rules : List Rule)
      → evaluate_all crates (add_rules crates rules (new_engine crates)) ctx ≡ reports ctx rules
  unfolding evaluate_all
  evaluate_all-add_rules ctx rules =
      rw (rules-add_rules rules (new_engine crates)) (evaluate_from-map ctx rules [])

  -- The rules of an entry that is a script, can be read and can be parsed.
  abbrev pub rules_of : Option String × Option String → List Rule
  rules_of (some e, some src) = if e == "thor" then parsed (parse_script src) else []
  rules_of _ = []

  abbrev pub rules_of_all : List (Option String × Option String) → List Rule
  rules_of_all [] = []
  rules_of_all (e ∷ es) = append (rules_of e) (rules_of_all es)

  rules-load_entry :
      (e : Option String × Option String) (engine : ScriptEngine crates)
      → (load_entry crates e engine).rules ≡ append engine.rules (map (compile crates) (rules_of e))
  rules-load_entry (extension, none) engine = other extension
    where
      other :
          (x : Option String)
          → engine.rules ≡ append engine.rules (map (compile crates) (rules_of (x, none)))
      other none = sym (append-nil engine.rules)
      other (some e) = sym (append-nil engine.rules)
  rules-load_entry (none, some src) engine = sym (append-nil engine.rules)
  rules-load_entry (some e, some src) engine = elim (Bool-cases (e == "thor")) [
    | inl yes_thor ↦ rw yes_thor (added (parse_script src))
    | inr no_thor ↦ rw no_thor (sym (append-nil engine.rules))
  ]
    where
      added :
          (r : Outcome (List Rule))
          → (add_parsed crates r engine).rules
            ≡ append engine.rules (map (compile crates) (parsed r))
      added (ok rules) = rules-add_rules rules engine
      added (failed x) = sym (append-nil engine.rules)
      added out_of_fuel = sym (append-nil engine.rules)

  rules-load_entries :
      (es : List (Option String × Option String)) (engine : ScriptEngine crates)
      → (load_entries crates es engine).rules
        ≡ append engine.rules (map (compile crates) (rules_of_all es))
  rules-load_entries [] engine = sym (append-nil engine.rules)
  rules-load_entries (e ∷ es) engine =
      rules-load_entries es (load_entry crates e engine)
      ∙ rw (rules-load_entry e engine, map-append (compile crates) (rules_of e) (rules_of_all es))
          (append_assoc engine.rules (map (compile crates) (rules_of e))
            (map (compile crates) (rules_of_all es)))

  -- The engine that is loaded from a directory reports as one that was given the rules of its `.thor`
  -- files, in the order of the walk; a file that cannot be read, or has an error anywhere, adds none.
  pub evaluate_all-load_scripts_from_dir :
      (ctx : ExecutionContext) (es : List (Option String × Option String))
      → evaluate_all crates (load_scripts_from_dir crates (some es)) ctx
        ≡ reports ctx (rules_of_all es)
  unfolding evaluate_all load_scripts_from_dir
  evaluate_all-load_scripts_from_dir ctx es =
      rw (rules-load_entries es (new_engine crates)) (evaluate_from-map ctx (rules_of_all es) [])
