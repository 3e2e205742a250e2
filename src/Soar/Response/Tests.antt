-- ===== src/Soar/Response/Tests.antt =====
-- soar/mod.rs: two alerts, with thousandths for the confidence.
use thor_firewall_smart.Prelude.{
  ℕ, ◌≡◌, String, Bool, true, false, Option, none, some, List, [], ◌∷◌, string_eq, nat_eq, refl,
}
use thor_firewall_smart.Prelude.Dict.{insert, lookup}
use thor_firewall_smart.Prelude.Text.{starts_with, trim_end}
use thor_firewall_smart.Prelude.F64.Toy.{thousandths}
use thor_firewall_smart.Soar.Breaker.{new_breaker, check_and_increment}
use thor_firewall_smart.Soar.Blocking.{is_whitelisted, exempts, auto_block_ip}
use thor_firewall_smart.Soar.Suspender.{Signal, sigstop, new_suspender, suspend_process}
use thor_firewall_smart.Soar.Correlator.{high}
use thor_firewall_smart.Soar.Response.{
  ScoredAlert, Response, respond, enforce, interdict, quarantine, inspect, suspend,
}
use thor_firewall_smart.Soar.Response.Stages.{at_least, respond-blocked}
use thor_firewall_smart.Soar.Response.Suspension.{respond-suspended}

abbrev alert : ℕ → ScoredAlert ℕ
alert confidence = record {
  id = "alert-1";
  alert = record {
    timestamp = 7;
    rule_name = "scan";
    threat_level = high;
    pid = some 42;
    src_ip = some "6.6.6.6";
  };
  confidence_score = confidence;
  xai_explanation = none;
  process_name = none;
}

abbrev start : Response
start = record {
  engine = record {
    whitelist = "127.0.0.1" ∷ [];
    blocked_ips = [];
    circuit_breaker = new_breaker 0 50;
  };
  correlator = [];
  shaped_ips = [];
  inspecting_ips = [];
  suspender = new_suspender;
  thehive_url = none;
  total_alerts = 0;
}

abbrev allowed : List (ℕ × Signal) → ℕ → Signal → Bool
allowed sent pid s = true

abbrev no_case : String → ScoredAlert ℕ → Option String
no_case url a = none

abbrev score_text : ℕ → String
score_text n = "0.600"

respond-blocked_example :
    (at_least thousandths 90 (alert 950) ≡ true)
    × ((alert 950).alert.src_ip ≡ some "6.6.6.6")
    × (is_whitelisted start.engine.whitelist "6.6.6.6" ≡ false)
unfolding respond enforce interdict auto_block_ip check_and_increment is_whitelisted exempts
    starts_with trim_end insert lookup
respond-blocked_example =
    respond-blocked thousandths allowed no_case score_text 5 (alert 950) start "6.6.6.6" refl refl

respond-suspended_example :
    (at_least thousandths 50 (alert 600) ≡ true)
    × (at_least thousandths 70 (alert 600) ≡ false)
    × ((alert 600).alert.pid ≡ some 42)
    × (allowed [] 42 sigstop ≡ true)
unfolding respond enforce quarantine inspect suspend suspend_process insert lookup
respond-suspended_example =
    respond-suspended thousandths allowed no_case score_text 5 (alert 600) start 42 refl refl
