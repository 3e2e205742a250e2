-- ===== src/Api/RateLimit.antt =====
-- crates/thor-agent/src/api/rate_limit.rs: requests for each address and window. Instants and
-- durations are nanoseconds; a call reads the clock once.
pub mod Allowance
mod Tests
use thor_firewall_smart.Prelude.{
  ℕ, ◌+◌, ◌-◌, ◌*◌, ◌%◌, ◌^◌, String, Bool, true, false, not, List, [], ltb, leb, if◌then◌else◌,
  string_eq,
}
use thor_firewall_smart.Prelude.Dict.{Dict, lookup_or, insert, retain}

pub record WindowEntry : Type 0 where
  pub count : ℕ
  pub window_start : ℕ

pub record RateLimiter : Type 0 where
  pub windows : Dict String WindowEntry
  pub window_duration : ℕ
  pub max_requests : ℕ

abbrev pub new_limiter : ℕ → ℕ → RateLimiter
new_limiter max_requests window_duration = record {
  windows = [];
  window_duration = window_duration;
  max_requests = max_requests;
}

abbrev pub new_window : ℕ → WindowEntry
new_window now = record { count = 1; window_start = now }

abbrev pub is_expired : ℕ → ℕ → WindowEntry → Bool
is_expired now window e = leb window (now - e.window_start)

-- The entry after `check`, and whether the request is allowed.
unfoldable pub check_entry : ℕ → RateLimiter → WindowEntry → Bool × WindowEntry
check_entry now l e =
    if is_expired now l.window_duration e
    then (true, new_window now)
    else let count = (e.count + 1) % 2 ^ 32 in
      (not (ltb l.max_requests count), record e { count = count })

unfoldable pub check : ℕ → String → RateLimiter → Bool × RateLimiter
check now ip l =
    let (allowed, e) = check_entry now l (lookup_or ip (new_window now) l.windows) in
    (allowed, record l { windows = insert ip e l.windows })

unfoldable pub cleanup : ℕ → RateLimiter → RateLimiter
cleanup now l = record l {
  windows = retain (λ _ e. not (is_expired now (l.window_duration * 2) e)) l.windows;
}
