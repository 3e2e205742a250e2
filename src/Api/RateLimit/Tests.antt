-- ===== src/Api/RateLimit/Tests.antt =====
-- crates/thor-agent/src/api/rate_limit.rs: tests.
use thor_firewall_smart.Prelude.{ℕ, ◌*◌, ◌≡◌, refl, [], ◌∷◌, arith, string_eq}
use thor_firewall_smart.Prelude.Dict.{lookup, insert}
use thor_firewall_smart.Api.RateLimit.{RateLimiter, new_limiter, check, check_entry}
use thor_firewall_smart.Api.RateLimit.Allowance.{allowed_of, allowed_of_first}

abbrev second : ℕ
second = 1_000_000_000

-- Three logins a minute.
abbrev login : RateLimiter
login = new_limiter 3 (60 * second)

two_of_three : allowed_of "1.2.3.4" (0 ∷ 1 ∷ 2 ∷ []) login ≡ 2
unfolding check check_entry lookup insert
two_of_three = refl

allowed_of_first_example : allowed_of "1.2.3.4" (0 ∷ 1 ∷ 2 ∷ []) login ≡ 2
unfolding lookup
allowed_of_first_example =
    allowed_of_first "1.2.3.4" 0 (1 ∷ 2 ∷ []) login refl (omega arith) (omega arith) (omega arith)

abbrev used : RateLimiter
used = record login { windows = ("1.2.3.4", record { count = 9; window_start = 0 }) ∷ [] }
