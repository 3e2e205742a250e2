-- ===== src/Soar/Blocking/Budget.antt =====
-- crates/thor-agent/src/soar/mod.rs: the circuit breaker bounds the automatic blocks of a window.
use thor_firewall_smart.Prelude.{
  ℕ, ◌+◌, ◌-◌, ◌≤◌, ◌<◌, ◌≡◌, refl, String, List, [], ◌∷◌, arith, length, All, string_eq,
}
use thor_firewall_smart.Prelude.Dict.Laws.{length-insert}
use thor_firewall_smart.Soar.Breaker.{CircuitBreaker, check_and_increment, IsWithin}
use thor_firewall_smart.Soar.Blocking.{SoarEngine, auto_block_ip, block_all}

-- The instant is in the running window of the breaker.
abbrev pub IsRunning : CircuitBreaker → ℕ → Type 0
IsRunning b now = now - b.window_start < b.window

-- A request in the running window: the blocks and the count of the breaker grow alike, and what
-- bounds them stays.
pub record Accounts (s t : SoarEngine) : Type 0 where
  pub balance :
      length t.blocked_ips + s.circuit_breaker.block_count
      ≡ length s.blocked_ips + t.circuit_breaker.block_count
  pub window_kept : t.circuit_breaker.window ≡ s.circuit_breaker.window
  pub start_kept : t.circuit_breaker.window_start ≡ s.circuit_breaker.window_start
  pub max_kept : t.circuit_breaker.max_per_window ≡ s.circuit_breaker.max_per_window
  pub within : IsWithin t.circuit_breaker

module _ (now : ℕ) (ip : String) (s : SoarEngine) (v : IsWithin s.circuit_breaker)
    (r : IsRunning s.circuit_breaker now) where
  auto_block_ip-Accounts : Accounts s (auto_block_ip now ip s).1
  unfolding auto_block_ip check_and_increment
  auto_block_ip-Accounts = ground (arith, length-insert ip tt s.blocked_ips)

Accounts-trans : (s t u : SoarEngine) → Accounts s t → Accounts t u → Accounts s u
Accounts-trans s t u a b = ground arith

IsRunning-kept :
    (s t : SoarEngine)
    → Accounts s t
    → (rs : List (ℕ × String)) → All (λ r. IsRunning s.circuit_breaker r.0) rs
    → All (λ r. IsRunning t.circuit_breaker r.0) rs
IsRunning-kept s t a [] w = tt
IsRunning-kept s t a (r ∷ rs) w = (ground arith, IsRunning-kept s t a rs w.1)

block_all-Accounts :
    (rs : List (ℕ × String)) (s : SoarEngine)
    → IsWithin s.circuit_breaker
    → All (λ r. IsRunning s.circuit_breaker r.0) rs
    → Accounts s (block_all rs s)
unfolding block_all
block_all-Accounts [] s v w = record {
  balance = refl;
  window_kept = refl;
  start_kept = refl;
  max_kept = refl;
  within = v;
}
block_all-Accounts ((now, ip) ∷ rs) s v w =
    let t = (auto_block_ip now ip s).1 in
    let one = auto_block_ip-Accounts now ip s v w.0 in
    let rest = block_all-Accounts rs t one.within (IsRunning-kept s t one rs w.1) in
    Accounts-trans s t (block_all rs t) one rest

-- However many requests come within one window, the addresses blocked meanwhile are at most what
-- the limit leaves, and the count of the breaker is their number added to what it was.
pub block_all-budget :
    (rs : List (ℕ × String)) (s : SoarEngine)
    → IsWithin s.circuit_breaker
    → All (λ r. IsRunning s.circuit_breaker r.0) rs
    → let t = block_all rs s in
      (length t.blocked_ips
        ≤ length s.blocked_ips + (s.circuit_breaker.max_per_window - s.circuit_breaker.block_count))
      × (t.circuit_breaker.block_count + length s.blocked_ips
          ≡ s.circuit_breaker.block_count + length t.blocked_ips)
block_all-budget rs s v w = omega (arith, block_all-Accounts rs s v w)
