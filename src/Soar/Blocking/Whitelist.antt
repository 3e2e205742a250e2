-- ===== src/Soar/Blocking/Whitelist.antt =====
-- crates/thor-agent/src/soar/mod.rs: what the whitelist protects.
use Prim.Native.String.{◌++◌}
use thor_firewall_smart.Prelude.{
  or-true, ℕ, ◌≡◌, String, true, false, List, [], ◌∷◌, arith, contains, string_eq, eq_iff, ok,
}
use thor_firewall_smart.Prelude.Text.{trim_end, has_char, starts_with-append, starts_with-has_char}
use thor_firewall_smart.Prelude.Dict.{contains_key}
use thor_firewall_smart.Prelude.Dict.Laws.{lookup-insert}
use thor_firewall_smart.Soar.Breaker.{check_and_increment}
use thor_firewall_smart.Soar.Blocking.{
  SoarEngine, exempts, is_whitelisted, auto_block_ip, block_all,
}

module _ (ip : String) where
  auto_block_ip_exempt :
      (now : ℕ) (other : String) (s : SoarEngine)
      → is_whitelisted s.whitelist ip ≡ true
      → contains_key ip s.blocked_ips ≡ false
      → let t = (auto_block_ip now other s).1 in
        (t.whitelist ≡ s.whitelist) × (contains_key ip t.blocked_ips ≡ false)
  unfolding auto_block_ip check_and_increment
  auto_block_ip_exempt now other s w h =
      ground (arith, lookup-insert other ip tt s.blocked_ips, eq_iff other ip)

  -- No history of requests blocks an address that the whitelist exempts.
  pub block_all_exempt :
      (rs : List (ℕ × String)) (s : SoarEngine)
      → is_whitelisted s.whitelist ip ≡ true
      → contains_key ip s.blocked_ips ≡ false
      → contains_key ip (block_all rs s).blocked_ips ≡ false
  unfolding block_all
  block_all_exempt [] s w h = h
  block_all_exempt ((now, other) ∷ rs) s w h =
      let (same, free) = auto_block_ip_exempt now other s w h in
      block_all_exempt rs _ (rw same w) free

  -- A request that succeeds is for an address that no entry exempts, and leaves it blocked.
  pub auto_block_ip-eq-ok :
      (now : ℕ) (s : SoarEngine)
      → (auto_block_ip now ip s).0 ≡ ok tt
      → (is_whitelisted s.whitelist ip ≡ false)
        × (contains_key ip (auto_block_ip now ip s).1.blocked_ips ≡ true)
  unfolding auto_block_ip check_and_increment
  auto_block_ip-eq-ok now s h = ground (arith, lookup-insert ip ip tt s.blocked_ips, eq_iff ip ip)

exempts-is_whitelisted :
    (ws : List String) (ip w : String)
    → contains ws w ≡ true
    → exempts ip w ≡ true
    → is_whitelisted ws ip ≡ true
unfolding contains is_whitelisted
exempts-is_whitelisted [] ip w m e = m
exempts-is_whitelisted (x ∷ ws) ip w m e =
    ground (arith, exempts-is_whitelisted ws ip w, eq_iff w x)

-- An entry exempts every address whose text it begins, also where it is meant as one address.
pub is_whitelisted-append :
    (ws : List String) (w rest : String)
    → contains ws w ≡ true
    → trim_end "*" w ≡ w
    → is_whitelisted ws (w ++ rest) ≡ true
unfolding exempts
is_whitelisted-append ws w rest m t =
    exempts-is_whitelisted ws (w ++ rest) w m (rw (t, starts_with-append w rest) (or-true _))

-- An entry in CIDR notation exempts no address.
pub exempts_cidr :
    (ip w : String)
    → has_char "/" ip ≡ false
    → has_char "/" (trim_end "*" w) ≡ true
    → has_char "/" w ≡ true
    → exempts ip w ≡ false
unfolding exempts
exempts_cidr ip w plain cidr whole =
    ground (arith, starts_with-has_char "/" ip (trim_end "*" w), eq_iff ip w)
