-- ===== src/Api/RateLimit/Allowance.antt =====
-- crates/thor-agent/src/api/rate_limit.rs: how many requests of one address are let through.
use Prim.Native.Nat.{max}
use thor_firewall_smart.Prelude.{
  ℕ, ◌+◌, ◌-◌, ◌^◌, ◌<◌, ◌≡◌, ◌≢◌, refl, String, true, none, some, List, [], ◌∷◌, arith, min,
  length, All, if◌then◌else◌, string_eq, eq_iff,
}
use thor_firewall_smart.Prelude.Dict.{lookup, lookup_or, insert}
use thor_firewall_smart.Prelude.Dict.Laws.{lookup-insert, lookup-insert_self}
use thor_firewall_smart.Api.RateLimit.{
  WindowEntry, RateLimiter, new_window, is_expired, check_entry, check,
}

-- The instant is in the window that began at `start`.
abbrev pub InWindow : RateLimiter → ℕ → ℕ → Type 0
InWindow l start now = now - start < l.window_duration

-- The number of requests of one address at these instants that are let through.
abbrev pub allowed_of : String → List ℕ → RateLimiter → ℕ
allowed_of ip [] l = 0
allowed_of ip (now ∷ nows) l =
    let (allowed, m) = check now ip l in (if allowed then 1 else 0) + allowed_of ip nows m

check_entry-InWindow :
    (now start n : ℕ) (l : RateLimiter) (e : WindowEntry)
    → e.window_start ≡ start
    → e.count ≡ n
    → n + 1 < 2 ^ 32
    → InWindow l start now
    → let (allowed, d) = check_entry now l e in
      (d.window_start ≡ start)
      × (d.count ≡ n + 1)
      × ((if allowed then 1 else 0) + (l.max_requests - (n + 1)) ≡ l.max_requests - n)
unfolding check_entry
check_entry-InWindow now start n l e s c small w = ground arith

module _ (ip : String) (start : ℕ) where
  allowed_from :
      (n : ℕ) (nows : List ℕ) (l : RateLimiter) (e : WindowEntry)
      → lookup ip l.windows ≡ some e
      → e.window_start ≡ start
      → e.count ≡ n
      → n + length nows < 2 ^ 32
      → All (InWindow l start) nows
      → allowed_of ip nows l + (l.max_requests - (n + length nows)) ≡ l.max_requests - n
  unfolding check
  allowed_from n [] l e found s c small w = omega arith
  allowed_from n (now ∷ nows) l e found s c small w =
      let d = (check_entry now l e).1 in
      let m : RateLimiter = record l { windows = insert ip d l.windows } in
      let one = check_entry-InWindow now start n l e s c (omega arith) w.0 in
      let rest =
        allowed_from (n + 1) nows m d (lookup-insert_self ip d l.windows) one.0 one.1 (omega arith)
          w.1 in
      rw found (omega (arith, one.2, rest))

  -- Of the requests of an address without an entry, in the window that the first begins, one less
  -- than the limit is let through: the first is counted twice.
  pub allowed_of_first :
      (nows : List ℕ) (l : RateLimiter)
      → lookup ip l.windows ≡ none
      → 0 < l.window_duration
      → length nows + 2 < 2 ^ 32
      → All (InWindow l start) nows
      → allowed_of ip (start ∷ nows) l ≡ min (1 + length nows) (l.max_requests - 1)
  unfolding check
  allowed_of_first nows l absent pos small w =
      let e = new_window start in
      let d = (check_entry start l e).1 in
      let m : RateLimiter = record l { windows = insert ip d l.windows } in
      let one = check_entry-InWindow start start 1 l e refl refl (omega arith) (omega arith) in
      let rest =
        allowed_from 2 nows m d (lookup-insert_self ip d l.windows) one.0 one.1 (omega arith) w in
      rw absent (omega (arith, one.2, rest))

  -- In the window that begins when an older one is over, as many as the limit are let through, and
  -- one where the limit is 0.
  pub allowed_of_renewed :
      (nows : List ℕ) (l : RateLimiter) (e : WindowEntry)
      → lookup ip l.windows ≡ some e
      → is_expired start l.window_duration e ≡ true
      → length nows + 1 < 2 ^ 32
      → All (InWindow l start) nows
      → allowed_of ip (start ∷ nows) l ≡ min (1 + length nows) (max l.max_requests 1)
  unfolding check check_entry
  allowed_of_renewed nows l e found over small w =
      let d = new_window start in
      let m : RateLimiter = record l { windows = insert ip d l.windows } in
      let rest =
        allowed_from 1 nows m d (lookup-insert_self ip d l.windows) refl refl (omega arith) w in
      rw (found, over) (omega (arith, rest))

-- The requests of one address do not change the entry of another.
pub check_other :
    (now : ℕ) (ip other : String) (l : RateLimiter)
    → ip ≢ other
    → lookup other (check now ip l).1.windows ≡ lookup other l.windows
unfolding check
check_other now ip other l n =
    let e = (check_entry now l (lookup_or ip (new_window now) l.windows)).1 in
    ground (arith, lookup-insert ip other e l.windows, eq_iff ip other)
