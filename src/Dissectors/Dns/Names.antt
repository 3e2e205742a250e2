-- ===== src/Dissectors/Dns/Names.antt =====
-- dns.rs: `parse_name` always returns, whatever the packet.
use Prim.Native.String.{String}
use mathlib.Core.List.{◌++◌ as append}
use thor_firewall_smart.Prelude.{
  ℕ, zero, suc, ◌+◌, ◌-◌, ◌*◌, ◌/◌, ◌%◌, ◌≡◌, ◌≤◌, ◌<◌, ap, false, Option, none, some, List, [],
  ◌∷◌, length, take, drop, ltb, leb, Bool-cases, Option-cases, inl, inr, arith, ◌==◌, nat_eq,
}
use thor_firewall_smart.Prelude.Text.{join}
use thor_firewall_smart.Prelude.Utf8.{from_utf8}
use thor_firewall_smart.Dissectors.Dns.Runs.{Returns, get_elem?-in, slice-eq_returned}
use thor_firewall_smart.Dissectors.Dns.{Named, set_once, end_of, name_loop, parse_name}

pub not_ltb : (a b : ℕ) → ltb a b ≡ false → b ≤ a
not_ltb a b h = ground (arith, h)

not_leb : (a b : ℕ) → leb a b ≡ false → b < a
not_leb a b h = ground (arith, h)

-- The end of the name that began at a position, as far as it is known: behind the start, and in the
-- packet.
abbrev EndsIn : List ℕ → ℕ → ℕ → Option ℕ → Type 0
EndsIn bytes start pos none = start ≤ pos
EndsIn bytes start pos (some p) = (start < p) × (p ≤ length bytes)

-- If there is a name, its end lies behind its start, and in the packet.
abbrev pub IsNamed : List ℕ → ℕ → Named → Type 0
IsNamed bytes start none = Unit
IsNamed bytes start (some r) = (start < r.1) × (r.1 ≤ length bytes)

once_in :
    (bytes : List ℕ) (start pos new : ℕ) (final : Option ℕ)
    → EndsIn bytes start pos final
    → pos < new
    → new ≤ length bytes
    → (p : ℕ) → EndsIn bytes start p (set_once final new)
once_in bytes start pos new none h lt le p = (omega (arith, h, lt), le)
once_in bytes start pos new (some q) h lt le p = h

moved_in :
    (bytes : List ℕ) (start pos new : ℕ) (final : Option ℕ)
    → EndsIn bytes start pos final
    → pos ≤ new
    → EndsIn bytes start new final
moved_in bytes start pos new none h le = omega (arith, h, le)
moved_in bytes start pos new (some q) h le = h

ends-IsNamed :
    (bytes : List ℕ) (start pos : ℕ) (final : Option ℕ) (name : String)
    → EndsIn bytes start pos final
    → pos < length bytes
    → IsNamed bytes start (some (name, end_of (set_once final (pos + 1)) pos))
ends-IsNamed bytes start pos none name h lt = (omega (arith, h), omega (arith, lt))
ends-IsNamed bytes start pos (some q) name h lt = h

-- The rounds that are left: for each jump the whole packet, and the rest of it.
abbrev rounds : List ℕ → ℕ → ℕ → ℕ
rounds bytes jumps pos = (11 - jumps) * suc (length bytes) + (length bytes - pos)

rounds_jump :
    (bytes : List ℕ) (jumps pos new f : ℕ)
    → jumps ≤ 10
    → rounds bytes jumps pos < suc f
    → pos < length bytes
    → rounds bytes (jumps + 1) new < f
rounds_jump bytes jumps pos new f h lt inside =
    let e : 11 - jumps ≡ suc (11 - (jumps + 1)) = omega (arith, h) in
    let split : suc (11 - (jumps + 1)) * suc (length bytes)
        ≡ suc (length bytes) + (11 - (jumps + 1)) * suc (length bytes) =
      omega arith in
    omega (arith, ap (λ (k : ℕ). k * suc (length bytes)) e, split, lt, inside)

rounds_label :
    (bytes : List ℕ) (jumps pos new f : ℕ)
    → rounds bytes jumps pos < suc f
    → pos < new
    → pos < length bytes
    → rounds bytes jumps new < f
rounds_label bytes jumps pos new f lt further inside = omega (arith, lt, further, inside)

name_loop-Returns :
    (f : ℕ) (bytes : List ℕ) (start pos : ℕ) (labels : List String) (final : Option ℕ) (jumps : ℕ)
    → EndsIn bytes start pos final
    → rounds bytes jumps pos < f
    → Returns (name_loop f bytes pos labels final jumps) (IsNamed bytes start)
unfolding name_loop
name_loop-Returns zero bytes start pos labels final jumps ends h = absurd (omega (arith, h))
name_loop-Returns (suc f) bytes start pos labels final jumps ends h =
    elim (Bool-cases (ltb 10 jumps)) [
      | inl many ↦ rw (many, Returns) tt
      | inr few ↦ elim (Bool-cases (leb (length bytes) pos)) [
        | inl outside ↦ rw (few, outside, Returns) tt
        | inr inside ↦
            let lt = not_leb (length bytes) pos inside in
            let (len, at_pos) = get_elem?-in bytes pos lt in
            rw (few, inside, at_pos, Returns)
              (elim (Bool-cases (len == 0)) [
                | inl zeroth ↦
                    rw (zeroth, Returns)
                      (ends-IsNamed bytes start pos final (join "." labels) ends lt)
                | inr more ↦ elim (Bool-cases (len / 64 % 4 == 3)) [
                  | inl pointer ↦ elim (Bool-cases (leb (length bytes) (pos + 1))) [
                    | inl cut ↦ rw (more, pointer, cut, Returns) tt
                    | inr whole ↦
                        let lt1 = not_leb (length bytes) (pos + 1) whole in
                        let (low, at_next) = get_elem?-in bytes (pos + 1) lt1 in
                        let new = len % 64 * 256 + low in
                        rw (more, pointer, whole, at_next, Returns)
                          (name_loop-Returns f bytes start new labels (set_once final (pos + 2))
                            (jumps + 1)
                            (once_in bytes start pos (pos + 2) final ends (omega arith)
                              (omega (arith, lt1)) new)
                            (rounds_jump bytes jumps pos new f (not_ltb 10 jumps few) h lt))
                  ]
                  | inr label ↦ elim (Bool-cases (ltb (length bytes) (pos + 1 + len))) [
                    | inl cut ↦ rw (more, label, cut, Returns) tt
                    | inr whole ↦
                        let le = not_ltb (length bytes) (pos + 1 + len) whole in
                        rw
                          (
                            more,
                            label,
                            whole,
                            slice-eq_returned bytes (pos + 1) (pos + 1 + len) (omega arith) le,
                            Returns,
                          )
                          (elim (Option-cases
                            (from_utf8 (take (pos + 1 + len - (pos + 1)) (drop (pos + 1) bytes)))) [
                              | inl bad ↦ rw (bad, Returns) tt
                              | inr (text, good) ↦
                                  rw (good, Returns)
                                    (name_loop-Returns f bytes start (pos + 1 + len)
                                      (append labels (text ∷ [])) final jumps
                                      (moved_in bytes start pos (pos + 1 + len) final ends
                                        (omega arith))
                                      (rounds_label bytes jumps pos (pos + 1 + len) f h
                                        (omega arith) lt))
                            ])
                  ]
                ]
              ])
      ]
    ]

-- Whatever the packet, `parse_name` returns: no read lies outside the packet, and the rounds are enough
-- for any chain of compression pointers. If it gives a name, the position that follows it lies behind
-- the start and in the packet.
pub parse_name-Returns :
    (bytes : List ℕ) (pos : ℕ) → Returns (parse_name bytes pos) (IsNamed bytes pos)
unfolding parse_name
parse_name-Returns bytes pos =
    name_loop-Returns (12 * suc (length bytes)) bytes pos pos [] none 0 (omega arith) (omega arith)
