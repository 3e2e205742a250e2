-- ===== src/Dissectors/Dns/Fields.antt =====
-- dns.rs: the reads of fields, names and data return.
use Prim.Native.String.{String}
use thor_firewall_smart.Prelude.{
  ℕ, zero, suc, ◌+◌, ◌-◌, ◌*◌, ◌≡◌, true, ◌≤◌, ◌<◌, ◌&&◌, Option, none, some, List, [], ◌∷◌, length,
  take, drop, length-drop, leb, if-both, Bool-cases, and-eq-true, inl, inr, arith, ◌==◌, nat_eq,
  leb→le, nat_beq_iff,
}
use thor_firewall_smart.Prelude.Utf8.{from_utf8}
use thor_firewall_smart.Dissectors.Dns.Runs.{
  Run, returned, pure, ◌>>=◌, index, Returns, bind_lem, Any, index-Returns, slice-eq_returned,
}
use thor_firewall_smart.Dissectors.Dns.Names.{IsNamed, parse_name-Returns}
use thor_firewall_smart.Dissectors.Dns.{
  DnsRdata, a, aaaa, first_four, copy_from_slice, cname, ns, ptr, mx, txt, u16_at, u32_at, Named,
  parse_name, name_or_default, txt_parts, parse_rdata,
}

pub u16_at-Returns :
    (bytes : List ℕ) (pos : ℕ) → pos + 1 < length bytes → Returns (u16_at bytes pos) Any
unfolding u16_at
u16_at-Returns bytes pos h =
    bind_lem (index bytes pos) (λ hi. index bytes (pos + 1) >>= λ lo. pure (hi * 256 + lo)) Any Any
      (index-Returns bytes pos (omega (arith, h)))
      λ hi _.
        bind_lem (index bytes (pos + 1)) (λ lo. pure (hi * 256 + lo)) Any Any
          (index-Returns bytes (pos + 1) h) λ lo _. tt

pub u32_at-Returns :
    (bytes : List ℕ) (pos : ℕ) → pos + 3 < length bytes → Returns (u32_at bytes pos) Any
unfolding u32_at
u32_at-Returns bytes pos h =
    bind_lem (u16_at bytes pos) (λ hi. u16_at bytes (pos + 2) >>= λ lo. pure (hi * 65536 + lo)) Any
      Any (u16_at-Returns bytes pos (omega (arith, h)))
      λ hi _.
        bind_lem (u16_at bytes (pos + 2)) (λ lo. pure (hi * 65536 + lo)) Any Any
          (u16_at-Returns bytes (pos + 2) (omega (arith, h))) λ lo _. tt

name_or_default-Returns : (bytes : List ℕ) (pos : ℕ) → Returns (name_or_default bytes pos) Any
unfolding name_or_default
name_or_default-Returns bytes pos =
    bind_lem (parse_name bytes pos)
      (λ (r : Named). elim r [ none ↦ returned "" | some named ↦ returned named.0 ])
      (IsNamed bytes pos) Any (parse_name-Returns bytes pos) either
  where
    either :
        (r : Named)
        → IsNamed bytes pos r
        → Returns
            (elim r as (λ _. Run String) [ none ↦ returned "" | some named ↦ returned named.0 ])
            Any
    either none h = tt
    either (some named) h = tt

txt_parts-Returns : (f : ℕ) (bytes : List ℕ) → length bytes < f → Returns (txt_parts f bytes) Any
unfolding txt_parts
txt_parts-Returns zero bytes h = absurd (omega (arith, h))
txt_parts-Returns (suc f) [] h = tt
txt_parts-Returns (suc f) (len ∷ bytes) h = elim (Bool-cases (leb len (length bytes))) [
  | inr cut ↦ rw (cut, Returns) tt
  | inl whole ↦
      rw
        (
          whole,
          slice-eq_returned bytes 0 len (omega arith) (leb→le len (length bytes) whole),
          Returns,
        )
        (bind_lem (txt_parts f (drop len bytes))
          (λ parts. elim (from_utf8 (take (len - 0) (drop 0 bytes))) [
            | none ↦ returned parts
            | some text ↦ returned (text ∷ parts)
          ])
          Any Any (txt_parts-Returns f (drop len bytes) (omega (arith, length-drop len bytes, h)))
          λ parts _. either parts (from_utf8 (take (len - 0) (drop 0 bytes))))
]
  where
    either :
        (parts : List String) (o : Option String)
        → Returns
            (elim o as (λ _. Run (List String)) [
              | none ↦ returned parts
              | some text ↦ returned (text ∷ parts)
            ])
            Any
    either parts none = tt
    either parts (some text) = tt

pub mapped-Returns :
    {A B : Type 0} (r : Run A) (f : A → B) → Returns r Any → Returns (r >>= λ x. pure (f x)) Any
mapped-Returns r f h = bind_lem r (λ x. pure (f x)) Any Any h λ x _. tt

first_four-Returns : (rdata : List ℕ) → (length rdata == 4) ≡ true → Returns (first_four rdata) Any
unfolding first_four
first_four-Returns rdata h =
    let four : length rdata ≡ 4 = (nat_beq_iff (length rdata) 4).0 h in
    bind_lem (index rdata 0) _ Any Any (index-Returns rdata 0 (omega (arith, four))) λ b0 _.
      bind_lem (index rdata 1) _ Any Any (index-Returns rdata 1 (omega (arith, four))) λ b1 _.
        bind_lem (index rdata 2) _ Any Any (index-Returns rdata 2 (omega (arith, four))) λ b2 _.
          mapped-Returns (index rdata 3) (λ b3. b0 ∷ b1 ∷ b2 ∷ b3 ∷ [])
            (index-Returns rdata 3 (omega (arith, four)))

copy_from_slice-Returns :
    (n : ℕ) (source : List ℕ) → (length source == n) ≡ true → Returns (copy_from_slice n source) Any
unfolding copy_from_slice
copy_from_slice-Returns n source h = rw h tt

mx-Returns :
    (bytes rdata : List ℕ) (start : ℕ)
    → 3 ≤ length rdata
    → Returns
        (u16_at rdata 0 >>= λ priority.
          name_or_default bytes (start + 2) >>= λ s. pure (mx priority s))
        Any
mx-Returns bytes rdata start h =
    bind_lem (u16_at rdata 0)
      (λ priority. name_or_default bytes (start + 2) >>= λ s. pure (mx priority s)) Any Any
      (u16_at-Returns rdata 0 (omega (arith, h)))
      λ priority _.
        mapped-Returns (name_or_default bytes (start + 2)) (mx priority)
          (name_or_default-Returns bytes (start + 2))

pub parse_rdata-Returns :
    (bytes : List ℕ) (rtype start : ℕ) (rdata : List ℕ)
    → Returns (parse_rdata bytes rtype start rdata) Any
unfolding parse_rdata
parse_rdata-Returns bytes rtype start rdata =
    let P : Run DnsRdata → Type 0 = λ r. Returns r Any in
    let named = λ (f : String → DnsRdata).
      mapped-Returns (name_or_default bytes start) f (name_or_default-Returns bytes start) in
    elim (Bool-cases (rtype == 1 && length rdata == 4)) [
      | inl four ↦ rw four (
          mapped-Returns (first_four rdata) a
            (first_four-Returns rdata (and-eq-true (rtype == 1) (length rdata == 4) four).1))
      | inr not_a ↦ rw not_a (elim (Bool-cases (rtype == 28 && length rdata == 16)) [
        | inl sixteen ↦ rw sixteen (
            mapped-Returns (copy_from_slice 16 rdata) aaaa (
              copy_from_slice-Returns 16 rdata
                (and-eq-true (rtype == 28) (length rdata == 16) sixteen).1))
        | inr not_aaaa ↦ rw not_aaaa (
            if-both P (rtype == 5) (named cname)
              (elim (Bool-cases (rtype == 15 && leb 3 (length rdata))) [
                | inl mail ↦ rw mail (
                    mx-Returns bytes rdata start (
                      leb→le 3 (length rdata)
                        (and-eq-true (rtype == 15) (leb 3 (length rdata)) mail).1))
                | inr other ↦ rw other (
                    if-both P (rtype == 16)
                      (mapped-Returns (txt_parts (suc (length rdata)) rdata) txt
                        (txt_parts-Returns (suc (length rdata)) rdata (omega arith)))
                      (if-both P (rtype == 2) (named ns) (if-both P (rtype == 12) (named ptr) tt)))
              ]))
      ])
    ]
