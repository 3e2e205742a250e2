-- ===== src/Dissectors/Dns/Encoded.antt =====
-- dns.rs: a name that is written in the wire format is read back.
use Prim.Native.String.{String}
use thor_firewall_smart.Prelude.{
  ℕ, suc, ◌+◌, ◌-◌, ◌*◌, ◌/◌, ◌%◌, ◌≡◌, ◌<◌, refl, ap, ◌∙◌, true, none, some, List, [], ◌∷◌, length,
  length-append, length-drop, drop, arith, ◌==◌, nat_eq,
}
use thor_firewall_smart.Prelude.Text.{join}
use thor_firewall_smart.Dissectors.Dns.Runs.{returned}
use thor_firewall_smart.Dissectors.Dns.{name_loop, parse_name}
use thor_firewall_smart.Dissectors.Dns.Wire.{
  encode, encoded_length, AreLabels, drop-at, drop-drop, index-eq_returned, name_loop-pointer,
  not_outside, not_zero, name_loop-encode,
}

length-encode : (ls : List (List ℕ)) (rest : List ℕ) → length ls < length (encode ls rest)
unfolding encode
length-encode [] rest = omega arith
length-encode (l ∷ ls) rest = omega (arith, length-append l (encode ls rest), length-encode ls rest)

enough_rounds :
    (bytes : List ℕ) (pos : ℕ) (ls : List (List ℕ)) (rest : List ℕ)
    → drop pos bytes ≡ encode ls rest
    → length ls + 1 < 12 * suc (length bytes)
enough_rounds bytes pos ls rest here =
    omega
      (arith, length-drop pos bytes, ap (λ (xs : List ℕ). length xs) here, length-encode ls rest)

-- A name that is written at a position of the packet, its labels of 1 to 63 bytes of UTF-8 each, is
-- read back as its labels joined by dots, with the position behind its end, whatever follows.
pub parse_name-encode :
    (bytes : List ℕ) (pos : ℕ) (ls : List (List ℕ)) (ts : List String) (rest : List ℕ)
    → AreLabels ls ts
    → drop pos bytes ≡ encode ls rest
    → parse_name bytes pos ≡ returned (some (join "." ts, pos + encoded_length ls))
unfolding parse_name
parse_name-encode bytes pos ls ts rest are here =
    name_loop-encode (12 * suc (length bytes)) bytes pos ls ts rest [] none 0 are here
      (omega (arith, enough_rounds bytes pos ls rest here)) (omega arith)

pointer_bits : (hi : ℕ) → hi < 64 → ((192 + hi) / 64 % 4 == 3) ≡ true
pointer_bits hi h = ground (arith, h)

pointer_at :
    (bytes : List ℕ) (pos hi low f : ℕ) (tail : List ℕ)
    → hi < 64
    → drop pos bytes ≡ (192 + hi) ∷ low ∷ tail
    → name_loop (suc f) bytes pos [] none 0
      ≡ name_loop f bytes (hi * 256 + low) [] (some (pos + 2)) 1
pointer_at bytes pos hi low f tail h here =
    let (lt, at_pos, after) = drop-at bytes pos (192 + hi) (low ∷ tail) here in
    let (lt1, at_next, after1) =
      drop-at bytes (pos + 1) low tail
        (drop-drop (pos + 1) (suc pos) 0 bytes (omega arith) ∙ after) in
    let target : (192 + hi) % 64 * 256 + low ≡ hi * 256 + low = omega (arith, h) in
    name_loop-pointer f bytes pos [] none 0 (192 + hi) low refl (not_outside bytes pos lt)
      (index-eq_returned bytes pos (192 + hi) at_pos) (not_zero (192 + hi) (omega arith))
      (pointer_bits hi h) (not_outside bytes (pos + 1) lt1)
      (index-eq_returned bytes (pos + 1) low at_next)
    ∙ ap (λ (p : ℕ). name_loop f bytes p [] (some (pos + 2)) 1) target

-- A compression pointer to a position at which a name is written is read as that name, with the
-- position behind the pointer.
pub parse_name-pointer :
    (bytes : List ℕ) (pos hi low : ℕ) (tail : List ℕ) (ls : List (List ℕ)) (ts : List String)
    (rest : List ℕ)
    → hi < 64
    → drop pos bytes ≡ (192 + hi) ∷ low ∷ tail
    → AreLabels ls ts
    → drop (hi * 256 + low) bytes ≡ encode ls rest
    → parse_name bytes pos ≡ returned (some (join "." ts, pos + 2))
unfolding parse_name
parse_name-pointer bytes pos hi low tail ls ts rest h here are there =
    let f = 12 * suc (length bytes) - 1 in
    let rounds : 12 * suc (length bytes) ≡ suc f = omega arith in
    ap (λ (n : ℕ). name_loop n bytes pos [] none 0) rounds
    ∙ (pointer_at bytes pos hi low f tail h here
        ∙ name_loop-encode f bytes (hi * 256 + low) ls ts rest [] (some (pos + 2)) 1 are there
            (omega (arith, enough_rounds bytes (hi * 256 + low) ls rest there)) (omega arith))
