-- ===== src/Dissectors/Dns.antt =====
-- crates/thor-agent/src/dissectors/dns.rs: the parser of the wire format. Bytes are numbers; a read
-- or a slice outside the packet panics, and so has an outcome of its own, as has the end of the fuel.
pub mod Runs
pub mod Names
pub mod Fields
pub mod Safe
pub mod Wire
pub mod Encoded
mod Tests
use Prim.Native.String.{String}
use mathlib.Core.List.{◌++◌ as append}
use thor_firewall_smart.Prelude.{
  ℕ, zero, suc, ◌+◌, ◌-◌, ◌*◌, ◌/◌, ◌%◌, ◌^◌, Bool, true, false, ◌&&◌, Option, none, some, List, [],
  ◌∷◌, length, take, drop, get_elem?, ltb, leb, if◌then◌else◌, ◌==◌, nat_eq,
}
use thor_firewall_smart.Prelude.Text.{join}
use thor_firewall_smart.Prelude.Utf8.{from_utf8}
use thor_firewall_smart.Dissectors.Dns.Runs.{
  Run, returned, panicked, out_of_fuel, pure, ◌>>=◌, index, slice,
}

pub data DnsRdata : Type 0 where
  a aaaa : List ℕ → DnsRdata
  cname ns ptr : String → DnsRdata
  mx : (priority : ℕ) (exchange : String) → DnsRdata
  txt : List String → DnsRdata
  soa : (mname rname : String) (serial refresh retry expire minimum : ℕ) → DnsRdata
  unknown : List ℕ → DnsRdata

pub record DnsQuestion : Type 0 where
  pub name : String
  pub qtype : ℕ
  pub qclass : ℕ

pub record DnsRecord : Type 0 where
  pub name : String
  pub rtype : ℕ
  pub rclass : ℕ
  pub ttl : ℕ
  pub rdata : DnsRdata

pub record DnsPacket : Type 0 where
  pub transaction_id : ℕ
  pub flags : ℕ
  pub is_response : Bool
  pub opcode : ℕ
  pub rcode : ℕ
  pub questions : List DnsQuestion
  pub answers : List DnsRecord
  pub authority : List DnsRecord
  pub additional : List DnsRecord

-- `u16::from_be_bytes` and `u32::from_be_bytes`
unfoldable pub u16_at : List ℕ → ℕ → Run ℕ
u16_at bytes pos = do hi ← index bytes pos; lo ← index bytes (pos + 1); pure (hi * 256 + lo)

unfoldable pub u32_at : List ℕ → ℕ → Run ℕ
u32_at bytes pos = do hi ← u16_at bytes pos; lo ← u16_at bytes (pos + 2); pure (hi * 65536 + lo)

-- `final_pos`, once it is set.
abbrev pub set_once : Option ℕ → ℕ → Option ℕ
set_once none pos = some pos
set_once (some p) pos = some p

abbrev pub end_of : Option ℕ → ℕ → ℕ
end_of none pos = pos
end_of (some p) pos = p

-- The result of a name, if there is one: the name, and the position behind it.
abbrev pub Named : Type 0
Named = Option (String × ℕ)

-- The loop, at a position, with the labels so far.
unfoldable pub name_loop : ℕ → List ℕ → ℕ → List String → Option ℕ → ℕ → Run Named
name_loop zero bytes pos labels final jumps = out_of_fuel
name_loop (suc f) bytes pos labels final jumps = elim (ltb 10 jumps) [
  | true ↦ returned none
  | false ↦ elim (leb (length bytes) pos) [
    | true ↦ returned none
    | false ↦ index bytes pos >>= λ len. elim (len == 0) [
      | true ↦ returned (some (join "." labels, end_of (set_once final (pos + 1)) pos))
      | false ↦ elim (len / 64 % 4 == 3) [
        | true ↦ elim (leb (length bytes) (pos + 1)) [
          | true ↦ returned none
          | false ↦ index bytes (pos + 1) >>= λ low.
              name_loop f bytes (len % 64 * 256 + low) labels (set_once final (pos + 2)) (jumps + 1)
        ]
        | false ↦ elim (ltb (length bytes) (pos + 1 + len)) [
          | true ↦ returned none
          | false ↦ slice bytes (pos + 1) (pos + 1 + len) >>= λ label. elim (from_utf8 label) [
            | none ↦ returned none
            | some text ↦ name_loop f bytes (pos + 1 + len) (append labels (text ∷ [])) final jumps
          ]
        ]
      ]
    ]
  ]
]

-- Eleven jumps at most, and between two jumps at most the whole packet.
unfoldable pub parse_name : List ℕ → ℕ → Run Named
parse_name bytes pos = name_loop (12 * suc (length bytes)) bytes pos [] none 0

-- `parse_name(…).unwrap_or_default()`, of which the name is used.
unfoldable pub name_or_default : List ℕ → ℕ → Run String
name_or_default bytes pos =
    parse_name bytes pos >>= λ r. elim r [ none ↦ returned "" | some named ↦ returned named.0 ]

-- The loop over the parts of a text record, at what is left of them.
unfoldable pub txt_parts : ℕ → List ℕ → Run (List String)
txt_parts zero bytes = out_of_fuel
txt_parts (suc f) [] = returned []
txt_parts (suc f) (len ∷ bytes) = elim (leb len (length bytes)) [
  | true ↦ slice bytes 0 len >>= λ part. txt_parts f (drop len bytes) >>= λ parts.
      elim (from_utf8 part) [ none ↦ returned parts | some text ↦ returned (text ∷ parts) ]
  | false ↦ returned []
]

-- `[rdata_bytes[0], rdata_bytes[1], rdata_bytes[2], rdata_bytes[3]]`
unfoldable pub first_four : List ℕ → Run (List ℕ)
first_four rdata = do
  b0 ← index rdata 0
  b1 ← index rdata 1
  b2 ← index rdata 2
  b3 ← index rdata 3
  pure (b0 ∷ b1 ∷ b2 ∷ b3 ∷ [])

-- `copy_from_slice` to an array of so many bytes, which panics at another length.
unfoldable pub copy_from_slice : ℕ → List ℕ → Run (List ℕ)
copy_from_slice n source = if length source == n then returned source else panicked

-- The match on the type, with the bytes of the record and where they start.
unfoldable pub parse_rdata : List ℕ → ℕ → ℕ → List ℕ → Run DnsRdata
parse_rdata bytes rtype start rdata =
    let rdlen = length rdata in
    if rtype == 1 && rdlen == 4
    then (first_four rdata >>= λ ip. pure (a ip))
    else if rtype == 28 && rdlen == 16
    then (copy_from_slice 16 rdata >>= λ ip. pure (aaaa ip))
    else if rtype == 5
    then (name_or_default bytes start >>= λ s. pure (cname s))
    else if rtype == 15 && leb 3 rdlen
    then (u16_at rdata 0 >>= λ priority.
        name_or_default bytes (start + 2) >>= λ s. pure (mx priority s))
    else if rtype == 16
    then (txt_parts (suc rdlen) rdata >>= λ parts. pure (txt parts))
    else if rtype == 2
    then (name_or_default bytes start >>= λ s. pure (ns s))
    else if rtype == 12
    then (name_or_default bytes start >>= λ s. pure (ptr s))
    else returned (unknown rdata)

-- The fields of a record behind its name.
unfoldable pub parse_fields : List ℕ → String → ℕ → Run (Option DnsRecord × ℕ)
parse_fields bytes name pos = do
  rtype ← u16_at bytes pos
  rclass ← u16_at bytes (pos + 2)
  ttl ← u32_at bytes (pos + 4)
  rdlen ← u16_at bytes (pos + 8)
  elim (ltb (length bytes) (pos + 10 + rdlen)) [
    | true ↦ returned (none, pos + 10)
    | false ↦ do
      rdata ← slice bytes (pos + 10) (pos + 10 + rdlen)
      parsed ← parse_rdata bytes rtype (pos + 10) rdata
      pure (
        some record { name = name; rtype = rtype; rclass = rclass; ttl = ttl; rdata = parsed },
        pos + 10 + rdlen,
      )
  ]

-- The record, if there is one, and the position that is left in `pos`.
unfoldable pub parse_record : List ℕ → ℕ → Run (Option DnsRecord × ℕ)
parse_record bytes pos = parse_name bytes pos >>= λ r. elim r [
  | none ↦ returned (none, pos)
  | some named ↦ elim (ltb (length bytes) (named.1 + 10)) [
    | true ↦ returned (none, named.1)
    | false ↦ parse_fields bytes named.0 named.1
  ]
]

unfoldable pub parse_records : List ℕ → ℕ → ℕ → Run (List DnsRecord × ℕ)
parse_records bytes pos zero = returned ([], pos)
parse_records bytes pos (suc count) = parse_record bytes pos >>= λ r. elim r.0 [
  | none ↦ returned ([], r.1)
  | some rec ↦ parse_records bytes r.1 count >>= λ rest. pure (rec ∷ rest.0, rest.1)
]

-- The loop over the questions; without a name it ends the call.
unfoldable pub parse_questions : List ℕ → ℕ → ℕ → Run (Option (List DnsQuestion × ℕ))
parse_questions bytes pos zero = returned (some ([], pos))
parse_questions bytes pos (suc count) = parse_name bytes pos >>= λ r. elim r [
  | none ↦ returned none
  | some named ↦ elim (ltb (length bytes) (named.1 + 4)) [
    | true ↦ returned (some ([], named.1))
    | false ↦ do
      qtype ← u16_at bytes named.1
      qclass ← u16_at bytes (named.1 + 2)
      rest ← parse_questions bytes (named.1 + 4) count
      elim rest [
        | none ↦ returned none
        | some more ↦
            returned
              (some (record { name = named.0; qtype = qtype; qclass = qclass } ∷ more.0, more.1))
      ]
  ]
]

-- The sections behind the questions, and the packet.
unfoldable pub parse_sections : List ℕ → ℕ → ℕ → List DnsQuestion → ℕ → Run (Option DnsPacket)
parse_sections bytes transaction_id flags questions pos = do
  ancount ← u16_at bytes 6
  nscount ← u16_at bytes 8
  arcount ← u16_at bytes 10
  answers ← parse_records bytes pos ancount
  authority ← parse_records bytes answers.1 nscount
  additional ← parse_records bytes authority.1 arcount
  pure (
      some record {
        transaction_id = transaction_id;
        flags = flags;
        is_response = flags / 2 ^ 15 % 2 == 1;
        opcode = flags / 2 ^ 11 % 16;
        rcode = flags % 16;
        questions = questions;
        answers = answers.0;
        authority = authority.0;
        additional = additional.0;
      })

unfoldable pub parse_dns_packet : List ℕ → Run (Option DnsPacket)
parse_dns_packet bytes = elim (ltb (length bytes) 12) [
  | true ↦ returned none
  | false ↦ do
    transaction_id ← u16_at bytes 0
    flags ← u16_at bytes 2
    qdcount ← u16_at bytes 4
    questions ← parse_questions bytes 12 qdcount
    elim questions [
      | none ↦ returned none
      | some qs ↦ parse_sections bytes transaction_id flags qs.0 qs.1
    ]
]
