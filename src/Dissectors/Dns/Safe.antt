-- ===== src/Dissectors/Dns/Safe.antt =====
-- dns.rs: the parser returns on every packet.
use Prim.Native.String.{String}
use thor_firewall_smart.Prelude.{
  ℕ, zero, suc, ◌+◌, ◌-◌, ◌≤◌, true, false, Option, none, some, List, [], ◌∷◌, length, take, drop,
  ltb, Bool-cases, inl, inr, arith, nat_eq,
}
use thor_firewall_smart.Dissectors.Dns.Runs.{
  Run, returned, pure, ◌>>=◌, slice, Returns, bind_lem, Any, slice-eq_returned,
}
use thor_firewall_smart.Dissectors.Dns.Names.{IsNamed, parse_name-Returns, not_ltb}
use thor_firewall_smart.Dissectors.Dns.{
  DnsRdata, DnsRecord, DnsQuestion, DnsPacket, u16_at, u32_at, Named, parse_name, parse_rdata,
  parse_fields, parse_record, parse_records, parse_questions, parse_sections, parse_dns_packet,
}
use thor_firewall_smart.Dissectors.Dns.Fields.{
  u16_at-Returns, u32_at-Returns, mapped-Returns, parse_rdata-Returns,
}

-- The data of a record, which lie in the packet.
data_Returns :
    (bytes : List ℕ) (name : String) (pos rtype rclass ttl rdlen : ℕ)
    → pos + 10 ≤ length bytes
    → Returns
        (elim (ltb (length bytes) (pos + 10 + rdlen)) as (λ _. Run (Option DnsRecord × ℕ)) [
          | true ↦ returned (none, pos + 10)
          | false ↦ do
            rdata ← slice bytes (pos + 10) (pos + 10 + rdlen)
            parsed ← parse_rdata bytes rtype (pos + 10) rdata
            pure (
              some
                  record { name = name; rtype = rtype; rclass = rclass; ttl = ttl; rdata = parsed },
              pos + 10 + rdlen,
            )
        ])
        Any
data_Returns bytes name pos rtype rclass ttl rdlen h =
    elim (Bool-cases (ltb (length bytes) (pos + 10 + rdlen))) [
      | inl cut ↦ rw (cut, Returns) tt
      | inr whole ↦
          let le = not_ltb (length bytes) (pos + 10 + rdlen) whole in
          let rdata = take (pos + 10 + rdlen - (pos + 10)) (drop (pos + 10) bytes) in
          let record_of : DnsRdata → Option DnsRecord × ℕ = λ parsed. (
            some record { name = name; rtype = rtype; rclass = rclass; ttl = ttl; rdata = parsed },
            pos + 10 + rdlen,
          ) in
          rw
            (whole, slice-eq_returned bytes (pos + 10) (pos + 10 + rdlen) (omega arith) le, Returns)
            (mapped-Returns (parse_rdata bytes rtype (pos + 10) rdata) record_of
              (parse_rdata-Returns bytes rtype (pos + 10) rdata))
    ]

parse_fields-Returns :
    (bytes : List ℕ) (name : String) (pos : ℕ)
    → pos + 10 ≤ length bytes
    → Returns (parse_fields bytes name pos) Any
unfolding parse_fields
parse_fields-Returns bytes name pos h =
    bind_lem (u16_at bytes pos) _ Any Any (u16_at-Returns bytes pos (omega (arith, h))) λ rtype _.
      bind_lem (u16_at bytes (pos + 2)) _ Any Any
        (u16_at-Returns bytes (pos + 2) (omega (arith, h)))
        λ rclass _.
          bind_lem (u32_at bytes (pos + 4)) _ Any Any
            (u32_at-Returns bytes (pos + 4) (omega (arith, h)))
            λ ttl _.
              bind_lem (u16_at bytes (pos + 8)) _ Any Any
                (u16_at-Returns bytes (pos + 8) (omega (arith, h)))
                λ rdlen _. data_Returns bytes name pos rtype rclass ttl rdlen h

parse_record-Returns : (bytes : List ℕ) (pos : ℕ) → Returns (parse_record bytes pos) Any
unfolding parse_record
parse_record-Returns bytes pos =
    bind_lem (parse_name bytes pos) _ (IsNamed bytes pos) Any (parse_name-Returns bytes pos) either
  where
    either :
        (r : Named)
        → IsNamed bytes pos r
        → Returns
            (elim r as (λ _. Run (Option DnsRecord × ℕ)) [
              | none ↦ returned (none, pos)
              | some named ↦ elim (ltb (length bytes) (named.1 + 10)) [
                | true ↦ returned (none, named.1)
                | false ↦ parse_fields bytes named.0 named.1
              ]
            ])
            Any
    either none h = tt
    either (some named) h = elim (Bool-cases (ltb (length bytes) (named.1 + 10))) [
      | inl cut ↦ rw (cut, Returns) tt
      | inr whole ↦
          rw (whole, Returns)
            (parse_fields-Returns bytes named.0 named.1
              (not_ltb (length bytes) (named.1 + 10) whole))
    ]

parse_records-Returns :
    (bytes : List ℕ) (pos count : ℕ) → Returns (parse_records bytes pos count) Any
unfolding parse_records
parse_records-Returns bytes pos zero = tt
parse_records-Returns bytes pos (suc count) =
    bind_lem (parse_record bytes pos) _ Any Any (parse_record-Returns bytes pos)
      (either λ p. parse_records-Returns bytes p count)
  where
    either :
        ((p : ℕ) → Returns (parse_records bytes p count) Any)
        → (r : Option DnsRecord × ℕ) → Any r
        → Returns
            (elim r.0 as (λ _. Run (List DnsRecord × ℕ)) [
              | none ↦ returned ([], r.1)
              | some rec ↦ parse_records bytes r.1 count >>= λ rest. pure (rec ∷ rest.0, rest.1)
            ])
            Any
    either ih (none, p) _ = tt
    either ih (some rec, p) _ =
        mapped-Returns (parse_records bytes p count) (λ rest. (rec ∷ rest.0, rest.1)) (ih p)

abbrev Asked : Type 0
Asked = Option (List DnsQuestion × ℕ)

asked :
    (named : String × ℕ) (qtype qclass : ℕ) (r : Asked)
    → Any r
    → Returns
        (elim r as (λ _. Run Asked) [
          | none ↦ returned none
          | some more ↦
              returned
                (some (record { name = named.0; qtype = qtype; qclass = qclass } ∷ more.0, more.1))
        ])
        Any
asked named qtype qclass none _ = tt
asked named qtype qclass (some more) _ = tt

parse_questions-Returns :
    (bytes : List ℕ) (pos count : ℕ) → Returns (parse_questions bytes pos count) Any
unfolding parse_questions
parse_questions-Returns bytes pos zero = tt
parse_questions-Returns bytes pos (suc count) =
    bind_lem (parse_name bytes pos) _ (IsNamed bytes pos) Any (parse_name-Returns bytes pos)
      (either λ p. parse_questions-Returns bytes p count)
  where
    either :
        ((p : ℕ) → Returns (parse_questions bytes p count) Any)
        → (r : Named) → IsNamed bytes pos r
        → Returns
            (elim r as (λ _. Run Asked) [
              | none ↦ returned none
              | some named ↦ elim (ltb (length bytes) (named.1 + 4)) [
                | true ↦ returned (some ([], named.1))
                | false ↦ do
                  qtype ← u16_at bytes named.1
                  qclass ← u16_at bytes (named.1 + 2)
                  rest ← parse_questions bytes (named.1 + 4) count
                  elim rest [
                    | none ↦ returned none
                    | some more ↦ returned (
                        some (
                          record { name = named.0; qtype = qtype; qclass = qclass } ∷ more.0,
                          more.1,
                        ))
                  ]
              ]
            ])
            Any
    either ih none h = tt
    either ih (some named) h = elim (Bool-cases (ltb (length bytes) (named.1 + 4))) [
      | inl cut ↦ rw (cut, Returns) tt
      | inr whole ↦
          let le = not_ltb (length bytes) (named.1 + 4) whole in
          rw (whole, Returns)
            (bind_lem (u16_at bytes named.1) _ Any Any
              (u16_at-Returns bytes named.1 (omega (arith, le)))
              λ qtype _.
                bind_lem (u16_at bytes (named.1 + 2)) _ Any Any
                  (u16_at-Returns bytes (named.1 + 2) (omega (arith, le)))
                  λ qclass _.
                    bind_lem (parse_questions bytes (named.1 + 4) count) _ Any Any
                      (ih (named.1 + 4)) (asked named qtype qclass))
    ]

parse_sections-Returns :
    (bytes : List ℕ) (transaction_id flags : ℕ) (questions : List DnsQuestion) (pos : ℕ)
    → 12 ≤ length bytes
    → Returns (parse_sections bytes transaction_id flags questions pos) Any
unfolding parse_sections
parse_sections-Returns bytes transaction_id flags questions pos h =
    bind_lem (u16_at bytes 6) _ Any Any (u16_at-Returns bytes 6 (omega (arith, h))) λ ancount _.
      bind_lem (u16_at bytes 8) _ Any Any (u16_at-Returns bytes 8 (omega (arith, h))) λ nscount _.
        bind_lem (u16_at bytes 10) _ Any Any (u16_at-Returns bytes 10 (omega (arith, h)))
          λ arcount _.
            bind_lem (parse_records bytes pos ancount) _ Any Any
              (parse_records-Returns bytes pos ancount)
              λ answers _.
                bind_lem (parse_records bytes answers.1 nscount) _ Any Any
                  (parse_records-Returns bytes answers.1 nscount)
                  λ authority _.
                    bind_lem (parse_records bytes authority.1 arcount) _ Any Any
                      (parse_records-Returns bytes authority.1 arcount) λ additional _. tt

-- The parser returns on every sequence of bytes, with a packet or with none: no read or slice lies
-- outside of it, and no loop is without end.
pub parse_dns_packet-Returns : (bytes : List ℕ) → Returns (parse_dns_packet bytes) Any
unfolding parse_dns_packet
parse_dns_packet-Returns bytes = elim (Bool-cases (ltb (length bytes) 12)) [
  | inl short ↦ rw (short, Returns) tt
  | inr long ↦
      let le = not_ltb (length bytes) 12 long in
      rw (long, Returns)
        (bind_lem (u16_at bytes 0) _ Any Any (u16_at-Returns bytes 0 (omega (arith, le)))
          λ transaction_id _.
            bind_lem (u16_at bytes 2) _ Any Any (u16_at-Returns bytes 2 (omega (arith, le)))
              λ flags _.
                bind_lem (u16_at bytes 4) _ Any Any (u16_at-Returns bytes 4 (omega (arith, le)))
                  λ qdcount _.
                    bind_lem (parse_questions bytes 12 qdcount) _ Any Any
                      (parse_questions-Returns bytes 12 qdcount) (either transaction_id flags le))
]
  where
    either :
        (transaction_id flags : ℕ)
        → 12 ≤ length bytes
        → (r : Asked) → Any r
        → Returns
            (elim r as (λ _. Run (Option DnsPacket)) [
              | none ↦ returned none
              | some qs ↦ parse_sections bytes transaction_id flags qs.0 qs.1
            ])
            Any
    either transaction_id flags le none _ = tt
    either transaction_id flags le (some qs) _ =
        parse_sections-Returns bytes transaction_id flags qs.0 qs.1 le
