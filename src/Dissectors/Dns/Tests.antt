-- ===== src/Dissectors/Dns/Tests.antt =====
-- dns.rs: packets.
use thor_firewall_smart.Prelude.{ℕ, ◌≡◌, refl, true, some, List, [], ◌∷◌, ◌+◌, drop, arith}
use thor_firewall_smart.Prelude.Text.{join}
use thor_firewall_smart.Prelude.Utf8.{decode}
use thor_firewall_smart.Dissectors.Dns.Runs.{returned, Returns, Any}
use thor_firewall_smart.Dissectors.Dns.Names.{IsNamed, parse_name-Returns}
use thor_firewall_smart.Dissectors.Dns.Safe.{parse_dns_packet-Returns}
use thor_firewall_smart.Dissectors.Dns.Encoded.{parse_name-encode, parse_name-pointer}
use thor_firewall_smart.Dissectors.Dns.Wire.{encode, encoded_length}
use thor_firewall_smart.Dissectors.Dns.{
  parse_name, name_loop, u16_at, u32_at, parse_rdata, first_four, parse_fields, parse_record,
  parse_records, parse_questions, parse_sections, parse_dns_packet, a,
}

abbrev labels : List (List ℕ)
labels = (b'a' ∷ []) ∷ (b'c' ∷ b'o' ∷ b'm' ∷ []) ∷ []

-- A response about a.com, whose answer points to the question's name.
abbrev response : List ℕ
response =
    18 ∷ 52 ∷ 129 ∷ 128 ∷ 0 ∷ 1 ∷ 0 ∷ 1 ∷ 0 ∷ 0 ∷ 0 ∷ 0 ∷ 1 ∷ b'a' ∷ 3 ∷ b'c' ∷ b'o' ∷ b'm' ∷ 0 ∷ 0
    ∷ 1 ∷ 0 ∷ 1 ∷ 192 ∷ 12 ∷ 0 ∷ 1 ∷ 0 ∷ 1 ∷ 0 ∷ 0 ∷ 0 ∷ 60 ∷ 0 ∷ 4 ∷ 10 ∷ 0 ∷ 0 ∷ 1 ∷ []

parsed_response :
    parse_dns_packet response
    ≡ returned (
        some record {
          transaction_id = 4660;
          flags = 33152;
          is_response = true;
          opcode = 0;
          rcode = 0;
          questions = record { name = "a.com"; qtype = 1; qclass = 1 } ∷ [];
          answers =
              record {
                name = "a.com";
                rtype = 1;
                rclass = 1;
                ttl = 60;
                rdata = a (10 ∷ 0 ∷ 0 ∷ 1 ∷ []);
              }
              ∷ [];
          authority = [];
          additional = [];
        })
unfolding parse_dns_packet parse_sections parse_questions parse_records parse_record parse_fields
    parse_rdata first_four u16_at u32_at parse_name name_loop decode join
parsed_response = refl

parse_dns_packet-Returns_example : Returns (parse_dns_packet response) Any
parse_dns_packet-Returns_example = parse_dns_packet-Returns response

parse_name-Returns_example : Returns (parse_name response 23) (IsNamed response 23)
parse_name-Returns_example = parse_name-Returns response 23

parse_name-encode_example :
    parse_name response 12
    ≡ returned (some (join "." ("a" ∷ "com" ∷ []), 12 + encoded_length labels))
unfolding encode decode
parse_name-encode_example =
    parse_name-encode response 12 labels ("a" ∷ "com" ∷ []) (drop 19 response)
      (omega arith, omega arith, refl, (omega arith, omega arith, refl, tt)) refl

parse_name-pointer_example :
    parse_name response 23 ≡ returned (some (join "." ("a" ∷ "com" ∷ []), 23 + 2))
unfolding encode decode
parse_name-pointer_example =
    parse_name-pointer response 23 0 12 (drop 25 response) labels ("a" ∷ "com" ∷ [])
      (drop 19 response) (omega arith) refl
      (omega arith, omega arith, refl, (omega arith, omega arith, refl, tt)) refl
