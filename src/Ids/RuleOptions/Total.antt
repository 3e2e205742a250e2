-- ===== src/Ids/RuleOptions/Total.antt =====
-- rule_parser.rs: `parse_options` always ends.
use Prim.Native.Char.{code}
use Prim.Native.String.{String}
use thor_firewall_smart.Prelude.{
  ℕ, zero, suc, ◌≡◌, ◌≤◌, ◌<◌, ◌+◌, refl, Bool, false, Option, none, some, List, [], ◌∷◌, arith,
  ◌==◌, nat_eq, string_eq, Bool-cases, if-both, inl, inr,
}
use thor_firewall_smart.Prelude.Scan.{
  span, rest_of, count, trim, trim_start_by, trim_end_by, count-rest_of, push_front,
}
use thor_firewall_smart.Ids.RuleOptions.{
  RuleOption, is_separator, in_keyword, read_char, read_value, read_option, options_loop,
  parse_options, Reading,
}

count-trim_start_by : (p : ℕ → Bool) (s : String) → count (trim_start_by p s) ≤ count s
unfolding trim_start_by count
count-trim_start_by p String.[] = omega arith
count-trim_start_by p (String.◌∷◌ c s) = ground (arith, count-trim_start_by p s)

-- What is taken and what is left are the text.
count-span-both : (p : ℕ → Bool) (s : String) → count (span p s).0 + count (span p s).1 ≡ count s
unfolding span count
count-span-both p String.[] = omega arith
count-span-both p (String.◌∷◌ c s) =
    let P : String × String → Type 0 = λ r. count r.0 + count r.1 ≡ suc (count s) in
    if-both P (p (code c)) (omega (arith, count-span-both p s)) (omega arith)

count-read_value :
    (depth : ℕ) (quote : Option ℕ) (s : String) → count (read_value depth quote s).1 ≤ count s
unfolding read_value count
count-read_value depth quote String.[] = omega arith
count-read_value depth quote (String.◌∷◌ c s) =
    step (read_char depth quote (code c)) (λ r. count-read_value r.0 r.1 s)
  where
    step :
        (o : Option Reading)
        → ((r : Reading) → count (read_value r.0 r.1 s).1 ≤ count s)
        → count
            (let r : String × String = elim o [
              | none ↦ ("", String.◌∷◌ c s)
              | some r ↦ push_front c (read_value r.0 r.1 s)
            ] in
              r).1
          ≤ suc (count s)
    step none all = omega arith
    step (some r) all = omega (arith, all r)

count-read_option : (word after : String) → count (read_option word after).1 ≤ count after
unfolding read_option
count-read_option word after =
    ground (arith, count-read_value 0 none (rest_of after), count-rest_of after)

-- A keyword that is not empty has a character.
trim-count : (s : String) → (trim s == "") ≡ false → 0 < count s
unfolding trim_start_by trim_end_by count
trim-count String.[] h = ground arith
trim-count (String.◌∷◌ c s) h = omega arith

options_loop_total :
    (f : ℕ) (s : String) → count s < f → (os : List RuleOption) × (options_loop f s ≡ some os)
unfolding options_loop
options_loop_total zero s h = absurd (omega (arith, h))
options_loop_total (suc f) s h =
    let rest = trim_start_by is_separator s in
    let word = trim (span in_keyword rest).0 in
    let (o, left) = read_option word (span in_keyword rest).1 in
    elim (Bool-cases (word == "")) [
      | inl e ↦ ([], rw e refl)
      | inr e ↦
          let (os, more) = options_loop_total f left (
            omega (
              arith,
              h,
              count-read_option word (span in_keyword rest).1,
              count-span-both in_keyword rest,
              count-trim_start_by is_separator s,
              trim-count (span in_keyword rest).0 e,
            )) in
          (o ∷ os, rw (e, more) refl)
    ]

-- The options of every text are read, within one round for each character and one more.
pub parse_options_total : (s : String) → (os : List RuleOption) × (parse_options s ≡ some os)
unfolding parse_options
parse_options_total s = options_loop_total (suc (count s)) s (omega arith)
