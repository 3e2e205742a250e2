-- ===== src/Prelude/F64/Toy.antt =====
-- Thousandths in place of `f64`, for tests.
use Prim.Native.Nat.{ℕ, ◌+◌, ◌*◌, ◌/◌, ◌^◌, max}
use thor_firewall_smart.Prelude.Tests.{ltb, leb}
use thor_firewall_smart.Prelude.F64.{F64}

abbrev pub thousandths : F64
thousandths = record {
  F = ℕ;
  literal = λ m k. m * 1000 / 10 ^ k;
  of_ℕ = λ n. n * 1000;
  add = λ a b. a + b;
  mul = λ a b. a * b / 1000;
  div = λ a b. a * 1000 / b;
  max = λ a b. max a b;
  ceil = λ a. (a + 999) / 1000 * 1000;
  lt = ltb;
  le = leb;
  to_usize = λ a. a / 1000;
  one_decimal = λ a. "x";
}
