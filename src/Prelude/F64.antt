-- ===== src/Prelude/F64.antt =====
-- `f64` or `f32` and its operations, which the processor gives: a parameter of what computes with them.
pub mod Toy
use Prim.Native.Nat.{ℕ}
use Prim.Native.String.{String}
use mathlib.Core.Bool.{Bool}

pub record F64 : Type 1 where
  pub F : Type 0
  -- The literal `m / 10 ^ k`, rounded, and an integer, rounded.
  pub literal : (m k : ℕ) → F
  pub of_ℕ : ℕ → F
  pub add : F → F → F
  pub mul : F → F → F
  pub div : F → F → F
  pub max : F → F → F
  pub ceil : F → F
  pub lt : F → F → Bool
  pub le : F → F → Bool
  -- `as usize`, which saturates.
  pub to_usize : F → ℕ
  -- `{:.1}`
  pub one_decimal : F → String
