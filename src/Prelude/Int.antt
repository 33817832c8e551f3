-- ===== src/Prelude/Int.antt =====
-- Integers of the program that may be negative: a revision that starts at -1, an RPC error code.
use Prim.Native.Nat.{ℕ, suc}
use mathlib.Core.Path.{◌≡◌}
use mathlib.Core.Bool.{Bool, true, false}
use native.Mathlib.Omega.{arith}
use vkodex.Prelude.Tests.{leb, ◌==◌, max_safe_integer}

-- `negsuc n` is -(n + 1).
pub data ℤ : Type 0 where
  pos : ℕ → ℤ
  negsuc : ℕ → ℤ

abbrev pub leb_ℤ : ℤ → ℤ → Bool
leb_ℤ (pos a) (pos b) = leb a b
leb_ℤ (pos a) (negsuc b) = false
leb_ℤ (negsuc a) (pos b) = true
leb_ℤ (negsuc a) (negsuc b) = leb b a

abbrev pub eq_ℤ : ℤ → ℤ → Bool
eq_ℤ (pos a) (pos b) = a == b
eq_ℤ (pos a) (negsuc b) = false
eq_ℤ (negsuc a) (pos b) = false
eq_ℤ (negsuc a) (negsuc b) = a == b

-- `Number.isSafeInteger` on an integer.
abbrev pub is_safe_integer : ℤ → Bool
is_safe_integer (pos a) = leb a max_safe_integer
is_safe_integer (negsuc a) = leb (suc a) max_safe_integer

infix 50 ◌<ℤ◌
abbrev pub ◌<ℤ◌ : ℤ → ℤ → Type 0
a <ℤ b = leb_ℤ b a ≡ false

pub <ℤ-trans : (a b c : ℤ) → a <ℤ b → b <ℤ c → a <ℤ c
<ℤ-trans a b c h k = ground arith

pub <ℤ-irrefl : (a : ℤ) → ¬ (a <ℤ a)
<ℤ-irrefl a h = ground arith
