-- ===== src/Base/Int.antt =====
-- Python's `int`: `negsuc n` is -(n + 1).
use Prim.Native.Nat.{ℕ}
use mathlib.Core.Bool.{Bool, false, ◌&&◌}
use mcp_guard.Base.Tests.{nat_eq, leb}

pub data ℤ : Type 0 where
  pos : ℕ → ℤ
  negsuc : ℕ → ℤ

abbrev pub int_eq : ℤ → ℤ → Bool
int_eq (pos a) (pos b) = nat_eq a b
int_eq (negsuc a) (negsuc b) = nat_eq a b
int_eq _ _ = false

-- lo <= n <= hi, for bounds that are not negative
abbrev pub int_between : ℕ → ℤ → ℕ → Bool
int_between lo (pos n) hi = leb lo n && leb n hi
int_between lo (negsuc n) hi = false
