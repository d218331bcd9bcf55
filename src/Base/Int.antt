-- ===== src/Base/Int.antt =====
-- Signed integers, for `int` results and timeouts, over the native numbers.
use Prim.Native.Nat.{ℕ, ◌-◌, ◌%◌, ◌<◌}
use mathlib.Core.Bool.{Bool, true, false}
use mathlib.Core.Path.{◌≡◌}
use native.Mathlib.Omega.{arith}
use gcscfuse.Base.Tests.{ltb, leb, if◌then◌else◌}

-- `negsuc n` is -(n + 1).
pub data ℤ : Type 0 where
  pos : ℕ → ℤ
  negsuc : ℕ → ℤ

abbrev pub leb_ℤ : ℤ → ℤ → Bool
leb_ℤ (pos a) (pos b) = leb a b
leb_ℤ (pos a) (negsuc b) = false
leb_ℤ (negsuc a) (pos b) = true
leb_ℤ (negsuc a) (negsuc b) = leb b a

abbrev pub ltb_ℤ : ℤ → ℤ → Bool
ltb_ℤ (pos a) (pos b) = ltb a b
ltb_ℤ (pos a) (negsuc b) = false
ltb_ℤ (negsuc a) (pos b) = true
ltb_ℤ (negsuc a) (negsuc b) = ltb b a

-- `static_cast<int>(size_t)`: the low 32 bits, read as two's complement.
unfoldable pub to_int : ℕ → ℤ
to_int n =
    let low : ℕ = n % 4294967296 in
    if ltb low 2147483648 then pos low else negsuc (4294967296 - low - 1)

-- Below 2 ^ 31 the cast keeps the value.
pub to_int-pos : (n : ℕ) → n < 2147483648 → to_int n ≡ pos n
unfolding to_int
to_int-pos n h = let e : n % 4294967296 ≡ n = omega arith in rw e (ground arith)
