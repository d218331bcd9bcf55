-- ===== src/Base/Bytes.antt =====
-- `std::string`: a list of byte values, with its equality, its order and text literals.
use Prim.Native.Char.{code}
use Prim.Native.Nat.{ℕ}
use Prim.Native.String.{String}
use mathlib.Core.Bool.{Bool, true, false, ◌&&◌, ◌||◌}
use mathlib.Core.List.{List, [], ◌∷◌}
use mathlib.Core.Logic.{◌↔◌}
use mathlib.Core.Path.{◌≡◌, refl}
use native.Mathlib.Omega.{arith}
use gcscfuse.Base.Tests.{◌==◌, ltb}

abbrev pub Bytes : Type 0
Bytes = List ℕ

-- The bytes of an ASCII literal.
abbrev pub codes : String → Bytes
codes String.[] = []
codes (String.◌∷◌ c s) = code c ∷ codes s

abbrev pub slash : ℕ
slash = b'/'

unfoldable pub same : Bytes → Bytes → Bool
same [] [] = true
same (x ∷ xs) (y ∷ ys) = x == y && same xs ys
same _ _ = false

-- `operator<` of `std::string`: the key order of `std::map`.
unfoldable pub before : Bytes → Bytes → Bool
before [] [] = false
before [] (y ∷ ys) = true
before (x ∷ xs) [] = false
before (x ∷ xs) (y ∷ ys) = ltb x y || (x == y && before xs ys)

-- `std::find`, as a test
unfoldable pub contains : Bytes → List Bytes → Bool
contains name [] = false
contains name (e ∷ entries) = same e name || contains name entries

pub same_refl : (a : Bytes) → same a a ≡ true
unfolding same
same_refl [] = refl
same_refl (x ∷ xs) = ground (arith, same_refl xs)

pub same-eq : (a b : Bytes) → same a b ≡ true → a ≡ b
unfolding same
same-eq [] [] h = refl
same-eq (x ∷ xs) (y ∷ ys) h = ground (arith, same-eq xs ys)
same-eq [] (y ∷ ys) h = ground arith
same-eq (x ∷ xs) [] h = ground arith

pub same_iff : (a b : Bytes) → (same a b ≡ true) ↔ (a ≡ b)
same_iff a b = (same-eq a b, λ e. rw e (same_refl b))

pub before_trans : (a b c : Bytes) → before a b ≡ true → before b c ≡ true → before a c ≡ true
unfolding before
before_trans [] [] c h k = ground arith
before_trans [] (y ∷ b) [] h k = ground arith
before_trans [] (y ∷ b) (z ∷ c) h k = refl
before_trans (x ∷ a) [] c h k = ground arith
before_trans (x ∷ a) (y ∷ b) [] h k = ground arith
before_trans (x ∷ a) (y ∷ b) (z ∷ c) h k = ground (arith, before_trans a b c)

pub before_irrefl : (a : Bytes) → before a a ≡ false
unfolding before
before_irrefl [] = refl
before_irrefl (x ∷ a) = ground (arith, before_irrefl a)

-- Two texts that differ are in order one way or the other.
pub before_total : (a b : Bytes) → same a b ≡ false → before b a ≡ false → before a b ≡ true
unfolding before same
before_total [] [] h k = ground arith
before_total [] (y ∷ b) h k = refl
before_total (x ∷ a) [] h k = ground arith
before_total (x ∷ a) (y ∷ b) h k = ground (arith, before_total a b)
