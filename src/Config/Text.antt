-- ===== src/Config/Text.antt =====
-- The readings of text in src/config.cpp: `parseBool`, and `atoi` of the C library on texts whose
-- number fits an `int`.
use mathlib.Core.Path.{ap₂}
use gcscfuse.Base.{
  ℕ, ◌+◌, ◌-◌, ◌*◌, ◌≡◌, refl, Bool, true, ◌&&◌, ◌||◌, [], ◌∷◌, map, ◌==◌, leb, if◌then◌else◌,
  arith, ◌↔◌, ◌⊎◌,
}
use gcscfuse.Base.Bytes.{Bytes, codes, same, same_iff}
use gcscfuse.Base.Int.{ℤ, pos, negsuc}

unfoldable pub to_lower : ℕ → ℕ
to_lower c = if leb b'A' c && leb c b'Z' then c + 32 else c

unfoldable pub parse_bool : Bytes → Bool
unfolding to_lower
parse_bool value =
    let v = map to_lower value in
    same v (codes "true") || same v (codes "yes") || same v (codes "1") || same v (codes "on")

abbrev is_digit : ℕ → Bool
is_digit c = leb b'0' c && leb c b'9'

-- The value of the digits that a text begins with, behind those read before.
unfoldable digits : ℕ → Bytes → ℕ
digits n [] = n
digits n (c ∷ s) = let more = digits (n * 10 + (c - 48)) s in if is_digit c then more else n

-- `isspace` of the C locale.
abbrev is_space : ℕ → Bool
is_space c = c == b' ' || leb 9 c && leb c 13

unfoldable skip_space : Bytes → Bytes
skip_space [] = []
skip_space (c ∷ s) = let rest = skip_space s in if is_space c then rest else c ∷ s

abbrev negated : ℕ → ℤ
negated ℕ.zero = pos 0
negated (ℕ.suc n) = negsuc n

abbrev signed : Bytes → ℤ
signed [] = pos 0
signed (c ∷ s) =
    if c == b'-'
    then negated (digits 0 s)
    else pos (if c == b'+' then digits 0 s else digits 0 (c ∷ s))

unfoldable pub atoi : Bytes → ℤ
unfolding digits skip_space
atoi s = signed (skip_space s)

to_lower-to_lower : (c : ℕ) → to_lower (to_lower c) ≡ to_lower c
unfolding to_lower
to_lower-to_lower c = ground arith

lower-lower : (s : Bytes) → map to_lower (map to_lower s) ≡ map to_lower s
lower-lower [] = refl
lower-lower (c ∷ s) = ap₂ ◌∷◌ (to_lower-to_lower c) (lower-lower s)

-- `parseBool` ignores the case of its text, and accepts exactly four words.
parse_bool_lem :
    (value : Bytes)
    → (parse_bool (map to_lower value) ≡ parse_bool value)
      × ((parse_bool value ≡ true) ↔ (
          (map to_lower value ≡ codes "true")
          ⊎ (map to_lower value ≡ codes "yes")
          ⊎ (map to_lower value ≡ codes "1")
          ⊎ (map to_lower value ≡ codes "on")))
unfolding parse_bool
parse_bool_lem value =
    let v = map to_lower value in
    (
      rw lower-lower refl,
      (
        λ h. ground (
          arith,
          same_iff v (codes "true"),
          same_iff v (codes "yes"),
          same_iff v (codes "1"),
          same_iff v (codes "on"),
        ),
        λ h. ground (
          arith,
          same_iff v (codes "true"),
          same_iff v (codes "yes"),
          same_iff v (codes "1"),
          same_iff v (codes "on"),
        ),
      ),
    )
