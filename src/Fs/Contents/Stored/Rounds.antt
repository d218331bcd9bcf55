-- ===== src/Fs/Contents/Stored/Rounds.antt =====
-- The rounds of the loop of `truncate` of src/gcs_fs.cpp that reads a stored file: the sizes of its
-- buffer and the parts of the text.
use mathlib.Core.Path.{subst}
use gcscfuse.Base.{
  ltb→lt, ℕ, zero, suc, ◌+◌, ◌-◌, ◌*◌, ◌<◌, ◌≤◌, ◌≡◌, ◌⊎◌, refl, ap, sym, inl, inr, [], ◌∷◌, ◌++◌,
  leb, ltb, length, take, drop, length-append, length-take, drop_all, drop-append, if◌then◌else◌,
  arith, Bool-cases,
}
use gcscfuse.Base.Bytes.{Bytes}
use gcscfuse.Reader.{chunk}
use gcscfuse.Reader.Loading.Rounds.{loaded, repeated, doubled}

length-repeated_le :
    (j : ℕ) (content : Bytes) (cap : ℕ)
    → cap ≤ length content + length content
    → length (repeated j content cap) + cap ≤ 3 * length content
unfolding repeated
length-repeated_le zero content cap h = omega arith
length-repeated_le (suc j) content cap h = elim (Bool-cases (ltb (length content) cap)) [
  | inl f ↦ rw f (omega arith)
  | inr f ↦
      let fits : cap ≤ length content = ground arith in
      rw f (
        omega (
          arith,
          length-append (take cap content) (repeated j content (cap * 2)),
          length-take cap content,
          length-repeated_le j content (cap * 2) (omega arith),
        ))
]

-- What is loaded is at most three times as long as the object.
pub length-loaded : (content : Bytes) → length (loaded content) ≤ 3 * length content
length-loaded content = elim (Bool-cases (ltb (length content) chunk)) [
  | inl f ↦ rw f (omega arith)
  | inr f ↦
      let fits : chunk ≤ length content = ground arith in
      rw f (
        omega (
          arith,
          length-append (take chunk content) (repeated 9 content chunk),
          length-take chunk content,
          length-repeated_le 9 content chunk (omega arith),
        ))
]

-- The size of the buffer in a round.
abbrev pub widened : ℕ → ℕ → ℕ
widened cap total = if leb cap total then cap * 2 else cap

pub asked :
    (cap total : ℕ)
    → total ≤ cap
    → cap < total + 2147483648
    → total < 2147483648
    → widened cap total - total < 2147483648
asked cap total r q b = elim (Bool-cases (leb cap total)) [
  | inl e ↦ rw e (let k : cap ≤ total = ground arith in omega arith)
  | inr e ↦ rw e (omega arith)
]

pub widened-full : (cap total : ℕ) → total ≡ cap → widened cap total ≡ cap * 2
widened-full cap total e = rw e (ground arith)

pub drop-split : (acc rest : Bytes) → drop (length acc) (acc ++ rest) ≡ rest
drop-split acc rest = drop-append (length acc) acc rest refl

pub rest-cases :
    (acc rest : Bytes) (x m cap : ℕ)
    → length acc + suc m ≡ cap
    → (drop m rest ≡ []) ⊎ (length (acc ++ x ∷ take m rest) ≡ cap)
rest-cases acc rest x m cap e = elim (Bool-cases (leb (length rest) m)) [
  | inl s ↦ inl (drop_all m rest (ground arith))
  | inr s ↦
      let k : m < length rest = ground arith in
      inr (omega (arith, length-append acc (x ∷ take m rest), length-take m rest))
]

-- The rounds of the loop for an object.
abbrev pub looped : Bytes → ℕ
looped content = if ltb (length content) chunk then 2 else 13

pub looped-small :
    (fuel : ℕ) (content : Bytes) → length content < chunk → looped content ≤ suc (suc fuel)
looped-small fuel content h = ground arith

-- The doublings behind the first round.
abbrev pub doublings : Bytes → ℕ
doublings content = if ltb (length content) chunk then 0 else 11

pub doublings-looped :
    (content : Bytes)
    → length content < 536870912
    → (suc (doublings content) < looped content)
      × (length (loaded content) ≤ doubled (doublings content) chunk)
doublings-looped content l = elim (Bool-cases (ltb (length content) chunk)) [
  | inl f ↦ rw f (omega arith, omega (arith, ltb→lt (length content) chunk f))
  | inr f ↦ (
    rw f (omega arith),
    subst (λ k. length (loaded content) ≤ doubled k chunk) (ap (λ b. if b then 0 else 11) (sym f))
        (omega (arith, length-loaded content)),
  )
]
