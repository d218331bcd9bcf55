-- ===== src/Reader/Loading/Rounds.antt =====
-- The loop of `CachedReader::read` of src/reader.hpp, over a reader that returns the beginning of a
-- text whatever the offset.
use gcscfuse.Reader.Slice.{delivers}
use mathlib.Core.List.{append-nil, append_assoc}
use gcscfuse.Base.Bytes.{Bytes}
use gcscfuse.Reader.{ReadResult, chunk, load}
use gcscfuse.Base.{
  zero, Bool-cases, inl, inr, if◌then◌else◌, ℕ, suc, ◌-◌, ◌*◌, ◌<◌, ◌≤◌, ◌≡◌, refl, ap, sym, ◌∙◌,
  [], ◌∷◌, ◌++◌, Option, some, arith, ltb, leb, length, take, length-take, length-append, take_all,
}
use gcscfuse.Base.Int.{pos, to_int, to_int-pos, leb_ℤ}

-- The size of the buffer in a round.
abbrev pub grown : ℕ → ℕ → ℕ
grown cap total = if leb_ℤ (to_int cap) (pos total) then cap * 2 else cap

last_round :
    (content acc : Bytes) (n : ℕ) (rest : Option Bytes)
    → length content < n
    → (if leb (length content) 0
        then some acc
        else if ltb (length content) n
        then some (acc ++ content)
        else rest)
      ≡ some (acc ++ content)
last_round [] acc n rest h = ap some (sym (append-nil acc))
last_round (x ∷ content) acc n rest h = ground arith

-- A reader that returns the first bytes of a text, as the loop of `CachedReader` asks for them.
module _ (read : ℕ → ReadResult) (content : Bytes)
    (starts : (n : ℕ) → n < 2147483648 → read n ≡ delivers (take n content)) where
  -- A round that fills the buffer goes on.
  pub load_full :
      (fuel : ℕ) (acc : Bytes) (cap cap' : ℕ)
      → grown cap (length acc) ≡ cap'
      → length acc < cap'
      → cap' < 2147483648
      → cap' - length acc ≤ length content
      → load (suc fuel) read acc cap ≡ load fuel read (acc ++ take (cap' - length acc) content) cap'
  unfolding load
  load_full fuel acc cap cap' g p b h =
      rw (g, starts (cap' - length acc) (omega arith), to_int-pos (cap' - length acc) (omega arith))
        (ground (arith, length-take (cap' - length acc) content))

  -- A round that gets less than it asked for is the last.
  pub load_short :
      (fuel : ℕ) (acc : Bytes) (cap cap' : ℕ)
      → grown cap (length acc) ≡ cap'
      → cap' < 2147483648
      → length content < cap' - length acc
      → load (suc fuel) read acc cap ≡ some (acc ++ content)
  unfolding load
  load_short fuel acc cap cap' g b h =
      rw
        (
          g,
          starts (cap' - length acc) (omega arith),
          to_int-pos (cap' - length acc) (omega arith),
          take_all (cap' - length acc) content (omega arith),
        )
        (last_round content acc (cap' - length acc) (load fuel read (acc ++ content) cap') h)

  -- A text shorter than the first buffer is loaded in one round.
  pub load-small :
      (fuel : ℕ) → length content < chunk → load (suc fuel) read [] chunk ≡ some content
  unfolding to_int
  load-small fuel h = load_short fuel [] chunk chunk refl (omega arith) (omega arith)

-- What a loop with `cap` bytes behind it still appends: beginnings that double in length while
-- they fit, and then the text.
unfoldable pub repeated : ℕ → Bytes → ℕ → Bytes
repeated zero content cap = content
repeated (suc j) content cap =
    let more = take cap content ++ repeated j content (cap * 2) in
    if ltb (length content) cap then content else more

abbrev pub doubled : ℕ → ℕ → ℕ
doubled zero cap = cap
doubled (suc j) cap = doubled j (cap * 2)

grown-full : (cap total : ℕ) → cap < 2147483648 → total ≡ cap → grown cap total ≡ cap * 2
grown-full cap total h e = rw (e, to_int-pos cap h) (ground arith)

module _ (read : ℕ → ReadResult) (content : Bytes)
    (starts : (n : ℕ) → n < 2147483648 → read n ≡ delivers (take n content)) where
  last_repeated :
      (n : ℕ) (acc : Bytes) (cap : ℕ)
      → length acc ≡ cap
      → cap < 1073741824
      → length content < cap
      → load (suc n) read acc cap ≡ some (acc ++ content)
  last_repeated n acc cap e b h =
      load_short read content starts n acc cap (cap * 2)
        (grown-full cap (length acc) (omega arith) e) (omega arith) (omega arith)

  -- From a full buffer of `cap` bytes on, `j` doublings are enough for a text that is shorter than
  -- what they reach.
  load-repeated :
      (j n : ℕ) (acc : Bytes) (cap : ℕ)
      → j < n
      → length acc ≡ cap
      → 0 < cap
      → cap < 1073741824
      → length content < doubled j cap
      → length content < 536870912
      → load n read acc cap ≡ some (acc ++ repeated j content cap)
  unfolding repeated
  load-repeated j zero acc cap h e p b d l = absurd (omega arith)
  load-repeated zero (suc n) acc cap h e p b d l = last_repeated n acc cap e b d
  load-repeated (suc j) (suc n) acc cap h e p b d l = elim (Bool-cases (ltb (length content) cap)) [
    | inl f ↦ rw f (last_repeated n acc cap e b (ground arith))
    | inr f ↦
        let fits : cap ≤ length content = ground arith in
        let s : Bytes = take cap content in
        let same_part : take (cap * 2 - length acc) content ≡ s =
          ap (λ (k : ℕ). take k content) {x = cap * 2 - length acc} {y = cap} (omega arith) in
        let full : length (acc ++ s) ≡ cap * 2 =
          omega (arith, length-append acc s, length-take cap content) in
        rw f (
          load_full read content starts n acc cap (cap * 2)
            (grown-full cap (length acc) (omega arith) e) (omega arith) (omega arith) (omega arith)
          ∙ ap (λ t. load n read (acc ++ t) (cap * 2)) same_part
          ∙ load-repeated j n (acc ++ s) (cap * 2) (omega arith) full (omega arith) (omega arith) d
              l
          ∙ ap some (append_assoc acc s (repeated j content (cap * 2))))
  ]

-- What `CachedReader` takes an object below 512 MiB for.
abbrev pub loaded : Bytes → Bytes
loaded content =
    if ltb (length content) chunk then content else take chunk content ++ repeated 9 content chunk

module _ (read : ℕ → ReadResult) (content : Bytes)
    (starts : (n : ℕ) → n < 2147483648 → read n ≡ delivers (take n content)) where
  pub load-loaded :
      (fuel : ℕ)
      → 11 ≤ fuel
      → length content < 536870912
      → load fuel read [] chunk ≡ some (loaded content)
  unfolding to_int
  load-loaded zero h l = absurd (omega arith)
  load-loaded (suc fuel) h l = elim (Bool-cases (ltb (length content) chunk)) [
    | inl f ↦ rw f (load-small read content starts fuel (ground arith))
    | inr f ↦
        let fits : chunk ≤ length content = ground arith in
        rw f (
          load_full read content starts fuel [] chunk chunk refl (omega arith) (omega arith) fits
          ∙ load-repeated read content starts 9 fuel (take chunk content) chunk (omega arith)
              (omega (arith, length-take chunk content)) (omega arith) (omega arith) l l)
  ]
