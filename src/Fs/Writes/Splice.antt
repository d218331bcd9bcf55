-- ===== src/Fs/Writes/Splice.antt =====
-- The buffer of `GCSFS::write` after a write, byte range by byte range.
use gcscfuse.Base.{
  lt→ltb, ◌%◌, take-append, drop-append, ℕ, zero, suc, ◌+◌, ◌-◌, ◌<◌, ◌≤◌, ◌≡◌, refl, ap, sym, ◌∙◌,
  arith, true, if◌then◌else◌, ltb, length, take, drop, replicate, [], ◌∷◌, ◌++◌, inl, inr,
  Bool-cases, take_all, drop_all, length-append, length-take, length-replicate,
}
use gcscfuse.Base.Bytes.{Bytes}
use gcscfuse.Fs.Writes.{overwritten, resize}
use gcscfuse.Reader.{size_mod}
use gcscfuse.Reader.Slice.{slice}
use mathlib.Core.List.{append_assoc, append-nil}

take_append : (n : ℕ) (xs ys : Bytes) → take n (xs ++ ys) ≡ take n xs ++ take (n - length xs) ys
take_append zero [] ys = refl
take_append zero (x ∷ xs) ys = ap (λ m. take m ys) {x = 0} {y = 0 - length (x ∷ xs)} (omega arith)
take_append (suc n) [] ys = ap (λ m. take m ys) {x = suc n} {y = suc n - 0} (omega arith)
take_append (suc n) (x ∷ xs) ys = ap (◌∷◌ x) (
    take_append n xs ys
    ∙ ap (λ m. take n xs ++ take m ys) {x = n - length xs} {y = suc n - length (x ∷ xs)}
        (omega arith))

abbrev zeros : ℕ → Bytes
zeros n = replicate n 0

replicate_append : (a b c : ℕ) → a + b ≡ c → zeros a ++ zeros b ≡ zeros c
replicate_append zero b c e = ap (λ m. zeros m) {x = b} {y = c} (omega arith)
replicate_append (suc a) b zero e = absurd (omega arith)
replicate_append (suc a) b (suc c) e = ap (◌∷◌ 0) (replicate_append a b c (omega arith))

take-zeros : (a b : ℕ) → a ≤ b → take a (zeros b) ≡ zeros a
take-zeros zero b h = refl
take-zeros (suc a) zero h = absurd (omega arith)
take-zeros (suc a) (suc b) h = ap (◌∷◌ 0) (take-zeros a b (omega arith))

-- A text that grows.
resize-long :
    (n : ℕ) (content : Bytes)
    → length content ≤ n
    → resize n content ≡ content ++ zeros (n - length content)
unfolding resize
resize-long n content h = ap (λ t. t ++ zeros (n - length content)) (take_all n content h)

resize-short : (n : ℕ) (content : Bytes) → n ≤ length content → resize n content ≡ take n content
unfolding resize
resize-short n content h =
    ap (λ k. take n content ++ zeros k) {x = n - length content} {y = 0} (omega arith)
    ∙ append-nil (take n content)

length-resize : (n : ℕ) (content : Bytes) → length (resize n content) ≡ n
unfolding resize
length-resize n content = omega (
  arith,
  length-append (take n content) (zeros (n - length content)),
  length-take n content,
  length-replicate {A = ℕ} (n - length content) 0,
)

resize-resize :
    (n m : ℕ) (content : Bytes)
    → length content ≤ n
    → n ≤ m
    → resize m (resize n content) ≡ resize m content
resize-resize n m content h k =
    resize-long m (resize n content) (omega (arith, length-resize n content))
    ∙ ap (λ t. t ++ zeros (m - length (resize n content))) (resize-long n content h)
    ∙ append_assoc content (zeros (n - length content)) (zeros (m - length (resize n content)))
    ∙ ap (λ t. content ++ t)
        (replicate_append (n - length content) (m - length (resize n content)) (m - length content)
          (omega (arith, length-resize n content)))
    ∙ sym (resize-long m content (omega arith))

take-resize :
    (n m : ℕ) (content : Bytes)
    → n ≤ m
    → length content ≤ m
    → take n (resize m content) ≡ resize n content
unfolding resize
take-resize n m content h k =
    ap (take n) (resize-long m content k)
    ∙ take_append n content (zeros (m - length content))
    ∙ ap (λ t. take n content ++ t)
        (take-zeros (n - length content) (m - length content) (omega arith))

module _ (buf : Bytes) (offset : ℕ) (content : Bytes) where
  -- The buffer before the bytes are copied into it.
  abbrev room : Bytes
  room =
      if ltb (length content) (offset + length buf)
      then resize (offset + length buf) content
      else content

  grown-room :
      (let padded = if ltb (length content) offset then resize offset content else content in
        if ltb (length padded) (offset + length buf)
        then resize (offset + length buf) padded
        else padded)
      ≡ room
  grown-room = elim (Bool-cases (ltb (length content) offset)) [
    | inr e ↦ rw e refl
    | inl e ↦
        let lt : length content < offset = ground arith in
        let longer : ltb (length content) (offset + length buf) ≡ true =
          lt→ltb (length content) (offset + length buf) (omega arith) in
        elim (Bool-cases (ltb (length (resize offset content)) (offset + length buf))) [
          | inl f ↦
              rw (e, f, longer)
                (resize-resize offset (offset + length buf) content (omega arith) (omega arith))
          | inr f ↦
              let ge : offset + length buf ≤ length (resize offset content) = ground arith in
              rw (e, f, longer)
                (ap (λ k. resize k content) {x = offset} {y = offset + length buf}
                  (omega (arith, length-resize offset content)))
        ]
  ]

  overwritten-room :
      offset + length buf < size_mod
      → overwritten buf offset content ≡ take offset room ++ buf ++ drop (offset + length buf) room
  unfolding overwritten
  overwritten-room h =
      let m : (offset + length buf) % size_mod ≡ offset + length buf = omega arith in
      rw m (ap (λ g. take offset g ++ buf ++ drop (offset + length buf) g) grown-room)

  length-room : offset + length buf ≤ length room
  length-room = elim (Bool-cases (ltb (length content) (offset + length buf))) [
    | inl e ↦ rw e (omega (arith, length-resize (offset + length buf) content))
    | inr e ↦ rw e (ground arith)
  ]

  take-room : take offset room ≡ resize offset content
  take-room = elim (Bool-cases (ltb (length content) (offset + length buf))) [
    | inl e ↦
        let lt : length content < offset + length buf = ground arith in
        rw e (take-resize offset (offset + length buf) content (omega arith) (omega arith))
    | inr e ↦
        let ge : offset + length buf ≤ length content = ground arith in
        rw e (sym (resize-short offset content (omega arith)))
  ]

  drop-room : drop (offset + length buf) room ≡ drop (offset + length buf) content
  drop-room = elim (Bool-cases (ltb (length content) (offset + length buf))) [
    | inl e ↦
        let lt : length content < offset + length buf = ground arith in
        rw e (
          drop_all (offset + length buf) (resize (offset + length buf) content)
            (omega (arith, length-resize (offset + length buf) content))
          ∙ sym (drop_all (offset + length buf) content (omega arith)))
    | inr e ↦ rw e refl
  ]

  -- A write puts its bytes at its offset. Before them is the old text, padded with zeros or cut to
  -- the offset, and behind them what the old text has there.
  pub overwritten-slice :
      offset + length buf < size_mod
      → (take offset (overwritten buf offset content) ≡ resize offset content)
        × (slice (overwritten buf offset content) (length buf) offset ≡ buf)
        × (drop (offset + length buf) (overwritten buf offset content)
            ≡ drop (offset + length buf) content)
  overwritten-slice h =
      let before : length (take offset room) ≡ offset =
        omega (arith, length-take offset room, length-room) in
      let tail : Bytes = drop (offset + length buf) room in
      let m : offset ≡ length (take offset room) = sym before in
      rw (overwritten-room h) (
        ap (take offset) (append_assoc (take offset room) buf tail)
            ∙ take-append offset (take offset room) (buf ++ tail) m
            ∙ take-room,
        ap (λ t. take (length buf) (drop offset t)) (append_assoc (take offset room) buf tail)
            ∙ ap (take (length buf)) (drop-append offset (take offset room) (buf ++ tail) m)
            ∙ take-append (length buf) buf tail refl,
        drop-append (offset + length buf) (take offset room ++ buf) tail
              (omega (arith, before, length-append (take offset room) buf))
            ∙ drop-room,
      )
