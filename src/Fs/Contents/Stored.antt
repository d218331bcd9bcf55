-- ===== src/Fs/Contents/Stored.antt =====
-- The loop of `truncate` of src/gcs_fs.cpp that reads a stored file through the content cache.
pub mod Rounds
use gcscfuse.Fs.Contents.Stored.Rounds.{
  length-loaded, asked, widened, widened-full, drop-split, rest-cases, doublings, doublings-looped,
  looped,
}
use mathlib.Core.Path.{subst}
use gcscfuse.Base.{
  ltb→lt, ℕ, zero, suc, ◌+◌, ◌-◌, ◌*◌, ◌<◌, ◌≤◌, ◌≡◌, ◌∙◌, ◌⊎◌, refl, ap, sym, Bool, false, some,
  inl, inr, [], ◌∷◌, ◌++◌, leb, ltb, length, take, drop, length-append, length-take, take_all,
  take-append-drop, drop_all, drop-append, if◌then◌else◌, arith, Bool-cases,
}
use mathlib.Core.List.{append-nil, append_assoc}
use gcscfuse.Base.Bytes.{Bytes}
use gcscfuse.Base.Dict.{Dict}
use gcscfuse.Base.Int.{leb_ℤ, pos}
use gcscfuse.Fs.Writes.{load_stored}
use gcscfuse.Gcs.Sdk.{StorageClient}
use gcscfuse.Reader
use gcscfuse.Reader.{cached, chunk, direct, size_mod}
use gcscfuse.Reader.Coherence.{IsCoherent, read-IsCoherent}
use gcscfuse.Reader.Loading.{content_at}
use gcscfuse.Reader.Loading.Needed.{needed}
use gcscfuse.Reader.Loading.Rounds.{loaded, repeated, doubled}
use gcscfuse.Reader.Slice.{delivers}

module _ (client : StorageClient) where
  open client use {Cloud}

  -- A round that gets something, and one that gets nothing.
  load_more :
      (fuel inner : ℕ) (r r' : Reader.Reader) (name acc s : Bytes) (x cap cap' : ℕ) (cloud : Cloud)
      → widened cap (length acc) ≡ cap'
      → Reader.read client inner r name (cap' - length acc) (length acc) cloud
        ≡ some (delivers (x ∷ s), r')
      → load_stored client (suc fuel) inner r name acc cap cloud
        ≡ load_stored client fuel inner r' name (acc ++ x ∷ s) cap' cloud
  unfolding load_stored
  load_more fuel inner r r' name acc s x cap cap' cloud h e =
      let g : leb_ℤ (delivers (x ∷ s)).count (pos 0) ≡ false = ground arith in
      rw (load_stored, h, e)
        (rw (g, load_stored)
          (ap (λ c. load_stored client fuel inner r' name (acc ++ x ∷ s) c cloud) h))

  load_end :
      (fuel inner : ℕ) (r r' : Reader.Reader) (name acc : Bytes) (cap cap' : ℕ) (cloud : Cloud)
      → widened cap (length acc) ≡ cap'
      → Reader.read client inner r name (cap' - length acc) (length acc) cloud
        ≡ some (delivers [], r')
      → load_stored client (suc fuel) inner r name acc cap cloud ≡ some (acc, r')
  unfolding load_stored
  load_end fuel inner r r' name acc cap cap' cloud h e = rw (load_stored, h, e) refl

  module _ (inner : ℕ) (shadowed : Bytes → Bool) (bucket name : Bytes) (cloud : Cloud)
      (small : length (content_at client bucket name cloud) < 536870912)
      (enough : needed (content_at client bucket name cloud) ≤ inner)
      (sh : shadowed name ≡ false) where
    -- A round in the loop reads on in what is loaded.
    read_on :
        (cache : Dict Bytes) (acc rest : Bytes) (n : ℕ)
        → IsCoherent client shadowed (cached (direct bucket) cache) cloud
        → acc ++ rest ≡ loaded (content_at client bucket name cloud)
        → n < 2147483648
        → (cache' : Dict Bytes) × (Reader.read client inner
              (cached (direct bucket) cache)
              name
              n
              (length acc)
              cloud
            ≡ some (delivers (take n rest), cached (direct bucket) cache'))
          × IsCoherent client shadowed (cached (direct bucket) cache') cloud
    read_on cache acc rest n h whole b =
        let text : Bytes = loaded (content_at client bucket name cloud) in
        let bound : length acc ≤ length text =
          omega (arith, length-append acc rest, ap (length {A = ℕ}) whole) in
        let (cache', done, kept) =
          read-IsCoherent client inner shadowed bucket cache name n (length acc) cloud h small
            enough sh b (omega (arith, length-loaded (content_at client bucket name cloud))) in
        (
          cache',
          done
              ∙ ap (λ t. some (delivers (take n t), cached (direct bucket) cache'))
                  (ap (drop (length acc)) (sym whole) ∙ drop-split acc rest),
          kept,
        )

    -- From a full buffer of `cap` bytes on, or once everything is read, `j` doublings and a last
    -- round are enough.
    load_rounds :
        (j fuel : ℕ) (cache : Dict Bytes) (acc rest : Bytes) (cap : ℕ)
        → j < fuel
        → IsCoherent client shadowed (cached (direct bucket) cache) cloud
        → acc ++ rest ≡ loaded (content_at client bucket name cloud)
        → (rest ≡ []) ⊎ (length acc ≡ cap)
        → 0 < cap
        → cap < length acc + 2147483648
        → length acc ≤ cap
        → length (loaded (content_at client bucket name cloud)) ≤ doubled j cap
        → (cache' : Dict Bytes) × (load_stored client fuel inner
              (cached (direct bucket) cache)
              name
              acc
              cap
              cloud
            ≡ some (loaded (content_at client bucket name cloud), cached (direct bucket) cache'))
    load_rounds j zero cache acc rest cap e h whole full p q r d = absurd (omega arith)
    load_rounds j (suc fuel) cache acc [] cap e h whole full p q r d =
        let text : Bytes = loaded (content_at client bucket name cloud) in
        let all : acc ≡ text = sym (append-nil acc) ∙ whole in
        let bound : length acc < 2147483648 =
          omega
            (arith, ap (length {A = ℕ}) all, length-loaded (content_at client bucket name cloud)) in
        let cap' : ℕ = widened cap (length acc) in
        let (cache', done, kept) =
          read_on cache acc [] (cap' - length acc) h whole (asked cap (length acc) r q bound) in
        (
          cache',
          load_end fuel inner (cached (direct bucket) cache) (cached (direct bucket) cache') name
                acc cap cap' cloud refl
                (done
                  ∙ ap (λ t. some (delivers t, cached (direct bucket) cache'))
                      (take_all _ [] (omega arith)))
              ∙ ap (λ t. some (t, cached (direct bucket) cache')) all,
        )
    load_rounds j (suc fuel) cache acc (x ∷ rest) zero e h whole full p q r d = absurd (omega arith)
    load_rounds j (suc fuel) cache acc (x ∷ rest) (suc m) e h whole (inl none_left) p q r d =
        absurd (ground arith)
    load_rounds zero (suc fuel) cache acc (x ∷ rest) (suc m) e h whole (inr full) p q r d =
        absurd (omega (arith, length-append acc (x ∷ rest), ap (length {A = ℕ}) whole))
    load_rounds (suc j) (suc fuel) cache acc (x ∷ rest) (suc m) e h whole (inr full) p q r d =
        let text : Bytes = loaded (content_at client bucket name cloud) in
        let more : Bytes = acc ++ x ∷ take m rest in
        let bound : length acc < 2147483648 = omega (
          arith,
          length-append acc (x ∷ rest),
          ap (length {A = ℕ}) whole,
          length-loaded (content_at client bucket name cloud),
        ) in
        let asks : suc m * 2 - length acc ≡ suc m = omega arith in
        let longer : length more ≡ length acc + suc (length (take m rest)) =
          length-append acc (x ∷ take m rest) in
        let (cache1, done, kept) = read_on cache acc (x ∷ rest) (suc m) h whole (omega arith) in
        let (cache', rounds) =
          load_rounds j fuel cache1 more (drop m rest) (suc m * 2) (omega arith) kept
            (append_assoc acc (x ∷ take m rest) (drop m rest)
              ∙ ap (λ t. acc ++ x ∷ t) (take-append-drop m rest)
              ∙ whole)
            (rest-cases acc rest x m (suc m * 2) (omega arith)) (omega arith)
            (omega (arith, longer)) (omega (arith, longer, length-take m rest)) d in
        (
          cache',
          load_more fuel inner (cached (direct bucket) cache) (cached (direct bucket) cache1) name
                acc (take m rest) x (suc m) (suc m * 2) cloud
                (widened-full (suc m) (length acc) full)
                (ap
                    (λ n.
                      Reader.read client inner (cached (direct bucket) cache) name n (length acc)
                        cloud)
                    asks
                  ∙ done)
              ∙ rounds,
        )

    first_round :
        (fuel : ℕ) (cache : Dict Bytes) (text : Bytes)
        → text ≡ loaded (content_at client bucket name cloud)
        → doublings (content_at client bucket name cloud) < fuel
        → IsCoherent client shadowed (cached (direct bucket) cache) cloud
        → (cache' : Dict Bytes) × (load_stored client
              (suc fuel)
              inner
              (cached (direct bucket) cache)
              name
              []
              chunk
              cloud
            ≡ some (loaded (content_at client bucket name cloud), cached (direct bucket) cache'))
    first_round fuel cache [] e f h =
        load_rounds 0 (suc fuel) cache [] [] chunk (omega arith) h e (inl refl) (omega arith)
          (omega arith) (omega arith) (omega (arith, ap (length {A = ℕ}) e))
    first_round fuel cache (x ∷ t) e f h =
        let more : Bytes = x ∷ take 1048575 t in
        let (cache1, done, kept) = read_on cache [] (x ∷ t) chunk h e (omega arith) in
        let (cache', rounds) =
          load_rounds (doublings (content_at client bucket name cloud)) fuel cache1 more
            (drop 1048575 t) chunk f kept (ap (◌∷◌ x) (take-append-drop 1048575 t) ∙ e)
            (rest-cases [] t x 1048575 chunk (omega arith)) (omega arith) (omega arith)
            (omega (arith, length-take 1048575 t))
            (doublings-looped (content_at client bucket name cloud) small).1 in
        (
          cache',
          load_more fuel inner (cached (direct bucket) cache) (cached (direct bucket) cache1) name
                [] (take 1048575 t) x chunk chunk cloud refl done
              ∙ rounds,
        )

    -- The loop loads what the rounds of the reader load, within as many rounds of its own.
    pub load_stored-loaded :
        (fuel : ℕ) (cache : Dict Bytes)
        → looped (content_at client bucket name cloud) ≤ fuel
        → IsCoherent client shadowed (cached (direct bucket) cache) cloud
        → (cache' : Dict Bytes) × (load_stored client fuel inner
              (cached (direct bucket) cache)
              name
              []
              chunk
              cloud
            ≡ some (loaded (content_at client bucket name cloud), cached (direct bucket) cache'))
    load_stored-loaded zero cache f h =
        absurd (omega (arith, (doublings-looped (content_at client bucket name cloud) small).0))
    load_stored-loaded (suc fuel) cache f h =
        first_round fuel cache (loaded (content_at client bucket name cloud)) refl
          (omega (arith, (doublings-looped (content_at client bucket name cloud) small).0)) h
