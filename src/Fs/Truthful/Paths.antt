-- ===== src/Fs/Truthful/Paths.antt =====
-- The paths of the entries of a directory, as `readdir` of src/gcs_fs.cpp makes them.
use gcscfuse.Base.{ℕ, ◌≡◌, ◌++◌, List, [], ◌∷◌, All, false, refl, inl, inr, arith, ap, ◌∙◌, sym}
use gcscfuse.Base.Bytes.{Bytes, slash, same}
use gcscfuse.Fs.Lookups.{full_path, up_to_slash}
use gcscfuse.Fs.State.{ends_with_slash, dir_prefix, object_of}
use gcscfuse.Fs.Truthful.{IsNormal}
use gcscfuse.StatCache.Cache.View.Files.{path_of-append, All-snoc}
use gcscfuse.StatCache.Path.{path_of, strip_leading}
use gcscfuse.StatCache.Path.RoundTrip.{IsComponent, NoSlash}
use mathlib.Core.Bool.{false≢true}
use mathlib.Core.List.{append_assoc, append-nil}

ends_with_slash-append :
    (xs : Bytes) (y : ℕ) (ys : Bytes) → ends_with_slash (xs ++ y ∷ ys) ≡ ends_with_slash (y ∷ ys)
unfolding ends_with_slash
ends_with_slash-append [] y ys = refl
ends_with_slash-append (x ∷ []) y ys = refl
ends_with_slash-append (x ∷ x' ∷ xs) y ys = ends_with_slash-append (x' ∷ xs) y ys

ends_with_slash-NoSlash : (s : Bytes) → NoSlash s → ends_with_slash s ≡ false
unfolding ends_with_slash
ends_with_slash-NoSlash [] h = refl
ends_with_slash-NoSlash (x ∷ []) h = h.0
ends_with_slash-NoSlash (x ∷ x' ∷ s) h = ends_with_slash-NoSlash (x' ∷ s) h.1

ends_with_slash-path_of :
    (c : Bytes) (cs : List Bytes)
    → All IsComponent (c ∷ cs)
    → ends_with_slash (c ++ path_of cs) ≡ false
unfolding path_of ends_with_slash
ends_with_slash-path_of c [] h = rw append-nil (ends_with_slash-NoSlash c h.0.1)
ends_with_slash-path_of c ([] ∷ cs) h = absurd (false≢true (sym h.1.0.0))
ends_with_slash-path_of c ((x ∷ d) ∷ cs) h =
    ends_with_slash-append c slash (x ∷ d ++ path_of cs) ∙ ends_with_slash-path_of (x ∷ d) cs h.1

pub up_to_slash-whole : (s : Bytes) → (up_to_slash s).1 ≡ false → (up_to_slash s).0 ≡ s
unfolding up_to_slash
up_to_slash-whole [] h = refl
up_to_slash-whole (c ∷ s) h = ground (arith, up_to_slash-whole s)

-- An entry of a directory has a normal path, and its object is that behind the prefix.
pub full_path-IsNormal :
    (path e : Bytes)
    → IsNormal path
    → IsComponent e
    → IsNormal (full_path path e)
      × (object_of (full_path path e) ≡ dir_prefix (object_of path) ++ e)
unfolding full_path path_of strip_leading dir_prefix same ends_with_slash
full_path-IsNormal path e (inl r) k =
    rw r (inr (e, [], (k, tt), ap (◌∷◌ slash) (sym (append-nil e))), refl)
full_path-IsNormal path e (inr ([], cs, h, r)) k = absurd (false≢true (sym h.0.0))
full_path-IsNormal path e (inr (x ∷ c, cs, h, r)) k =
    rw (r, ends_with_slash-path_of (x ∷ c) cs h)
      (
        inr (
          x ∷ c,
          cs ++ e ∷ [],
          (h.0, All-snoc cs e h.1 k),
          append_assoc (path_of ((x ∷ c) ∷ cs)) (slash ∷ []) e
              ∙ sym (path_of-append ((x ∷ c) ∷ cs) e),
        ),
        refl,
      )
