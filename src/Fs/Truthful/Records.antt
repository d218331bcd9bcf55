-- ===== src/Fs/Truthful/Records.antt =====
-- The records of the stat cache of src/stat_cache.cpp that are true of the files stay so.
use gcscfuse.Base.{
  if◌then◌else◌, ℕ, ◌≡◌, ◌≢◌, ◌++◌, ◌||◌, not, List, [], ◌∷◌, Option, none, some, All, is_empty,
  true, false, refl, inl, inr, arith, ap, ◌∙◌, sym, Bool-cases, Bool,
}
use gcscfuse.Base.Bytes.{Bytes, slash}
use gcscfuse.Fs.State.{object_of, root_path}
use gcscfuse.Fs.Truthful.{name_of, IsTrue, IsTrueOf, HasLength, IsNormal}
use gcscfuse.StatCache.Cache.{StatCache, insert_file, insert_directory, remove, dir_info}
use gcscfuse.StatCache.Cache.Invariant.{IsValid}
use gcscfuse.StatCache.Cache.View.{
  split_path-root, view, get_or, view-insert_directory, view-remove,
}
use gcscfuse.StatCache.Cache.View.Files.{view-insert_file, file_view, or_dir, is_above}
use gcscfuse.StatCache.Path.{path_of, split_path, strip_leading, is_root}
use gcscfuse.StatCache.Path.RoundTrip.{IsComponent, split_path-path_of}
use gcscfuse.StatCache.Trie.{StatInfo}
use gcscfuse.StatCache.Trie.Lookup.{same_path_refl, same_path, same_path-eq}
use mathlib.Core.Bool.{false≢true, or-true}
use mathlib.Core.Path.{subst}

-- The object of a normal path, by its components.
split_path-object :
    {path : Bytes} (c : Bytes) (cs : List Bytes)
    → IsNormal path
    → split_path path ≡ c ∷ cs
    → object_of path ≡ c ++ path_of cs
unfolding path_of strip_leading is_root
split_path-object c cs (inl r) e = absurd (ground (arith, split_path-root root_path refl, r))
split_path-object c cs (inr (d, ds, k, r)) e =
    ap strip_leading r ∙ ap name_of (sym (split_path-path_of d ds k) ∙ ap split_path (sym r) ∙ e)

-- A directory says nothing of a file.
get_or-IsTrueOf :
    (now : ℕ) (o : Option StatInfo) (buffer stored : Option Bytes)
    → IsTrueOf o buffer stored
    → IsTrueOf (some (get_or o (dir_info now))) buffer stored
get_or-IsTrueOf now none buffer stored h = λ m b. absurd (ground arith)
get_or-IsTrueOf now (some info) buffer stored h = h

or_dir-IsTrueOf :
    (now : ℕ) (above : Bool) (o : Option StatInfo) (buffer stored : Option Bytes)
    → IsTrueOf o buffer stored
    → IsTrueOf (or_dir now above o) buffer stored
or_dir-IsTrueOf now true o buffer stored h = get_or-IsTrueOf now o buffer stored h
or_dir-IsTrueOf now false o buffer stored h = h

pub insert_directory-IsTrue :
    (now : ℕ) (path : Bytes) {cache : StatCache} {buffer stored : Bytes → Option Bytes}
    → IsValid cache
    → IsTrue cache buffer stored
    → IsTrue (insert_directory now path cache) buffer stored
insert_directory-IsTrue now path {cache} v h = record {
  holds = λ c cs k.
      rw (view-insert_directory now path (c ∷ cs) v)
        (elim (Bool-cases (same_path (split_path path) (c ∷ cs))) [
          | inl e ↦ rw e (get_or-IsTrueOf now (view cache (c ∷ cs)) _ _ (h.holds c cs k))
          | inr e ↦ rw e (h.holds c cs k)
        ]);
}

file_view-IsTrueOf :
    (now size mtime : ℕ) (p q : List Bytes) (o : Option StatInfo) (buffer stored : Option Bytes)
    → IsTrueOf o buffer stored
    → (p ≡ q → buffer ≡ none → HasLength stored size)
    → IsTrueOf (file_view now size mtime p q o) buffer stored
file_view-IsTrueOf now size mtime [] q o buffer stored h new = h
file_view-IsTrueOf now size mtime (x ∷ p) q o buffer stored h new =
    elim (Bool-cases (same_path (x ∷ p) q)) [
      | inl e ↦ rw e (λ m b. new (same_path-eq (x ∷ p) q e) b)
      | inr e ↦ rw e (or_dir-IsTrueOf now (is_above (x ∷ p) q) o buffer stored h)
    ]

pub insert_file-IsTrue :
    (now : ℕ) (path : Bytes) (size mtime : ℕ) {cache : StatCache}
    {buffer stored : Bytes → Option Bytes}
    → IsValid cache
    → IsTrue cache buffer stored
    → IsNormal path
    → (buffer (object_of path) ≡ none → HasLength (stored (object_of path)) size)
    → IsTrue (insert_file now path size mtime cache) buffer stored
insert_file-IsTrue now path size mtime {cache} {buffer} {stored} v h n new = record {
  holds = λ c cs k. rw (view-insert_file now path size mtime (c ∷ cs) v) (
      file_view-IsTrueOf now size mtime (split_path path) (c ∷ cs) (view cache (c ∷ cs)) _ _
        (h.holds c cs k)
        (λ e b.
          subst (λ j. HasLength (stored j) size) (split_path-object c cs n e)
            (new (ap buffer (split_path-object c cs n e) ∙ b))));
}

IsTrueOf-agrees :
    (o : Option StatInfo) {buffer buffer' stored stored' : Option Bytes}
    → IsTrueOf o buffer stored
    → (buffer' ≡ none → (buffer ≡ none) × (stored' ≡ stored))
    → IsTrueOf o buffer' stored'
IsTrueOf-agrees none t same = tt
IsTrueOf-agrees (some info) t same =
    λ m b. subst (λ o. HasLength o info.size) (sym (same b).1) (t m (same b).0)

-- What is buffered hides the stored objects that changed.
pub hidden-IsTrue :
    {cache : StatCache} {buffer buffer' stored stored' : Bytes → Option Bytes}
    → IsTrue cache buffer stored
    → ((k : Bytes) → buffer' k ≡ none → (buffer k ≡ none) × (stored' k ≡ stored k))
    → IsTrue cache buffer' stored'
hidden-IsTrue {cache} h same = record {
  holds = λ c cs k. IsTrueOf-agrees (view cache (c ∷ cs)) (h.holds c cs k) (same (c ++ path_of cs));
}

object-split_path :
    (name c : Bytes) (cs : List Bytes)
    → All IsComponent (c ∷ cs)
    → name ≡ c ++ path_of cs
    → same_path (split_path (slash ∷ name)) (c ∷ cs) ≡ true
unfolding path_of
object-split_path name c cs k e = rw (e, split_path-path_of c cs k) (same_path_refl (c ∷ cs))

-- What is no longer buffered is forgotten, and the rest stays.
pub remove-IsTrue :
    (name : Bytes) {cache : StatCache} {buffer buffer' stored stored' : Bytes → Option Bytes}
    → IsTrue cache buffer stored
    → ((k : Bytes) → k ≢ name → (buffer' k ≡ buffer k) × (stored' k ≡ stored k))
    → IsTrue (remove (slash ∷ name) cache) buffer' stored'
remove-IsTrue name {cache} {buffer} {buffer'} {stored} {stored'} h same = record {
  holds = λ c cs k.
      rw (view-remove (slash ∷ name) (c ∷ cs) cache)
        (go c cs k (split_path (slash ∷ name)) (object-split_path name c cs k));
}
  where
    go :
        (c : Bytes) (cs : List Bytes)
        → All IsComponent (c ∷ cs)
        → (p : List Bytes) → (name ≡ c ++ path_of cs → same_path p (c ∷ cs) ≡ true)
        → IsTrueOf
            (if is_empty p || not (same_path p (c ∷ cs)) then view cache (c ∷ cs) else none)
            (buffer' (c ++ path_of cs))
            (stored' (c ++ path_of cs))
    go c cs k p key = elim (Bool-cases (same_path p (c ∷ cs))) [
      | inl e ↦ rw (same_path-eq p (c ∷ cs) e, same_path_refl (c ∷ cs)) tt
      | inr e ↦
          let q = same (c ++ path_of cs) (λ n. absurd (false≢true (sym e ∙ key (sym n)))) in
          rw (e, or-true (is_empty p))
            (IsTrueOf-agrees (view cache (c ∷ cs)) (h.holds c cs k) (λ b. (sym q.0 ∙ b, q.1)))
    ]
