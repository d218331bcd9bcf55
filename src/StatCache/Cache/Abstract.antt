-- ===== src/StatCache/Cache/Abstract.antt =====
-- The `StatCache` of src/stat_cache.cpp without its representation.
use gcscfuse.StatCache.Cache.History.{
  change-IsValid, view-cache_after, timeout-cache_after, table, timeout, cache_after, Change,
  change, limit, effect, view-change, timeout-change, within, within-fresh,
}
use gcscfuse.Base.{
  refl, ℕ, ◌≡◌, ◌∙◌, ap, sym, Bool, List, [], ◌∷◌, ◌++◌, ◌&&◌, Option, some, inl, inr, Bool-cases,
}
use native.Mathlib.Nat.{ℕ_set}
use mathlib.Core.Quot
use mathlib.Core.Quot.{Quot, Quot-set}
use gcscfuse.StatCache.Cache.Invariant.{init-IsValid, IsValid}
use gcscfuse.StatCache.Cache.{init, StatCache, get_stat, exists, is_directory, list_directory}
use gcscfuse.Base.Bytes.{Bytes}
use gcscfuse.StatCache.Cache.Listing.{list_directory-view, IsAscending-ext}
use gcscfuse.StatCache.Cache.Stat.{get_stat-view, exists-view, is_dir, is_some}
use gcscfuse.StatCache.Cache.View.{view}
use gcscfuse.StatCache.Path.{is_root, split_path}
use gcscfuse.StatCache.Trie.{StatInfo}

-- Two caches have the same timeout and the same metadata for every path.
abbrev pub Agrees : StatCache → StatCache → Type 0
Agrees c d = (c.cache_timeout ≡ d.cache_timeout) × ((q : List Bytes) → view c q ≡ view d q)

pub change-Agrees :
    (x : Change) (c d : StatCache)
    → IsValid c
    → IsValid d
    → Agrees c d
    → Agrees (change x c) (change x d)
change-Agrees x c d v w h = (
  timeout-change x c ∙ ap (limit x) h.0 ∙ sym (timeout-change x d),
  λ q. view-change x q v ∙ ap (effect x q) (h.1 q) ∙ sym (view-change x q w),
)

-- What a cache answers to all of its queries.
pub record Answers : Type 0 where
  pub stat : Option StatInfo
  pub is_recorded : Bool
  pub is_recorded_directory : Bool
  pub entries : List Bytes

abbrev pub answers : ℕ → Bytes → StatCache → Answers
answers now path c = record {
  stat = get_stat now path c;
  is_recorded = exists path c;
  is_recorded_directory = is_directory path c;
  entries = list_directory path c;
}

get_stat-Agrees :
    (now : ℕ) (path : Bytes) (c d : StatCache)
    → IsValid c
    → IsValid d
    → Agrees c d
    → get_stat now path c ≡ get_stat now path d
unfolding get_stat
get_stat-Agrees now path c d v w h = elim (Bool-cases (is_root path)) [
  | inl e ↦ rw (e, get_stat) (ap some (v.root_info_kept ∙ sym w.root_info_kept))
  | inr e ↦
      get_stat-view now path c e
      ∙ within-fresh now c _
      ∙ ap (λ t. within now t (view c (split_path path))) h.0
      ∙ ap (within now d.cache_timeout) (h.1 (split_path path))
      ∙ sym (within-fresh now d _)
      ∙ sym (get_stat-view now path d e)
]

list_directory-Agrees :
    (path : Bytes) (c d : StatCache)
    → IsValid c
    → IsValid d
    → Agrees c d
    → list_directory path c ≡ list_directory path d
list_directory-Agrees path c d v w h =
    IsAscending-ext (list_directory path c) (list_directory path d)
      (list_directory-view path [] v).1 (list_directory-view path [] w).1
      (λ name.
        (list_directory-view path name v).0
        ∙ ap (λ o. is_dir o && is_some (view c (split_path path ++ name ∷ [])))
            (h.1 (split_path path))
        ∙ ap (λ o. is_dir (view d (split_path path)) && is_some o)
            (h.1 (split_path path ++ name ∷ []))
        ∙ sym (list_directory-view path name w).0)

answers-Agrees :
    (now : ℕ) (path : Bytes) (c d : StatCache)
    → IsValid c
    → IsValid d
    → Agrees c d
    → answers now path c ≡ answers now path d
answers-Agrees now path c d v w h i = record {
  stat = get_stat-Agrees now path c d v w h i;
  is_recorded =
      ((exists-view path v).0 ∙ ap is_some (h.1 (split_path path)) ∙ sym (exists-view path w).0) i;
  is_recorded_directory =
      ((exists-view path v).1 ∙ ap is_dir (h.1 (split_path path)) ∙ sym (exists-view path w).1) i;
  entries = list_directory-Agrees path c d v w h i;
}

-- The well-formed caches, and what is left of one when its representation is forgotten.
abbrev ValidCache : Type 0
ValidCache = (c : StatCache) × IsValid c

abbrev AbstractCache : Type 0
AbstractCache = Quot {α = ValidCache} (λ c d. Agrees c.0 d.0)

StatInfo-set : IsSet StatInfo
StatInfo-set = hlevel ℕ_set

Answers-set : IsSet Answers
Answers-set = hlevel (ℕ_set, StatInfo-set)

-- The operations and the queries of a cache respect what is forgotten.
unfoldable apply : Change → AbstractCache → AbstractCache
apply x =
    Quot.lift Quot-set (λ c. Quot.mk (change x c.0, change-IsValid x c.1))
      (λ c d h. Quot.sound (change-Agrees x c.0 d.0 c.1 d.1 h))

unfoldable answered : ℕ → Bytes → AbstractCache → Answers
answered now path =
    Quot.lift Answers-set (λ c. answers now path c.0)
      (λ c d h. answers-Agrees now path c.0 d.0 c.1 d.1 h)

abbrev applied : List Change → AbstractCache → AbstractCache
applied [] a = a
applied (x ∷ earlier) a = apply x (applied earlier a)

-- The abstract cache after a sequence of operations on a new one.
abbrev initial : AbstractCache
initial = Quot.mk (init, init-IsValid)

applied-mk :
    (xs : List Change)
    → (v : IsValid (cache_after xs)) × (applied xs initial ≡ Quot.mk (cache_after xs, v))
unfolding apply
applied-mk [] = (init-IsValid, refl)
applied-mk (x ∷ xs) = let (v, e) = applied-mk xs in (change-IsValid x v, ap (apply x) e)

tables-eq :
    (xs ys : List Change)
    → timeout xs ≡ timeout ys
    → ((q : List Bytes) → table xs q ≡ table ys q)
    → Agrees (cache_after xs) (cache_after ys)
tables-eq xs ys e h = (
  timeout-cache_after xs ∙ e ∙ sym (timeout-cache_after ys),
  λ q. view-cache_after xs q ∙ h q ∙ sym (view-cache_after ys q),
)

applied-eq :
    (xs ys : List Change)
    → timeout xs ≡ timeout ys
    → ((q : List Bytes) → table xs q ≡ table ys q)
    → applied xs initial ≡ applied ys initial
applied-eq xs ys e h = (applied-mk xs).1 ∙ Quot.sound (tables-eq xs ys e h) ∙ sym (applied-mk ys).1

-- What the abstract cache answers is what the cache answers.
answered-applied :
    (xs : List Change) (now : ℕ) (path : Bytes)
    → answered now path (applied xs initial) ≡ answers now path (cache_after xs)
unfolding answered
answered-applied xs now path = ap (answered now path) (applied-mk xs).1

applied-append :
    (later xs : List Change) (a : AbstractCache)
    → applied (later ++ xs) a ≡ applied later (applied xs a)
applied-append [] xs a = refl
applied-append (x ∷ later) xs a = ap (apply x) (applied-append later xs a)

-- Two sequences of operations that make the same table and set the same timeout leave caches that
-- no further operations tell apart: after them every query has the same answer at any time.
pub answers-table :
    (xs ys later : List Change) (now : ℕ) (path : Bytes)
    → timeout xs ≡ timeout ys
    → ((q : List Bytes) → table xs q ≡ table ys q)
    → answers now path (cache_after (later ++ xs)) ≡ answers now path (cache_after (later ++ ys))
answers-table xs ys later now path e h =
    sym (answered-applied (later ++ xs) now path)
    ∙ ap (answered now path) (
        applied-append later xs initial
        ∙ ap (applied later) (applied-eq xs ys e h)
        ∙ sym (applied-append later ys initial))
    ∙ answered-applied (later ++ ys) now path
