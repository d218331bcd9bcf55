-- ===== src/StatCache/Cache/Listing.antt =====
-- `listDirectory` of src/stat_cache.cpp against the abstract view.
use gcscfuse.Base.{
  sym, ap, ◌∙◌, ◌≡◌, refl, true, false, ◌&&◌, List, [], ◌∷◌, ◌++◌, Option, none, some, Bool, All,
  arith, Bool-cases, Option-cases, inl, inr,
}
use mathlib.Core.Path.{subst}
use gcscfuse.Base.Bytes.{
  Bytes, same_refl, before_trans, same, same-eq, before, before_irrefl, contains,
}
use gcscfuse.StatCache.Cache.{StatCache, list_directory, entries_of}
use gcscfuse.StatCache.Cache.Invariant.{IsValid}
use gcscfuse.StatCache.Cache.Stat.{is_some, is_dir}
use gcscfuse.StatCache.Cache.View.{view, find_node-IsWf}
use gcscfuse.StatCache.Path.{split_path}
use gcscfuse.StatCache.Trie.{
  StatInfo, TrieNode, Children, node, nil, child, exists_of, find_child, find_node,
}
use gcscfuse.StatCache.Trie.Lookup.{info_at, shown_node, find_node-info_at}
use gcscfuse.StatCache.Trie.WellFormed.{IsSound, IsWf, AreWf, Above, find_child-IsWf}

-- In the strict key order, so that no name stands twice.
abbrev pub IsAscending : List Bytes → Type 0
IsAscending [] = Unit
IsAscending (x ∷ xs) = All (λ y. before x y ≡ true) xs × IsAscending xs

Above-entries_of :
    (b : Bytes) (ch : Children) → Above b ch → All (λ y. before b y ≡ true) (entries_of ch)
unfolding entries_of
Above-entries_of b nil w = tt
Above-entries_of b (child c n rest) w = elim (Bool-cases (exists_of n)) [
  | inl e ↦ rw e (w.0, Above-entries_of b rest w.1)
  | inr e ↦ rw e (Above-entries_of b rest w.1)
]

entries_of-IsAscending : (ch : Children) → AreWf ch → IsAscending (entries_of ch)
unfolding entries_of IsWf
entries_of-IsAscending nil w = tt
entries_of-IsAscending (child c n rest) w = elim (Bool-cases (exists_of n)) [
  | inl e ↦ rw e (Above-entries_of c rest w.3, entries_of-IsAscending rest w.2)
  | inr e ↦ rw e (entries_of-IsAscending rest w.2)
]

contains-behind :
    (b : Bytes) (xs : List Bytes) → All (λ y. before b y ≡ true) xs → contains b xs ≡ false
unfolding contains
contains-behind b [] h = refl
contains-behind b (x ∷ xs) h = elim (Bool-cases (same x b)) [
  | inl e ↦ absurd (ground (arith, h.0, same-eq x b e, before_irrefl b))
  | inr e ↦ rw e (contains-behind b xs h.1)
]

abbrev is_there : Option TrieNode → Bool
is_there none = false
is_there (some n) = exists_of n

contains-entries_of :
    (name : Bytes) (ch : Children)
    → AreWf ch
    → contains name (entries_of ch) ≡ is_there (find_child name ch)
unfolding entries_of IsWf find_child contains
contains-entries_of name nil w = refl
contains-entries_of name (child c n rest) w = elim (Bool-cases (same c name)) [
  | inl e ↦
      let none_behind = contains-behind c (entries_of rest) (Above-entries_of c rest w.3) in
      ground (arith, none_behind, same-eq c name e)
  | inr e ↦ ground (arith, contains-entries_of name rest w.2)
]

there-shown :
    (o : Option TrieNode)
    → ((n : TrieNode) → o ≡ some n → IsWf n)
    → is_there o ≡ is_some (shown_node o)
unfolding IsWf
there-shown none w = refl
there-shown (some (node ch info e)) w =
    let s : IsSound info e = (w (node ch info e) refl).0 in ground arith

-- The walk to a child goes through its directory.
info_at-child :
    (p : List Bytes) (name : Bytes) (n : TrieNode) {ch : Children} {info : StatInfo} {e : Bool}
    → find_node p n ≡ some (node ch info e)
    → info_at (p ++ name ∷ []) n ≡ shown_node (find_child name ch)
unfolding find_node info_at
info_at-child [] name (node ch0 info0 e0) {ch} {info} {e} h = ground arith
info_at-child (c ∷ p) name (node ch0 info0 e0) {ch} {info} {e} h =
    elim (Option-cases (find_child c ch0)) [
      | inl k ↦ ground arith
      | inr (m, k) ↦ ground (arith, info_at-child p name m {ch = ch} {info = info} {e = e})
    ]

-- `listDirectory` lists, in strict key order, exactly the names whose metadata the view has below
-- the path, if it has the path as a directory, fresh or expired; else nothing.
pub list_directory-view :
    (path name : Bytes) {c : StatCache}
    → IsValid c
    → (contains name (list_directory path c)
        ≡ (is_dir (view c (split_path path)) && is_some (view c (split_path path ++ name ∷ []))))
      × IsAscending (list_directory path c)
unfolding list_directory IsWf contains
list_directory-view path name {c} v = elim (Option-cases (find_node (split_path path) c.root)) [
  | inl k ↦ (ground (arith, find_node-info_at (split_path path) c.root), rw (k, list_directory) tt)
  | inr (node ch info e, k) ↦
      let w : IsWf (node ch info e) = find_node-IsWf (split_path path) c.root v.trie k in
      let s : IsSound info e = w.0 in
      let seen = find_node-info_at (split_path path) c.root in
      let below = info_at-child (split_path path) name c.root k in
      let members = contains-entries_of name ch w.1 in
      let shows = there-shown (find_child name ch) (λ n. find_child-IsWf name ch w.1) in
      elim (Bool-cases info.is_directory) [
        | inl d ↦ (
          rw (k, list_directory, d)
              (ground (arith, seen, below, members, shows, s.agrees, s.hidden)),
          rw (k, list_directory, d) (entries_of-IsAscending ch w.1),
        )
        | inr d ↦ (rw (k, list_directory, d) (ground (arith, seen)), rw (k, list_directory, d) tt)
      ]
]

contains-All :
    (P : Bytes → Type 0) (name : Bytes) (xs : List Bytes)
    → contains name xs ≡ true
    → All P xs
    → P name
unfolding contains
contains-All P name [] e h = absurd (ground arith)
contains-All P name (x ∷ xs) e (p, h) = elim (Bool-cases (same x name)) [
  | inl s ↦ subst P (same-eq x name s) p
  | inr s ↦ contains-All P name xs (ground arith) h
]

first_ext :
    (x y : Bytes) (xs ys : List Bytes)
    → IsAscending (x ∷ xs)
    → IsAscending (y ∷ ys)
    → contains x (y ∷ ys) ≡ true
    → contains y (x ∷ xs) ≡ true
    → x ≡ y
unfolding contains
first_ext x y xs ys a b h k = elim (Bool-cases (same x y)) [
  | inl e ↦ same-eq x y e
  | inr e ↦ elim (Bool-cases (same y x)) [
    | inl e' ↦ sym (same-eq y x e')
    | inr e' ↦
        let below : before y x ≡ true =
          contains-All (λ z. before y z ≡ true) x ys (ground arith) b.0 in
        let above : before x y ≡ true =
          contains-All (λ z. before x z ≡ true) y xs (ground arith) a.0 in
        absurd (ground (arith, before_trans x y x above below, before_irrefl x))
  ]
]

rest_ext :
    (x y name : Bytes) (xs ys : List Bytes)
    → x ≡ y
    → IsAscending (x ∷ xs)
    → IsAscending (y ∷ ys)
    → contains name (x ∷ xs) ≡ contains name (y ∷ ys)
    → contains name xs ≡ contains name ys
unfolding contains
rest_ext x y name xs ys e a b h =
    let q : same x name ≡ same y name = ap (λ z. same z name) e in
    elim (Bool-cases (same y name)) [
      | inr s ↦ ground arith
      | inl s ↦
          ap (λ z. contains z xs) (sym (same-eq x name (q ∙ s)))
          ∙ contains-behind x xs a.0
          ∙ sym (contains-behind y ys b.0)
          ∙ ap (λ z. contains z ys) (same-eq y name s)
    ]

-- Lists in strict key order that hold the same names are equal.
pub IsAscending-ext :
    (xs ys : List Bytes)
    → IsAscending xs
    → IsAscending ys
    → ((name : Bytes) → contains name xs ≡ contains name ys)
    → xs ≡ ys
IsAscending-ext [] [] a b h = refl
IsAscending-ext [] (y ∷ ys) a b h = absurd (unfold contains in ground (arith, h y, same_refl y))
IsAscending-ext (x ∷ xs) [] a b h = absurd (unfold contains in ground (arith, h x, same_refl x))
IsAscending-ext (x ∷ xs) (y ∷ ys) a b h =
    let e : x ≡ y =
      first_ext x y xs ys a b (unfold contains in ground (arith, h x, same_refl x))
        (unfold contains in ground (arith, h y, same_refl y)) in
    let rest : xs ≡ ys =
      IsAscending-ext xs ys a.1 b.1 (λ name. rest_ext x y name xs ys e a b (h name)) in
    ap (λ z. z ∷ xs) e ∙ ap (◌∷◌ y) rest
