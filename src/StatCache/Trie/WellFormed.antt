-- ===== src/StatCache/Trie/WellFormed.antt =====
-- The invariant of the trie: at every node the flags agree and the mode is the one of its kind,
-- no child is a dead leaf, and the children stand in the key order.
use gcscfuse.Base.{
  Option, Bool, true, false, List, [], ◌∷◌, some, if◌then◌else◌, ◌≡◌, refl, arith, Bool-cases,
  Option-cases, inl, inr,
}
use mathlib.Core.Bool.{false≢true}
use mathlib.Core.Path.{subst}
use gcscfuse.Base.Bytes.{Bytes, same, same-eq, before, before_trans, before_total}
use gcscfuse.StatCache.Trie.{
  StatInfo, no_info, TrieNode, Children, node, nil, child, empty_node, find_child, set_child,
  erase_child, is_nil, node_or_new, update_node, is_prunable, remove_at, dir_mode, file_mode,
}

-- A node is there exactly when its metadata was loaded, and then its mode fits its kind; without
-- metadata it is no directory.
pub record IsSound (info : StatInfo) (e : Bool) : Type 0 where
  pub agrees : e ≡ info.metadata_loaded
  pub kind :
      info.metadata_loaded ≡ true → info.mode ≡ (if info.is_directory then dir_mode else file_mode)
  pub hidden : info.metadata_loaded ≡ false → info.is_directory ≡ false

-- Every name among the children is behind this one.
abbrev pub Above : Bytes → Children → Type 0
Above b nil = Unit
Above b (child c n rest) = (before b c ≡ true) × Above b rest

unfoldable mutual
  pub IsWf : TrieNode → Type 0
  IsWf (node ch info e) = IsSound info e × AreWf ch

  pub AreWf : Children → Type 0
  AreWf nil = Unit
  AreWf (child c n rest) = (is_prunable n ≡ false) × IsWf n × AreWf rest × Above c rest

pub empty_node-IsWf : IsWf empty_node
unfolding IsWf
empty_node-IsWf =
    (record { agrees = refl; kind = λ h. absurd (false≢true h); hidden = λ h. refl }, tt)

pub find_child-IsWf :
    (c : Bytes) (ch : Children) {n : TrieNode} → AreWf ch → find_child c ch ≡ some n → IsWf n
unfolding IsWf find_child
find_child-IsWf c nil w h = ground arith
find_child-IsWf c (child d m rest) {n} w h = elim (Bool-cases (same d c)) [
  | inl e ↦
      let found : ◌≡◌ {A = Option TrieNode} (some m) (some n) = rw e at h in subst IsWf (cc) w.1
  | inr e ↦ find_child-IsWf c rest w.2 (rw e at h)
]

Above-trans : (a b : Bytes) (ch : Children) → before a b ≡ true → Above b ch → Above a ch
Above-trans a b nil h w = tt
Above-trans a b (child c n rest) h w = (before_trans a b c h w.0, Above-trans a b rest h w.1)

Above-set_child :
    (b c : Bytes) (n : TrieNode) (ch : Children)
    → before b c ≡ true
    → Above b ch
    → Above b (set_child c n ch)
unfolding set_child
Above-set_child b c n nil h w = (h, tt)
Above-set_child b c n (child d m rest) h w = elim (Bool-cases (same d c)) [
  | inl e ↦ rw e (h, w.1)
  | inr e ↦ rw e (elim (Bool-cases (before c d)) [
    | inl f ↦ rw f (h, w)
    | inr f ↦ rw f (w.0, Above-set_child b c n rest h w.1)
  ])
]

Above-erase_child : (b c : Bytes) (ch : Children) → Above b ch → Above b (erase_child c ch)
unfolding erase_child
Above-erase_child b c nil w = tt
Above-erase_child b c (child d m rest) w = elim (Bool-cases (same d c)) [
  | inl e ↦ rw e (Above-erase_child b c rest w.1)
  | inr e ↦ rw e (w.0, Above-erase_child b c rest w.1)
]

set_child-AreWf :
    (c : Bytes) (n : TrieNode) (ch : Children)
    → AreWf ch
    → is_prunable n ≡ false
    → IsWf n
    → AreWf (set_child c n ch)
unfolding IsWf set_child
set_child-AreWf c n nil w l h = (l, h, tt, tt)
set_child-AreWf c n (child d m rest) w l h = elim (Bool-cases (same d c)) [
  | inl e ↦ rw e (l, h, w.2, subst (λ t. Above t rest) (same-eq d c e) w.3)
  | inr e ↦ rw e (elim (Bool-cases (before c d)) [
    | inl b ↦ rw b (l, h, w, (b, Above-trans c d rest b w.3))
    | inr b ↦ rw b (
      w.0,
      w.1,
      set_child-AreWf c n rest w.2 l h,
      Above-set_child d c n rest (before_total d c e b) w.3,
    )
  ])
]

erase_child-AreWf : (c : Bytes) (ch : Children) → AreWf ch → AreWf (erase_child c ch)
unfolding IsWf erase_child
erase_child-AreWf c nil w = tt
erase_child-AreWf c (child d m rest) w = elim (Bool-cases (same d c)) [
  | inl e ↦ rw e (erase_child-AreWf c rest w.2)
  | inr e ↦ rw e (w.0, w.1, erase_child-AreWf c rest w.2, Above-erase_child d c rest w.3)
]

is_nil-set_child : (c : Bytes) (n : TrieNode) (ch : Children) → is_nil (set_child c n ch) ≡ false
unfolding set_child
is_nil-set_child c n nil = refl
is_nil-set_child c n (child d m rest) = ground arith

-- What a write leaves is there.
pub record IsWrite (write : StatInfo → Bool → StatInfo × Bool) : Type 0 where
  pub sound :
      (info : StatInfo) (e : Bool) → IsSound info e → IsSound (write info e).0 (write info e).1
  pub there : (info : StatInfo) (e : Bool) → IsSound info e → (write info e).1 ≡ true

module _ {write : StatInfo → Bool → StatInfo × Bool} (k : IsWrite write) where
  node_or_new-IsWf : (c : Bytes) (ch : Children) → AreWf ch → IsWf (node_or_new (find_child c ch))
  node_or_new-IsWf c ch w = elim (Option-cases (find_child c ch)) [
    | inl e ↦ rw e empty_node-IsWf
    | inr (m, e) ↦ rw e (find_child-IsWf c ch w e)
  ]

  pub update_node-not_prunable :
      (p : List Bytes) (n : TrieNode) → IsWf n → is_prunable (update_node write p n) ≡ false
  unfolding IsWf update_node
  update_node-not_prunable [] (node ch info e) w = ground (arith, k.there info e w.0)
  update_node-not_prunable (c ∷ p) (node ch info e) w = rw is_nil-set_child refl

  pub update_node-IsWf : (p : List Bytes) (n : TrieNode) → IsWf n → IsWf (update_node write p n)
  unfolding IsWf update_node
  update_node-IsWf [] (node ch info e) w = (k.sound info e w.0, w.1)
  update_node-IsWf (c ∷ p) (node ch info e) w =
      let old = node_or_new-IsWf c ch w.1 in
      (
        w.0,
        set_child-AreWf c _ ch w.1 (update_node-not_prunable p _ old) (update_node-IsWf p _ old),
      )

no_info-IsSound : IsSound no_info false
no_info-IsSound = record { agrees = refl; kind = λ h. absurd (false≢true h); hidden = λ h. refl }

pub remove_at-IsWf : (p : List Bytes) (n : TrieNode) → IsWf n → IsWf (remove_at p n)
unfolding IsWf remove_at
remove_at-IsWf [] (node ch info e) w = (no_info-IsSound, w.1)
remove_at-IsWf (c ∷ p) (node ch info e) w = elim (Option-cases (find_child c ch)) [
  | inl f ↦ rw (f, remove_at) w
  | inr (m, f) ↦
      let below = remove_at-IsWf p m (find_child-IsWf c ch w.1 f) in
      elim (Bool-cases (is_prunable (remove_at p m))) [
        | inl b ↦ rw (f, remove_at, b) (w.0, erase_child-AreWf c ch w.1)
        | inr b ↦ rw (f, remove_at, b) (w.0, set_child-AreWf c (remove_at p m) ch w.1 b below)
      ]
]
