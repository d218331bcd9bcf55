-- ===== src/Fs/Lookups/Entries.antt =====
-- The names that `readdir` of src/gcs_fs.cpp hands to its filler.
use gcscfuse.Base.Bytes.{codes, Bytes, same, same_iff, contains, slash}
use gcscfuse.Fs.State.{object_of, dir_prefix, Gcsfs, ends_with_slash}
use gcscfuse.Fs.Lookups.{readdir, read_entries, up_to_slash, add_entry, read_entry}
use gcscfuse.Base.Int.{pos}
use gcscfuse.Base.{
  ltb, ◌≡◌, ◌==◌, refl, false, ◌||◌, ℕ, List, [], ◌∷◌, ◌++◌, Option, none, some, Bool, All, arith,
  Bool-cases, inl, inr, if◌then◌else◌, ◌∙◌, is_empty, length, drop,
}
use gcscfuse.StatCache.Path.RoundTrip.{IsComponent, NoSlash}
use gcscfuse.Gcs.Client.{ObjectMetadata}
use gcscfuse.Gcs.Client
use gcscfuse.Gcs.Sdk.{StorageClient}

-- The entry that an object is listed as, by the rest of its name behind the directory: up to the
-- first slash, unless the rest is empty, begins with a slash or ends with one.
abbrev pub entry_of : Bytes → Option Bytes
entry_of relative =
    if is_empty relative || ends_with_slash relative
    then none
    else if is_empty (up_to_slash relative).0
    then none
    else some (up_to_slash relative).0

abbrev pub is_name : Bytes → Option Bytes → Bool
is_name name none = false
is_name name (some e) = same e name

-- Some object is listed as this entry.
abbrev pub gives : Bytes → Bytes → List ObjectMetadata → Bool
gives name dir_path [] = false
gives name dir_path (obj_meta ∷ rest) =
    is_name name (entry_of (drop (length dir_path) obj_meta.name)) || gives name dir_path rest

abbrev pub AreDistinct : List Bytes → Type 0
AreDistinct [] = Unit
AreDistinct (x ∷ xs) = (contains x xs ≡ false) × AreDistinct xs

contains-snoc :
    (name e : Bytes) (xs : List Bytes)
    → contains name (xs ++ e ∷ []) ≡ (contains name xs || same e name)
unfolding contains
contains-snoc name e [] = ground arith
contains-snoc name e (x ∷ xs) = ground (arith, contains-snoc name e xs)

AreDistinct-snoc :
    (e : Bytes) (xs : List Bytes)
    → AreDistinct xs
    → contains e xs ≡ false
    → AreDistinct (xs ++ e ∷ [])
unfolding contains
AreDistinct-snoc e [] d n = (refl, tt)
AreDistinct-snoc e (x ∷ xs) d n = (
  ground (arith, contains-snoc x e xs, same_iff x e, same_iff e x),
  AreDistinct-snoc e xs d.1 (ground arith),
)

All-snoc {κ} :
    (P : Bytes → Type κ) (e : Bytes) (xs : List Bytes) → All P xs → P e → All P (xs ++ e ∷ [])
All-snoc P e [] h k = (k, tt)
All-snoc P e (x ∷ xs) h k = (h.0, All-snoc P e xs h.1 k)

pub up_to_slash-NoSlash : (s : Bytes) → NoSlash (up_to_slash s).0
unfolding up_to_slash
up_to_slash-NoSlash [] = tt
up_to_slash-NoSlash (c ∷ s) = elim (Bool-cases (c == slash)) [
  | inl e ↦ rw e tt
  | inr e ↦ rw e (e, up_to_slash-NoSlash s)
]

-- The entries after one object.
abbrev with_entry : Option Bytes → List Bytes → List Bytes
with_entry none entries = entries
with_entry (some e) entries = if contains e entries then entries else entries ++ e ∷ []

contains-with_entry :
    (name : Bytes) (o : Option Bytes) (xs : List Bytes)
    → contains name (with_entry o xs) ≡ (contains name xs || is_name name o)
contains-with_entry name none xs = ground arith
contains-with_entry name (some e) xs = ground (arith, contains-snoc name e xs, same_iff e name)

contains-after :
    {next : List Bytes} (name : Bytes) (o : Option Bytes) (xs : List Bytes) (more : Bool)
    → next ≡ with_entry o xs
    → (contains name next || more) ≡ (contains name xs || (is_name name o || more))
contains-after name o xs more e = rw e (ground (arith, contains-with_entry name o xs))

-- Distinct, and nonempty without a slash.
abbrev pub AreNames : List Bytes → Type 0
AreNames xs = AreDistinct xs × All IsComponent xs

with_entry-AreNames :
    (relative : Bytes) (xs : List Bytes)
    → AreNames xs
    → AreNames (with_entry (entry_of relative) xs)
with_entry-AreNames relative xs h =
    elim (Bool-cases (is_empty relative || ends_with_slash relative)) [
      | inl e ↦ rw e h
      | inr e ↦ rw e (elim (Bool-cases (is_empty (up_to_slash relative).0)) [
        | inl f ↦ rw f h
        | inr f ↦ rw f (elim (Bool-cases (contains (up_to_slash relative).0 xs)) [
          | inl g ↦ rw g h
          | inr g ↦ rw g (
            AreDistinct-snoc (up_to_slash relative).0 xs h.0 g,
            All-snoc IsComponent (up_to_slash relative).0 xs h.1 (f, up_to_slash-NoSlash relative),
          )
        ])
      ])
    ]

module _ (client : StorageClient) where
  -- What the client lists for a directory.
  abbrev pub listed : Bytes → Gcsfs client → List ObjectMetadata
  listed path fs =
      Client.list_objects client fs.bucket_name (dir_prefix (object_of path)) (slash ∷ []) 0
        fs.cloud

  read_entry-entries :
      (now : ℕ) (path : Bytes) (obj_meta : ObjectMetadata) (relative : Bytes) (entries : List Bytes)
      (fs : Gcsfs client)
      → (read_entry client now path obj_meta relative entries fs).0
        ≡ with_entry (entry_of relative) entries
  unfolding read_entry add_entry
  read_entry-entries now path obj_meta relative entries fs = ground arith

  read_entries-entries :
      (now : ℕ) (path dir_path : Bytes) (objects : List ObjectMetadata) (entries : List Bytes)
      (fs : Gcsfs client) (name : Bytes)
      → All (λ (o : ObjectMetadata). ltb (length o.name) (length dir_path) ≡ false) objects
      → AreNames entries
      → (let (result, entries', fs') = read_entries client now path dir_path objects entries fs in
          (result ≡ pos 0)
          × (contains name entries' ≡ (contains name entries || gives name dir_path objects))
          × AreNames entries')
  unfolding read_entries
  read_entries-entries now path dir_path [] entries fs name long h = (refl, ground arith, h)
  read_entries-entries now path dir_path (obj_meta ∷ rest) entries fs name long h =
      let relative : Bytes = drop (length dir_path) obj_meta.name in
      let next = read_entry client now path obj_meta relative entries fs in
      let e : next.0 ≡ with_entry (entry_of relative) entries =
        read_entry-entries now path obj_meta relative entries fs in
      let ih =
        read_entries-entries now path dir_path rest next.0 next.1 name long.1
          (rw e (with_entry-AreNames relative entries h)) in
      rw (long.0) (
        ih.0,
        ih.1 ∙ contains-after name (entry_of relative) entries (gives name dir_path rest) e,
        ih.2,
      )

  -- When every listed object's name is at least as long as the directory's prefix, `readdir` returns 0; it
  -- hands `.` and `..` to the filler and then entries that are distinct, nonempty and without a
  -- slash; and a name is among these entries exactly when some listed object has it, behind the
  -- prefix, as the part up to the first slash, in a rest that does not end with a slash.
  pub readdir-entries :
      (now : ℕ) (path name : Bytes) (fs : Gcsfs client)
      → All
          (λ (o : ObjectMetadata).
            ltb (length o.name) (length (dir_prefix (object_of path))) ≡ false)
          (listed path fs)
      → (let (result, names, fs') = readdir client now path fs in
          (result ≡ pos 0)
          × (names ≡ codes "." ∷ codes ".." ∷ drop 2 names)
          × (contains name (drop 2 names)
              ≡ gives name (dir_prefix (object_of path)) (listed path fs))
          × AreDistinct (drop 2 names)
          × All IsComponent (drop 2 names))
  unfolding readdir contains
  readdir-entries now path name fs long =
      let all =
        read_entries-entries now path (dir_prefix (object_of path)) (listed path fs) [] fs name long
          (tt, tt) in
      (all.0, refl, all.1, all.2.0, all.2.1)
