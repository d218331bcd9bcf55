-- ===== src/StatCache/Path.antt =====
-- `StatCache::splitPath`, and the path text that a list of components has.
pub mod RoundTrip
use gcscfuse.Base.{ℕ, ◌==◌, Bool, true, false, List, [], ◌∷◌, ◌++◌, ◌||◌, is_empty, if◌then◌else◌}
use gcscfuse.Base.Bytes.{Bytes, same, slash}

-- `path.empty() || path == "/"`
unfoldable pub is_root : Bytes → Bool
unfolding same
is_root path = is_empty path || same path (slash ∷ [])

-- `if (s[0] == '/') s = s.substr(1)`
unfoldable pub strip_leading : Bytes → Bytes
strip_leading [] = []
strip_leading (c ∷ s) = if c == slash then s else c ∷ s

-- `if (!s.empty() && s.back() == '/') s = s.substr(0, s.length() - 1)`
unfoldable pub strip_trailing : Bytes → Bytes
strip_trailing [] = []
strip_trailing (c ∷ []) = if c == slash then [] else c ∷ []
strip_trailing (c ∷ d ∷ s) = c ∷ strip_trailing (d ∷ s)

-- `if (!component.empty()) components.push_back(component)`
unfoldable pub emit : Bytes → List Bytes → List Bytes
emit [] rest = rest
emit (c ∷ s) rest = (c ∷ s) ∷ rest

-- The `std::getline(ss, component, '/')` loop; `component` holds what was read since the last
-- slash.
unfoldable pub get_lines : Bytes → Bytes → List Bytes
unfolding emit
get_lines component [] = emit component []
get_lines component (c ∷ s) =
    let at_slash = emit component (get_lines [] s) in
    let within = get_lines (component ++ c ∷ []) s in if c == slash then at_slash else within

unfoldable pub split_path : Bytes → List Bytes
unfolding is_root strip_leading strip_trailing get_lines
split_path path = if is_root path then [] else get_lines [] (strip_trailing (strip_leading path))

-- "/a/b" for the components "a" and "b".
unfoldable pub path_of : List Bytes → Bytes
path_of [] = []
path_of (c ∷ cs) = slash ∷ c ++ path_of cs
