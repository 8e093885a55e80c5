-- ===== src/Config/Filter.antt =====
-- pkg/config/filter.go: which files are left out. Globs are those of a library: `compile` makes one of
-- a pattern and `matches` tries it on a name; `walk` adds the files under a path to those found. `ToSlash` changes
-- nothing where `/` separates names.
pub mod Kept
mod Tests
use regal.Base.{
  ◌-◌, Bool, true, false, not, ◌&&◌, ◌||◌, List, [], ◌∷◌, ◌++◌, leb, if◌then◌else◌, length, take,
  drop, ◌==◌, contains, Text, codes, Outcome, ok, ◌>>=◌, ◌>>◌, wrap, text_eq, nat_eq,
}
use regal.Go.Strings.{has_prefix}

-- `strings.TrimPrefix` and `strings.HasSuffix`
unfoldable pub trim_prefix : Text → Text → Text
trim_prefix s p = if has_prefix s p then drop (length p) s else s

unfoldable pub has_suffix : Text → Text → Bool
has_suffix s p = leb (length p) (length s) && drop (length s - length p) s == p

-- `util.EnsureSuffix`
unfoldable pub ensure_suffix : Text → Text → Text
unfolding has_suffix
ensure_suffix s suf = if not (s == []) && not (has_suffix s suf) then s ++ suf else s

-- A slash inside the pattern ties it to the root; else it may stand in any directory.
unfoldable pub rooted : Text → Text
rooted pattern =
    let anywhere =
      if not (contains (take (length pattern - 1) pattern) b'/')
      then codes "**/" ++ pattern
      else pattern in
    trim_prefix anywhere (codes "/")

unfoldable pub without_prefix : Text → List Text
without_prefix pattern =
    if has_prefix pattern (codes "**/") then pattern ∷ drop 3 pattern ∷ [] else pattern ∷ []

unfoldable pub with_suffix : Text → List Text
with_suffix p =
    if has_suffix p (codes "/")
    then (p ++ codes "**") ∷ []
    else if not (has_suffix p (codes "**")) && not (has_suffix p (codes ".rego"))
    then p ∷ (p ++ codes "/**") ∷ []
    else p ∷ []

unfoldable pub with_suffixes : List Text → List Text
with_suffixes [] = []
with_suffixes (p ∷ ps) = with_suffix p ++ with_suffixes ps

module _ {G : Type 0} (compile : Text → Outcome G) (matches : G → Text → Bool) where
  unfoldable pub compile_all : List Text → Outcome (List G)
  compile_all [] = ok []
  compile_all (p ∷ ps) =
      let rest = compile_all ps in
      do g ← wrap (codes "failed to compile pattern " ++ p) (compile p); gs ← rest; ok (g ∷ gs)

  unfoldable pub compile_patterns : List Text → Outcome (List G)
  compile_patterns [] = ok []
  compile_patterns (pattern ∷ patterns) =
      let rest = compile_patterns patterns in
      if pattern == [] then rest else do
        gs ← compile_all (with_suffixes (without_prefix (rooted pattern)))
        later ← rest
        ok (gs ++ later)

  unfoldable pub exclude_file : G → Text → (path_prefix : Text) → Bool
  exclude_file pattern filename path_prefix =
      if path_prefix == []
      then matches pattern filename
      else matches pattern (trim_prefix (trim_prefix filename path_prefix) (codes "/"))

  unfoldable pub excluded : List G → Text → Text → Bool
  excluded [] f path_prefix = false
  excluded (g ∷ gs) f path_prefix =
      if exclude_file g f path_prefix then true else excluded gs f path_prefix

  -- The outer loop: a file that a pattern excludes is passed over.
  unfoldable pub keep_files : List G → Text → List Text → List Text
  keep_files patterns path_prefix [] = []
  keep_files patterns path_prefix (f ∷ fs) =
      let rest = keep_files patterns path_prefix fs in
      if excluded patterns f path_prefix then rest else f ∷ rest

  unfoldable pub filter_paths : (policy_paths ignore : List Text) → Text → Outcome (List Text)
  filter_paths policy_paths ignore path_prefix = do
    patterns ← wrap (codes "failed to compile ignore patterns") (compile_patterns ignore)
    ok (keep_files patterns path_prefix policy_paths)

  module _ (walk : Text → List Text → Outcome (List Text)) where
    unfoldable pub walk_all : List Text → List Text → Outcome (List Text)
    walk_all [] filtered = ok filtered
    walk_all (path ∷ paths) filtered = do
      filtered' ← wrap (codes "failed to filter paths:") (walk path filtered)
      walk_all paths filtered'

    abbrev is_stdin : List Text → Bool
    is_stdin (p ∷ []) = p == codes "-"
    is_stdin _ = false

    abbrev is_empty : List Text → Bool
    is_empty [] = true
    is_empty (_ ∷ _) = false

    unfoldable pub filter_ignored_paths :
        (paths ignore : List Text) → (check_exists : Bool) → Text → Outcome (List Text)
    filter_ignored_paths paths ignore check_exists path_prefix =
        if is_empty paths || is_stdin paths || (not check_exists && is_empty ignore)
        then ok paths
        else do
          found ← (if check_exists then walk_all paths [] else ok paths)
          filter_paths found ignore (ensure_suffix path_prefix (codes "/"))
