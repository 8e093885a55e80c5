-- ===== src/Fixer/Fixes/Directory.antt =====
-- pkg/fixer/fixes/directorypackagemismatch.go: a file is moved to the directory that its package
-- names. The parser is a parameter: the parts of the package's path behind `data`, as it prints them.
pub mod Away
use regal.Base.{
  ℕ, Bool, true, false, not, ◌&&◌, ◌||◌, Option, none, some, List, [], ◌∷◌, ◌++◌, leb,
  if◌then◌else◌, ◌==◌, Text, codes, message, Outcome, ok, err, panicked, ◌>>=◌, ◌>>◌, text_eq,
  nat_eq,
}
use regal.Base.Dict.{lookup}
use regal.Go.Paths.{clean, join_path, dir, base, trim_suffix}
use regal.Fixer.Fixes.{
  Config, Rule, Extra, boolean, other, RuntimeOptions, FixCandidate, FixResult, Rename,
}

abbrev pub name : Text
name = codes "directory-package-mismatch"

-- `rule.Extra["exclude-test-suffix"].(bool)`
abbrev extra_or_true : Option Extra → Bool
extra_or_true (some (boolean b)) = b
extra_or_true (some other) = true
extra_or_true none = true

unfoldable pub should_exclude_test_suffix : Option Config → Bool
should_exclude_test_suffix none = true
should_exclude_test_suffix (some config) = elim (lookup (codes "idiomatic") config.rules) [
  | none ↦ true
  | some category ↦ elim (lookup name category) [
    | none ↦ true
    | some rule ↦ extra_or_true (lookup (codes "exclude-test-suffix") rule.extra)
  ]
]

abbrev is_letter : ℕ → Bool
is_letter c = (leb b'a' c && leb c b'z') || (leb b'A' c && leb c b'Z') || c == b'_'

abbrev all_name_bytes : Text → Bool
all_name_bytes [] = true
all_name_bytes (c ∷ s) =
    (is_letter c || (leb b'0' c && leb c b'9') || c == b'-') && all_name_bytes s

-- `regularName`
unfoldable pub is_regular_name : Text → Bool
is_regular_name [] = false
is_regular_name (c ∷ s) = is_letter c && all_name_bytes s

trim_left : Text → Text
trim_left [] = []
trim_left (c ∷ s) = if c == b'"' then trim_left s else c ∷ s

trim_right : Text → Text
trim_right [] = []
trim_right (c ∷ s) = let rest = trim_right s in if rest == [] && c == b'"' then [] else c ∷ rest

abbrev is_last : List Text → Bool
is_last [] = true
is_last (_ ∷ _) = false

-- The loop over the parts; the last one may lose its suffix.
unfoldable pub package_parts : Bool → List Text → Outcome (List Text)
unfolding trim_left trim_right
package_parts exclude [] = ok []
package_parts exclude (part ∷ parts) =
    let text = trim_right (trim_left part) in
    let rest = package_parts exclude parts in
    if not (is_regular_name text)
    then err
        (message (codes "can only handle [a-zA-Z0-9_-] characters in package name, got: " ++ text))
    else do
      later ← rest
      ok ((if is_last parts && exclude then trim_suffix text (codes "_test") else text) ∷ later)

module _ (package_path : FixCandidate → Outcome (List Text)) where
  unfoldable pub get_package_path_directory : FixCandidate → Option Config → Outcome Text
  get_package_path_directory fc config = do
    path ← package_path fc
    parts ← package_parts (should_exclude_test_suffix config) path
    ok (join_path parts)

  -- The new path of a file, and what is returned for it.
  unfoldable pub move_to : FixCandidate → RuntimeOptions → Text → Outcome (List FixResult)
  move_to fc opts pkg_path =
      let root_path = clean (if opts.base_dir == [] then dir fc.filename else opts.base_dir) in
      let new_path = join_path (root_path ∷ pkg_path ∷ base fc.filename ∷ []) in
      if new_path == fc.filename
      then ok []
      else ok (
          record {
            rename = some (record { from_path = fc.filename; to_path = new_path });
            title = name;
            root = root_path;
            contents = fc.contents;
          }
          ∷ [])

  -- Without options, the code dereferences nil.
  unfoldable pub fix : FixCandidate → Option RuntimeOptions → Outcome (List FixResult)
  fix fc none = panicked
  fix fc (some opts) = do
    pkg_path ← get_package_path_directory fc opts.config
    move_to fc opts pkg_path
