-- ===== src/Go/Paths.antt =====
-- `path/filepath` on Unix, as far as the code uses it, and the string functions that cut at the
-- last occurrence or at the end.
use mathlib.Core.Option
use mathlib.Core.List.{reverse}
use regal.Go.Strings.{split, join}
use regal.Base.{
  ℕ, ◌≡◌, refl, Bool, false, ◌&&◌, ◌||◌, Option, none, some, List, [], ◌∷◌, ◌++◌, if◌then◌else◌,
  ◌==◌, Text, codes, text_beq, text_eq, nat_eq,
}

-- What stands before and behind the last `sep`.
unfoldable pub cut_last : ℕ → Text → Option (Text × Text)
cut_last sep [] = none
cut_last sep (c ∷ s) = elim (cut_last sep s) [
  | some (before, after) ↦ some (c ∷ before, after)
  | none ↦ if c == sep then some ([], s) else none
]

-- `strings.CutSuffix`, with none where the suffix is not there
unfoldable pub cut_suffix : Text → Text → Option Text
cut_suffix [] suf = if suf == [] then some [] else none
cut_suffix (c ∷ s) suf =
    let rest = cut_suffix s suf in if c ∷ s == suf then some [] else Option.map (λ t. c ∷ t) rest

-- `strings.TrimSuffix`
unfoldable pub trim_suffix : Text → Text → Text
unfolding cut_suffix
trim_suffix s suf = elim (cut_suffix s suf) [ none ↦ s | some t ↦ t ]

-- `filepath.Split`
unfoldable pub split_path : Text → Text × Text
unfolding cut_last
split_path path = elim (cut_last b'/' path) [
  | none ↦ ([], path)
  | some (dir, file) ↦ (dir ++ b'/' ∷ [], file)
]

-- `filepath.Ext`
unfoldable pub ext : Text → Text
unfolding split_path
ext path = elim (cut_last b'.' (split_path path).1) [ none ↦ [] | some (_, e) ↦ b'.' ∷ e ]

-- `..` takes the element before it away, if there is one that is not `..` itself.
up : Bool → List Text → List Text
up rooted [] = if rooted then [] else codes ".." ∷ []
up rooted (top ∷ below) = if top == codes ".." then codes ".." ∷ top ∷ below else below

-- One element of a path, on the stack of those before it (the last one first).
push_element : Bool → List Text → Text → List Text
unfolding up
push_element rooted stack part =
    if part == [] || part == codes "."
    then stack
    else if part == codes ".."
    then up rooted stack
    else part ∷ stack

elements : Bool → List Text → List Text → List Text
unfolding push_element
elements rooted stack [] = stack
elements rooted stack (part ∷ parts) = elements rooted (push_element rooted stack part) parts

is_rooted : Text → Bool
is_rooted [] = false
is_rooted (c ∷ s) = c == b'/'

-- `filepath.Clean`
unfoldable pub clean : Text → Text
unfolding elements is_rooted
clean path =
    let rooted = is_rooted path in
    let tail = join (reverse (elements rooted [] (split path b'/'))) b'/' in
    if rooted then b'/' ∷ tail else if tail == [] then codes "." else tail

-- `filepath.Join`
unfoldable pub join_path : List Text → Text
unfolding clean
join_path [] = []
join_path (e ∷ es) = let rest = join_path es in if e == [] then rest else clean (join (e ∷ es) b'/')

-- `filepath.Dir`
unfoldable pub dir : Text → Text
unfolding clean split_path
dir path = clean (split_path path).0

strip_slashes : Text → Text
strip_slashes [] = []
strip_slashes (c ∷ s) =
    let rest = strip_slashes s in if rest == [] && c == b'/' then [] else c ∷ rest

-- `filepath.Base`
unfoldable pub base : Text → Text
unfolding strip_slashes split_path
base path =
    let file = (split_path (strip_slashes path)).1 in
    if path == [] then codes "." else if file == [] then codes "/" else file

clean_examples :
    (clean (codes "/a/./b//../c/") ≡ codes "/a/c")
    × (clean (codes "a/../..") ≡ codes "..")
    × (clean (codes "/..") ≡ codes "/")
    × (clean [] ≡ codes ".")
unfolding clean split join text_beq
clean_examples = (refl, refl, refl, refl)

base_examples :
    (base (codes "/a/b.rego") ≡ codes "b.rego")
    × (base (codes "///") ≡ codes "/")
    × (dir (codes "/a/b.rego") ≡ codes "/a")
    × (ext (codes "/a.b/c_test.rego") ≡ codes ".rego")
    × (join_path (codes "/a" ∷ [] ∷ codes "b" ∷ []) ≡ codes "/a/b")
unfolding base dir ext join_path split join text_beq
base_examples = (refl, refl, refl, refl, refl)
