-- ===== src/Lsp/Uri.antt =====
-- internal/lsp/uri/uri.go: between paths and URIs, on a system where `/` separates names.
pub mod Escapes
mod Back
mod Tests
use regal.Base.{
  ℕ, Bool, ◌&&◌, ◌||◌, Option, none, some, List, [], ◌∷◌, ◌++◌, leb, if◌then◌else◌, ◌==◌, Text,
  codes, text_eq, nat_eq,
}
use regal.Go.Strings.{has_prefix, split, join}
use regal.Go.Paths.{join_path}
use regal.Config.Filter.{trim_prefix, ensure_suffix}
use regal.Lsp.Uri.Escapes.{escape_part, query_unescape}

-- internal/lsp/clients/clients.go
pub data Identifier : Type 0 where
  generic vscode go_test zed neovim intellij : Identifier

-- `strings.Contains`
has_infix : Text → Text → Bool
has_infix [] p = has_prefix [] p
has_infix (c ∷ s) p = has_prefix (c ∷ s) p || has_infix s p

unfoldable pub determine_identifier : Text → Identifier
unfolding has_infix
determine_identifier client_name =
    if client_name == codes "go test"
    then go_test
    else if client_name == codes "Visual Studio Code"
    then vscode
    else if client_name == codes "Zed"
    then zed
    else if client_name == codes "Neovim"
    then neovim
    else if has_infix client_name (codes "IntelliJ")
    then intellij
    else generic

abbrev pub is_letter : ℕ → Bool
is_letter c = (leb b'a' c && leb c b'z') || (leb b'A' c && leb c b'Z')

abbrev pub starts_with_drive : Text → Option ℕ
starts_with_drive (l ∷ c ∷ _) = if is_letter l && c == b':' then some l else none
starts_with_drive _ = none

-- The group of `^/?([A-Za-z]):`.
unfoldable pub drive : Text → Option ℕ
drive (s ∷ p) = if s == b'/' then starts_with_drive p else starts_with_drive (s ∷ p)
drive [] = none

abbrev pub scheme : Text
scheme = codes "file://"

-- `QueryEscape` of the letter and the colon, for VS Code
abbrev pub drive_text : Identifier → ℕ → Text
drive_text vscode l = l ∷ codes "%3A"
drive_text _ l = l ∷ codes ":"

-- The loop cuts the path at its separators.
unfoldable pub escape_parts : List Text → List Text
escape_parts [] = []
escape_parts (p ∷ ps) = escape_part p ∷ escape_parts ps

unfoldable pub escape_path : Text → Text
unfolding escape_parts
escape_path path = join (escape_parts (split path b'/')) b'/'

-- What is written, by the letter that was found.
unfoldable pub uri_of : Identifier → Text → Option ℕ → Text
unfolding escape_path
uri_of client p none = codes "file:///" ++ escape_path p
uri_of client p (some l) =
    codes "file:///" ++ (drive_text client l ++ escape_path (trim_prefix p (l ∷ codes ":")))

unfoldable pub from_path : Identifier → Text → Text
unfolding drive uri_of
from_path client path =
    let p = trim_prefix (trim_prefix path scheme) (codes "/") in uri_of client p (drive p)

unfoldable pub decoded : Text → Text
decoded path = elim (query_unescape path) [ none ↦ path | some p ↦ p ]

unfoldable pub without_slash : Text → Text
unfolding drive
without_slash path = elim (drive path) [ none ↦ path | some _ ↦ trim_prefix path (codes "/") ]

unfoldable pub to_path : Text → Text
unfolding decoded without_slash
to_path uri =
    without_slash (if has_prefix uri scheme then decoded (trim_prefix uri scheme) else uri)

unfoldable pub to_relative_path : (uri workspace_root_uri : Text) → Text
unfolding to_path
to_relative_path uri workspace_root_uri =
    trim_prefix (to_path uri) (ensure_suffix (to_path workspace_root_uri) (codes "/"))

unfoldable pub from_relative_path : Identifier → (relative_path workspace_root_uri : Text) → Text
unfolding to_path from_path
from_relative_path client relative_path workspace_root_uri =
    from_path client (join_path (to_path workspace_root_uri ∷ relative_path ∷ []))
