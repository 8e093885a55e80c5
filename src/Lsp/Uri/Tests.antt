-- ===== src/Lsp/Uri/Tests.antt =====
-- internal/lsp/uri/uri.go: URIs at concrete paths.
use regal.Base.{◌≡◌, refl, ◌∷◌, ◌++◌, arith, Text, codes, text_beq, text_eq}
use regal.Lsp.Uri.{
  Identifier, generic, vscode, drive, escape_path, from_path, to_path, to_relative_path,
  from_relative_path, determine_identifier,
}
use regal.Lsp.Uri.Back.{IsPath, to_path-from_path, to_path_plus}

abbrev policy : Text
policy = codes "/a b/p+q.rego"

to_path-from_path_example : to_path (from_path vscode policy) ≡ policy
unfolding drive
to_path-from_path_example =
    to_path-from_path vscode policy (IsPath.from_root (codes "a b/p+q.rego") refl) (omega arith)

to_path_plus_example :
    to_path (codes "file:///" ++ (escape_path (codes "p") ++ b'+' ∷ escape_path (codes "q")))
    ≡ b'/' ∷ (codes "p" ++ b' ' ∷ codes "q")
unfolding drive
to_path_plus_example = to_path_plus (codes "p") (codes "q") (omega arith) (omega arith) refl

windows : from_path vscode (codes "C:/a b.rego") ≡ codes "file:///C%3A/a%20b.rego"
unfolding from_path regal.Config.Filter.trim_prefix regal.Go.Strings.has_prefix
    regal.Go.Strings.join regal.Go.Strings.split regal.Lsp.Uri.Escapes.escape_part
windows = refl

relative :
    to_relative_path (codes "file:///w/a%20b/c.rego") (codes "file:///w") ≡ codes "a b/c.rego"
unfolding to_relative_path regal.Config.Filter.trim_prefix regal.Go.Strings.has_prefix
    regal.Config.Filter.ensure_suffix regal.Base.text_beq regal.Lsp.Uri.Escapes.query_unescape
relative = refl

known : determine_identifier (codes "IntelliJ 2024") ≡ Identifier.intellij
unfolding determine_identifier regal.Base.text_beq regal.Go.Strings.has_prefix
known = refl
