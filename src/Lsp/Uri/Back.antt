-- ===== src/Lsp/Uri/Back.antt =====
-- internal/lsp/uri/uri.go: a path that became a URI is found again.
use regal.Base.{
  ℕ, ◌<◌, ◌≡◌, refl, sym, ap, ◌∙◌, ◌≢◌, inl, inr, true, none, some, List, [], ◌∷◌, ◌++◌,
  append_assoc, append-nil, arith, if◌then◌else◌, Bool-cases, All, ◌==◌, Text, codes, text_eq,
  nat_eq,
}
use regal.Go.Strings.{grow, split, join, join_rest, has_prefix, split-ne-nil}
use regal.Config.Filter.{trim_prefix}
use regal.Lsp.Uri.Escapes.{
  escaped, escape_part, query_unescape, escape_part-cons, unescape_kept, unescape_plus,
  unescape_digits, unescape-escaped, kept,
}
use regal.Lsp.Uri.{
  Identifier, generic, vscode, go_test, zed, neovim, intellij, drive, drive_text, scheme,
  escape_parts, escape_path, uri_of, from_path, decoded, without_slash, to_path, is_letter,
  starts_with_drive,
}

abbrev pub IsByte : ℕ → Type 0
IsByte c = c < 256

-- A byte of a path in the URI.
shown : ℕ → Text
shown c = if c == b'/' then c ∷ [] else escaped c

escape_grow :
    (c : ℕ) (parts : List Text)
    → IsByte c
    → parts ≢ []
    → join (escape_parts (grow c parts)) b'/' ≡ escaped c ++ join (escape_parts parts) b'/'
unfolding grow escape_parts join
escape_grow c [] small ne = absurd (ne refl)
escape_grow c (p ∷ ps) small ne =
    rw (escape_part-cons c p small)
      (append_assoc (escaped c) (escape_part p) (join_rest b'/' (escape_parts ps)))

escape_empty :
    (parts : List Text)
    → parts ≢ []
    → join (escape_parts ([] ∷ parts)) b'/' ≡ b'/' ∷ join (escape_parts parts) b'/'
unfolding escape_parts join escape_part
escape_empty [] ne = absurd (ne refl)
escape_empty (p ∷ ps) ne = refl

escape_path-cons : (c : ℕ) (q : Text) → IsByte c → escape_path (c ∷ q) ≡ shown c ++ escape_path q
unfolding escape_path split shown
escape_path-cons c q small = elim (Bool-cases (c == b'/')) [
  | inl slash ↦
      let e : c ≡ 47 = ground (arith, slash) in
      rw slash
        (escape_empty (split q b'/') (split-ne-nil q b'/') ∙ ap (λ x. x ∷ escape_path q) (sym e))
  | inr other ↦ rw other (escape_grow c (split q b'/') small (split-ne-nil q b'/'))
]

unescape-shown :
    (c : ℕ) (rest : Text)
    → IsByte c
    → query_unescape (shown c ++ rest) ≡ kept c (query_unescape rest)
unfolding shown
unescape-shown c rest small = elim (Bool-cases (c == b'/')) [
  | inl slash ↦ rw slash (unescape_kept c rest (ground (arith, slash)) (ground (arith, slash)))
  | inr other ↦ rw other (unescape-escaped c rest small)
]

escape_path_nil : escape_path [] ≡ []
unfolding escape_path join split escape_part
escape_path_nil = refl

unescape_before :
    (q rest r : Text)
    → All IsByte q
    → query_unescape rest ≡ some r
    → query_unescape (escape_path q ++ rest) ≡ some (q ++ r)
unescape_before [] rest r h e = rw escape_path_nil e
unescape_before (c ∷ q) rest r (small, h) e = rw (escape_path-cons c q small) (
    ap (λ x. query_unescape x) (append_assoc (shown c) (escape_path q) rest)
    ∙ unescape-shown c (escape_path q ++ rest) small
    ∙ rw (unescape_before q rest r h e) refl)

unescape-escape_path : (q : Text) → All IsByte q → query_unescape (escape_path q) ≡ some q
unfolding query_unescape
unescape-escape_path q h =
    ap (λ x. query_unescape x) (sym (append-nil (escape_path q)))
    ∙ unescape_before q [] [] h refl
    ∙ ap (λ x. some x) (append-nil q)

no_drive : (q : Text) → drive q ≡ none → starts_with_drive q ≡ none
unfolding drive
no_drive [] h = refl
no_drive (s ∷ []) h = refl
no_drive (s ∷ c ∷ q) h = ground arith

-- A path from the root, or from a drive.
pub data IsPath : Text → Type 0 where
  from_root : (q : Text) → drive q ≡ none → IsPath (b'/' ∷ q)
  from_drive : (l : ℕ) (r : Text) → is_letter l ≡ true → IsPath (l ∷ b':' ∷ r)

trimmed_root : (q : Text) → trim_prefix (trim_prefix (b'/' ∷ q) scheme) (codes "/") ≡ q
unfolding trim_prefix has_prefix
trimmed_root q = refl

trimmed_drive :
    (l : ℕ) (r : Text)
    → is_letter l ≡ true
    → (trim_prefix (trim_prefix (l ∷ b':' ∷ r) scheme) (codes "/") ≡ l ∷ b':' ∷ r)
      × (trim_prefix (l ∷ b':' ∷ r) (l ∷ codes ":") ≡ r)
unfolding trim_prefix has_prefix
trimmed_drive l r h = (ground (arith, h), ground (arith, h))

drive_letter : (l : ℕ) (r : Text) → is_letter l ≡ true → drive (l ∷ b':' ∷ r) ≡ some l
unfolding drive
drive_letter l r h = ground (arith, h)

from_root_uri :
    (client : Identifier) (q : Text)
    → drive q ≡ none
    → from_path client (b'/' ∷ q) ≡ codes "file:///" ++ escape_path q
unfolding from_path uri_of
from_root_uri client q h =
    ap (λ x. uri_of client x (drive x)) (trimmed_root q) ∙ ap (uri_of client q) h

from_drive_uri :
    (client : Identifier) (l : ℕ) (r : Text)
    → is_letter l ≡ true
    → from_path client (l ∷ b':' ∷ r) ≡ codes "file:///" ++ (drive_text client l ++ escape_path r)
unfolding from_path uri_of
from_drive_uri client l r h =
    let (whole, rest) = trimmed_drive l r h in
    ap (λ x. uri_of client x (drive x)) whole
    ∙ ap (uri_of client (l ∷ b':' ∷ r)) (drive_letter l r h)
    ∙ ap (λ x. codes "file:///" ++ (drive_text client l ++ escape_path x)) rest

decoded-some : (x p : Text) → query_unescape x ≡ some p → decoded x ≡ p
unfolding decoded
decoded-some x p h = rw (h, decoded) refl

to_path_scheme : (x : Text) → to_path (codes "file:///" ++ x) ≡ without_slash (decoded (b'/' ∷ x))
unfolding to_path trim_prefix has_prefix
to_path_scheme x = refl

to_path_decoded :
    (x p : Text)
    → query_unescape x ≡ some p
    → to_path (codes "file:///" ++ x) ≡ without_slash (b'/' ∷ p)
to_path_decoded x p h =
    to_path_scheme x
    ∙ ap (λ y. without_slash y)
        (decoded-some (b'/' ∷ x) (b'/' ∷ p) (unescape_kept b'/' x refl refl ∙ rw h refl))

without_slash_root : (q : Text) → drive q ≡ none → without_slash (b'/' ∷ q) ≡ b'/' ∷ q
unfolding without_slash drive
without_slash_root q h = rw (no_drive q h, without_slash) refl

without_slash_drive :
    (l : ℕ) (r : Text) → is_letter l ≡ true → without_slash (b'/' ∷ l ∷ b':' ∷ r) ≡ l ∷ b':' ∷ r
unfolding without_slash drive trim_prefix has_prefix
without_slash_drive l r h = ground (arith, h)

unescape_letter :
    (l : ℕ) (y r : Text)
    → is_letter l ≡ true
    → query_unescape y ≡ some r
    → query_unescape (l ∷ y) ≡ some (l ∷ r)
unescape_letter l y r h e = unescape_kept l y (ground (arith, h)) (ground (arith, h)) ∙ rw e refl

unescape_colon :
    (x r : Text) → query_unescape x ≡ some r → query_unescape (b':' ∷ x) ≡ some (b':' ∷ r)
unescape_colon x r e = unescape_kept b':' x refl refl ∙ rw e refl

unescape_drive :
    (client : Identifier) (l : ℕ) (x r : Text)
    → is_letter l ≡ true
    → query_unescape x ≡ some r
    → query_unescape (drive_text client l ++ x) ≡ some (l ∷ b':' ∷ r)
unescape_drive vscode l x r h e =
    unescape_letter l (codes "%3A" ++ x) (b':' ∷ r) h
      (unescape_digits 3 10 x (omega arith) (omega arith) ∙ rw e refl)
unescape_drive generic l x r h e = unescape_letter l (b':' ∷ x) (b':' ∷ r) h (unescape_colon x r e)
unescape_drive go_test l x r h e = unescape_letter l (b':' ∷ x) (b':' ∷ r) h (unescape_colon x r e)
unescape_drive zed l x r h e = unescape_letter l (b':' ∷ x) (b':' ∷ r) h (unescape_colon x r e)
unescape_drive neovim l x r h e = unescape_letter l (b':' ∷ x) (b':' ∷ r) h (unescape_colon x r e)
unescape_drive intellij l x r h e = unescape_letter l (b':' ∷ x) (b':' ∷ r) h (unescape_colon x r e)

-- `ToPath` takes the URI that `FromPath` makes of a path, for any client, back to the path, if it is one
-- from the root without a drive behind the slash, or one from a drive.
pub to_path-from_path :
    (client : Identifier) (p : Text) → IsPath p → All IsByte p → to_path (from_path client p) ≡ p
to_path-from_path client _ (IsPath.from_root q h) (_, bytes) =
    ap (λ u. to_path u) (from_root_uri client q h)
    ∙ to_path_decoded (escape_path q) q (unescape-escape_path q bytes)
    ∙ without_slash_root q h
to_path-from_path client _ (IsPath.from_drive l r h) (_, (_, bytes)) =
    ap (λ u. to_path u) (from_drive_uri client l r h)
    ∙ to_path_decoded (drive_text client l ++ escape_path r) (l ∷ b':' ∷ r)
        (unescape_drive client l (escape_path r) r h (unescape-escape_path r bytes))
    ∙ without_slash_drive l r h

-- A plus sign in the path of a URI, which stands for itself there, becomes a space.
pub to_path_plus :
    (q r : Text)
    → All IsByte q
    → All IsByte r
    → drive (q ++ b' ' ∷ r) ≡ none
    → to_path (codes "file:///" ++ (escape_path q ++ b'+' ∷ escape_path r)) ≡ b'/' ∷ (q ++ b' ' ∷ r)
to_path_plus q r bytes bytes' h =
    to_path_decoded (escape_path q ++ b'+' ∷ escape_path r) (q ++ b' ' ∷ r) (
      unescape_before q (b'+' ∷ escape_path r) (b' ' ∷ r) bytes
        (unescape_plus (escape_path r) ∙ rw (unescape-escape_path r bytes') refl))
    ∙ without_slash_root (q ++ b' ' ∷ r) h
