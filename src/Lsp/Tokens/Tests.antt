-- ===== src/Lsp/Tokens/Tests.antt =====
-- internal/lsp/semantictokens/semantictokens.go: three tokens on two lines.
use regal.Base.{ℕ, ◌≡◌, refl, Bool, List, [], ◌∷◌, ◌++◌, arith}
use regal.Lsp.Tokens.{Token, SemanticTokensResult, full}
use regal.Lsp.Tokens.Decoded.{decode, IsOrderedFrom, count, full-decodes}

abbrev at : (line col type : ℕ) → Token
at line col type = record { line = line; col = col; length = 3; type = type; modifiers = 0 }

abbrev result : SemanticTokensResult
result = record {
  package_tokens = at 0 8 0 ∷ [];
  import_tokens = at 2 7 2 ∷ [];
  vars = at 2 1 1 ∷ [];
}

numbers : full result ≡ 0 ∷ 8 ∷ 3 ∷ 0 ∷ 0 ∷ 2 ∷ 1 ∷ 3 ∷ 1 ∷ 0 ∷ 0 ∷ 6 ∷ 3 ∷ 2 ∷ 0 ∷ []
unfolding full
numbers = refl

full-decodes_example :
    (tokens : List Token) × (decode 0 0 (full result) ≡ tokens)
    × IsOrderedFrom 0 0 tokens
    × ((p : Token → Bool)
        → count p tokens ≡ count p (result.package_tokens ++ (result.vars ++ result.import_tokens)))
full-decodes_example =
    full-decodes result ((omega arith, omega arith), tt) ((omega arith, omega arith), tt)
      ((omega arith, omega arith), tt)
