-- ===== src/Lsp/Tokens.antt =====
-- internal/lsp/semantictokens/semantictokens.go `Full`: tokens in the order of their positions, each
-- written as five numbers relative to the one before it. The numbers are `uint32`.
pub mod Decoded
mod Tests
use regal.Base.{
  ℕ, ◌+◌, ◌-◌, ◌%◌, ◌^◌, Bool, not, List, [], ◌∷◌, ◌++◌, ltb, if◌then◌else◌, ◌==◌, nat_eq,
}

pub record Token : Type 0 where
  pub line : ℕ
  pub col : ℕ
  pub length : ℕ
  pub type : ℕ
  pub modifiers : ℕ

pub record SemanticTokensResult : Type 0 where
  pub package_tokens : List Token
  pub import_tokens : List Token
  pub vars : List Token

-- Whether the comparison of the sort is negative.
unfoldable pub before : Token → Token → Bool
before a b = if not (a.line == b.line) then ltb a.line b.line else ltb a.col b.col

-- `slices.SortFunc`, with tokens at one position in the order in which they came.
unfoldable pub insert_token : Token → List Token → List Token
unfolding before
insert_token a [] = a ∷ []
insert_token a (b ∷ bs) =
    let rest = insert_token a bs in if before b a then b ∷ rest else a ∷ b ∷ bs

unfoldable pub sort_tokens : List Token → List Token
unfolding insert_token
sort_tokens [] = []
sort_tokens (a ∷ as') = insert_token a (sort_tokens as')

-- Subtraction of `uint32`.
abbrev pub minus : ℕ → ℕ → ℕ
minus a b = (a + (2 ^ 32 - b)) % 2 ^ 32

unfoldable pub encode : (prev_line prev_col : ℕ) → List Token → List ℕ
encode prev_line prev_col [] = []
encode prev_line prev_col (tok ∷ toks) =
    let delta_line = minus tok.line prev_line in
    let delta_col = if delta_line == 0 then minus tok.col prev_col else tok.col in
    delta_line ∷ delta_col ∷ tok.length ∷ tok.type ∷ tok.modifiers ∷ encode tok.line tok.col toks

unfoldable pub full : SemanticTokensResult → List ℕ
unfolding sort_tokens encode
full result =
    let tokens = result.package_tokens ++ (result.vars ++ result.import_tokens) in
    encode 0 0 (sort_tokens tokens)
