-- ===== src/Lsp/Types.antt =====
-- internal/lsp/types/types.go: positions, ranges and diagnostics. A `uint` is a natural number; the source
-- and the link of a diagnostic are left out.
use regal.Base.{ℕ, Text, text_eq}

pub record Position : Type 0 where
  pub line : ℕ
  pub character : ℕ

pub record Range : Type 0 where
  pub start : Position
  pub end : Position

pub record Diagnostic : Type 0 where
  pub message_text : Text
  pub code : Text
  pub range : Range
  pub severity : ℕ

abbrev pub range_between : (start_line start_character end_line end_character : ℕ) → Range
range_between start_line start_character end_line end_character = record {
  start = record { line = start_line; character = start_character };
  end = record { line = end_line; character = end_character };
}
