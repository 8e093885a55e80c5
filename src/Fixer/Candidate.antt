-- ===== src/Fixer/Candidate.antt =====
-- pkg/fixer/rename.go: the next file name to try when a name is taken. `atoi` stands for the value
-- of `util.Atoi` of the policy engine, whose error the code ignores.
use regal.Base.{
  zero, suc, ◌+◌, ◌-◌, ◌^◌, not, ◌||◌, Option, none, some, [], ◌∷◌, ◌++◌, if◌then◌else◌, ◌==◌,
  contains, Text, codes, ℤ, pos, negsuc, text_eq, nat_eq,
}
use regal.Go.Paths.{cut_last, cut_suffix, trim_suffix, split_path, ext, join_path}
use regal.Go.Decimal.{format_int, all_digits}

-- `^(.*)_(\d+)$`: the text before the last underscore, if only digits stand behind it. A dot of
-- the pattern matches no line break.
unfoldable pub match_numbered : Text → Option (Text × Text)
match_numbered base = elim (cut_last b'_' base) [
  | none ↦ none
  | some (name, number) ↦
      if number == [] || not (all_digits number) || contains name 10
      then none
      else some (name, number)
]

-- `num++` on an `int` of 64 bits
abbrev pub increment : ℤ → ℤ
increment (pos n) = if n == 2 ^ 63 - 1 then negsuc n else pos (n + 1)
increment (negsuc zero) = pos 0
increment (negsuc (suc n)) = negsuc n

module _ (atoi : Text → ℤ) where
  unfoldable pub next_base : Text → Text
  unfolding match_numbered
  next_base base = elim (match_numbered base) [
    | some (name, number) ↦ name ++ b'_' ∷ format_int (increment (atoi number))
    | none ↦ base ++ codes "_1"
  ]

  -- A test file keeps its `_test`, behind the number.
  unfoldable pub next_stem : Text → Text
  unfolding next_base
  next_stem stem = elim (cut_suffix stem (codes "_test")) [
    | some base ↦ next_base base ++ codes "_test"
    | none ↦ next_base stem
  ]

  unfoldable pub rename_candidate : Text → Text
  unfolding next_stem
  rename_candidate old_name =
      let (dir, base_with_ext) = split_path old_name in
      let e = ext base_with_ext in
      join_path (dir ∷ (next_stem (trim_suffix base_with_ext e) ++ e) ∷ [])
