-- ===== src/Fixer/Fixes/Tests.antt =====
-- pkg/fixer/fixes: each fix on a small policy.
use regal.Base.{
  ◌≡◌, refl, inr, true, Option, none, some, List, [], ◌∷◌, ◌++◌, arith, length, get_elem?, set,
  take, drop, Text, codes, text_beq, ℤ, pos, ◌+ℤ◌, ◌≤ℤ◌, Outcome, ok, panicked, ◌>>=◌, OnOk,
  text_eq,
}
use regal.Go.Slices.{int_length}
use regal.Go.Strings.{split, join}
use regal.Fixer.Fixes.{Position, Location, RuntimeOptions, FixCandidate, newline}
use regal.Fixer.Fixes.Edits.{Answers}
use regal.Fixer.Fixes.Whitespace
use regal.Fixer.Fixes.Whitespace.{
  BehindHash, no_whitespace_comment-Answers, no_whitespace_comment_at,
}
use regal.Fixer.Fixes.Comparison
use regal.Fixer.Fixes.Comparison.{
  InText, prefer_equals_comparison-Answers, prefer_equals_comparison_panics,
}
use regal.Fixer.Fixes.Directory
use regal.Fixer.Fixes.Removal.Cuts.{IsOrdered}

abbrev at : (row column : ℤ) → Option Position → Location
at row column end = record {
  end = end;
  text = none;
  file = codes "p.rego";
  column = column;
  row = row;
}

abbrev opts : List Location → RuntimeOptions
opts locations = record { config = none; base_dir = codes "/p"; locations = locations }

-- Two lines: `#c` and `x = 1`.
abbrev policy : FixCandidate
policy = record { filename = codes "p.rego"; contents = b'#' ∷ b'c' ∷ newline ∷ codes "x = 1" }

-- Row 7 of two.
abbrev outside : List Location
outside = at (pos 7) (pos 1) none ∷ []

no_whitespace_comment-Answers_example :
    Answers b' ' BehindHash policy.contents
      (Whitespace.fix policy (some (opts (at (pos 1) (pos 1) none ∷ at (pos 9) (pos 9) none ∷ []))))
no_whitespace_comment-Answers_example =
    no_whitespace_comment-Answers policy
      (opts (at (pos 1) (pos 1) none ∷ at (pos 9) (pos 9) none ∷ []))

line_1 : get_elem? (split policy.contents newline) 0 ≡ some (codes "#c")
unfolding split
line_1 = refl

line_2 : get_elem? (split policy.contents newline) 1 ≡ some (codes "x = 1")
unfolding split
line_2 = refl

two_lines : length (split policy.contents newline) ≡ 2
unfolding split
two_lines = refl

inside_text : InText (split policy.contents newline) (at (pos 2) (pos 1) none)
inside_text = (ground arith, ground (arith, two_lines))

prefer_equals_comparison-Answers_example :
    Answers b'=' Comparison.BeforeEquals policy.contents
      (Comparison.fix policy (some (opts (at (pos 2) (pos 1) none ∷ []))))
prefer_equals_comparison-Answers_example =
    prefer_equals_comparison-Answers policy (opts (at (pos 2) (pos 1) none ∷ [])) (inside_text, tt)

behind_text : int_length (split policy.contents newline) +ℤ pos 1 ≤ℤ pos 7
unfolding ◌+ℤ◌
behind_text = ground (arith, two_lines)

prefer_equals_comparison_panics_example : Comparison.fix policy (some (opts outside)) ≡ panicked
prefer_equals_comparison_panics_example =
    prefer_equals_comparison_panics policy (opts outside) (at (pos 7) (pos 1) none) [] refl
      (inr behind_text)

-- From the `c` of the first line to the `=` of the second.
abbrev end : Position
end = record { row = pos 2; column = pos 3 }

abbrev from_c : Location
from_c = at (pos 1) (pos 2) (some end)

from_c-IsOrdered : IsOrdered from_c
from_c-IsOrdered same = ground (arith, same)

abbrev package_path : FixCandidate → Outcome (List Text)
package_path fc = ok (codes "q" ∷ codes "authz_test" ∷ [])

moved_file :
    Directory.fix package_path policy (some (opts []))
    ≡ ok (
        record {
          rename =
              some (record { from_path = codes "p.rego"; to_path = codes "/p/q/authz/p.rego" });
          title = Directory.name;
          root = codes "/p";
          contents = policy.contents;
        }
        ∷ [])
unfolding Directory.fix regal.Base.◌>>=◌ Directory.get_package_path_directory
    Directory.package_parts Directory.is_regular_name regal.Base.text_beq Directory.move_to
    regal.Go.Paths.join_path join split Directory.should_exclude_test_suffix
    regal.Go.Paths.trim_suffix regal.Go.Paths.base
moved_file = refl
