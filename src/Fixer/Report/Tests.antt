-- ===== src/Fixer/Report/Tests.antt =====
-- pkg/fixer/report.go: a report with one fix.
use regal.Base.{
  ◌≡◌, refl, ◌≢◌, ◌&&◌, none, [], ◌∷◌, ◌++◌, if◌then◌else◌, ◌==◌, Text, codes, text_beq, ne-of_beq,
  text_eq, nat_eq,
}

abbrev a : Text
a = codes "a.rego"

abbrev b : Text
b = codes "b.rego"

apart : a ≢ b
unfolding regal.Base.text_beq
apart = ne-of_beq a b refl
