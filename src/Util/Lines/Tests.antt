-- ===== src/Util/Lines/Tests.antt =====
-- internal/util/util.go: the lines of a text of two lines with a break at its end.
use regal.Base.{◌≡◌, refl, true, [], ◌∷◌, arith, length, get_elem?, Text, ◌-ℤ◌, text_eq}
use regal.Go.Strings.{count_byte, split}
use regal.Util.Lines.{line_break, line, num_lines, line_contents}

abbrev text : Text
text = b'a' ∷ line_break ∷ b'b' ∷ line_break ∷ []

second : line text 2 ≡ (b'b' ∷ [], true)
unfolding line regal.Util.Lines.line_behind regal.Util.Lines.index_byte_nth
    regal.Util.Lines.index_from regal.Go.Strings.index_byte regal.Base.◌-ℤ◌
    regal.Util.Lines.first_line
second = refl

two_breaks : count_byte line_break text ≡ 2
two_breaks = refl
