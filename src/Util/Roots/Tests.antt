-- ===== src/Util/Roots/Tests.antt =====
-- internal/util/util.go: a path under two of the roots.
use regal.Base.{◌≡◌, refl, List, [], ◌∷◌, ◌++◌, Text, codes, text_beq, text_eq}
use regal.Util.Roots.{IsLongestRoot, find_closest_matching_root, find_closest-IsLongestRoot}

abbrev path : Text
path = codes "/p/bundle/a.rego"

abbrev roots : List Text
roots = codes "/p" ∷ codes "/p/bundle" ∷ codes "/q" ∷ []

find_closest-IsLongestRoot_example :
    IsLongestRoot path roots (find_closest_matching_root path roots)
find_closest-IsLongestRoot_example = find_closest-IsLongestRoot path roots

closest : find_closest_matching_root path roots ≡ codes "/p/bundle"
unfolding find_closest_matching_root regal.Base.text_beq regal.Go.Strings.has_prefix
closest = refl
