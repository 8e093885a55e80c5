-- ===== src/Config/Filter/Tests.antt =====
-- pkg/config/filter.go: one directory is ignored; a glob is read as the text in front of its stars.
use regal.Base.{
  ◌≡◌, refl, not, ◌&&◌, List, [], ◌∷◌, if◌then◌else◌, ◌==◌, contains, Text, codes, text_beq,
  Outcome, ok, ◌>>=◌, text_eq, nat_eq,
}
use regal.Go.Strings.{has_prefix}
use regal.Config.Filter.{compile_patterns, excluded, filter_paths}

abbrev until_star : Text → Text
until_star [] = []
until_star (c ∷ s) = if c == b'*' then [] else c ∷ until_star s

abbrev compile : Text → Outcome Text
compile p = ok (until_star p)

compiled_rooted :
    compile_patterns compile (λ g f. has_prefix f g) (codes "build/x" ∷ [])
    ≡ ok (codes "build/x" ∷ codes "build/x/" ∷ [])
unfolding compile_patterns regal.Base.text_beq regal.Base.◌>>=◌ regal.Config.Filter.compile_all
    regal.Config.Filter.with_suffixes regal.Config.Filter.without_prefix has_prefix
    regal.Config.Filter.rooted regal.Config.Filter.trim_prefix contains
    regal.Config.Filter.with_suffix regal.Config.Filter.has_suffix
compiled_rooted = refl
