-- ===== src/Lsp/Concurrent/Tests.antt =====
-- pkg/roast/util/concurrent/map.go at concrete inputs.
use regal.Base.{ℕ, suc, ◌≡◌, refl, none, [], ◌∷◌, Text, codes, text_beq, text_eq}
use regal.Base.Dict.{Dict, lookup}
use regal.Lsp.Concurrent.{rename_key}
use regal.Lsp.Concurrent.Interleaved.{deletes, updates, here, next, apply, moved, rename_key-Reach}

abbrev old_key : Text
old_key = codes "a"

abbrev new_key : Text
new_key = codes "b"

abbrev other : Text
other = codes "c"

abbrev start : Dict Text ℕ
start = (old_key, 1) ∷ (other, 2) ∷ []

abbrev middle : Dict Text ℕ
middle = apply 0 (deletes other) start

abbrev end : Dict Text ℕ
end = apply 0 (updates other suc) (rename_key middle old_key new_key)

rename_key-Reach_example :
    (lookup old_key end ≡ none)
    × (lookup new_key end ≡ moved 0 (lookup old_key start) (lookup new_key start))
unfolding regal.Base.text_beq
rename_key-Reach_example =
    rename_key-Reach 0 start middle end old_key new_key refl
      (next here (deletes other) (refl, refl)) (next here (updates other suc) (refl, refl))
