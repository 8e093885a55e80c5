-- ===== src/Fixer/WriteBack/Tests.antt =====
-- cmd/fix.go: writing back after one file was moved.
use regal.Base.{
  ◌≡◌, refl, subst, ◌≢◌, true, false, none, some, [], ◌∷◌, arith, if◌then◌else◌, eq_iff, contains,
  Text, codes, text_beq, Error, ok, err, ne-of_beq, text_eq,
}
use regal.Base.Dict.{Dict, lookup}
use regal.Util.Set.{member}
use regal.Fixer.InMemory
use regal.Fixer.InMemory.{InMemoryFileProvider}
use regal.Fixer.InMemory.Tracking.{Tracks, rename-Tracks, new_from_fs-Tracks}
use regal.Fixer.WriteBack.{write_back}
use regal.Fixer.WriteBack.Laws.{touched, write_back_agrees, write_back_missing}
use regal.Fixer.WriteBack.Overwrite.{rename_overwrites}

abbrev a : Text
a = codes "a.rego"

abbrev b : Text
b = codes "b.rego"

abbrev c : Text
c = codes "c.rego"

abbrev disk : Dict Text Text
disk = (a, codes "x") ∷ (b, codes "y") ∷ []

abbrev loaded : InMemoryFileProvider
loaded = record {
  files = (a, codes "x") ∷ [];
  modified = record { elements = [] };
  deleted = record { elements = [] };
}

abbrev moved : InMemoryFileProvider
moved = record {
  files = (b, codes "x") ∷ [];
  modified = record { elements = b ∷ [] };
  deleted = record { elements = a ∷ [] };
}

loaded_lem : InMemory.new_from_fs disk (a ∷ []) ≡ ok loaded
unfolding InMemory.new_from_fs lookup regal.Base.text_beq InMemory.new_in_memory
    regal.Base.Dict.insert regal.Util.Set.new_set
loaded_lem = refl

moved_lem : (InMemory.rename loaded a b).1 ≡ moved
unfolding InMemory.rename lookup regal.Base.text_beq regal.Base.Dict.erase regal.Util.Set.remove
    regal.Util.Set.add regal.Base.Dict.insert regal.Util.Set.drop_key regal.Util.Set.put contains
moved_lem = refl

moved-Tracks : Tracks disk (a ∷ []) moved
moved-Tracks =
    subst (λ p. Tracks disk (a ∷ []) p) moved_lem
      (rename-Tracks loaded a b (new_from_fs-Tracks disk (a ∷ []) loaded loaded_lem))

deleted_there : (j : Text) → member moved.deleted j ≡ true → lookup j disk ≢ none
unfolding contains lookup
deleted_there j h e = ground (arith, eq_iff a j)

write_back_agrees_example :
    (out : Dict Text Text) × (write_back disk moved ≡ ok out)
    × ((j : Text)
        → lookup j out ≡ (if touched (a ∷ []) moved j then lookup j moved.files else lookup j disk))
write_back_agrees_example = write_back_agrees disk (a ∷ []) moved moved-Tracks deleted_there

-- A file that was moved twice: the path in between is not on the disk.
abbrev moved_twice : InMemoryFileProvider
moved_twice = record {
  files = (c, codes "x") ∷ [];
  modified = record { elements = c ∷ [] };
  deleted = record { elements = a ∷ b ∷ [] };
}

in_between : member moved_twice.deleted b ≡ true
unfolding contains regal.Base.text_beq
in_between = refl

not_there : lookup b ((a, codes "x") ∷ []) ≡ none
unfolding lookup regal.Base.text_beq
not_there = refl

write_back_missing_example : (e : Error) × (write_back ((a, codes "x") ∷ []) moved_twice ≡ err e)
write_back_missing_example =
    write_back_missing ((a, codes "x") ∷ []) moved_twice b in_between not_there

held : lookup a disk ≡ some (codes "x")
unfolding lookup regal.Base.text_beq
held = refl

apart : a ≢ b
unfolding text_beq
apart = ne-of_beq a b refl

rename_overwrites_example :
    ((InMemory.rename loaded a b).0 ≡ ok tt)
    × ((out : Dict Text Text) × (write_back disk (InMemory.rename loaded a b).1 ≡ ok out)
        × (lookup b out ≡ some (codes "x"))
        × (lookup a out ≡ none))
rename_overwrites_example = rename_overwrites disk a b (codes "x") loaded held apart loaded_lem
